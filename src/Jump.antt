-- ===== src/Jump.antt =====
-- jump of test/45.cc: the fewest jumps to the end of a vector, where the element at a position is
-- the longest jump from it. Sums are taken to stay within an int.
pub mod Frontier
pub mod Fewest
mod Examples
use algo.Prelude.{
  ℕ, zero, suc, max, Option, none, some, List, [], ◌∷◌, ◌==◌, if◌then◌else◌, get_or, length,
}
use algo.Prelude.Int.{ℤ, pos, ◌+ℤ◌, pos_part}

-- `i + nums[i]`, or 0 if that is less: `maxpos` is never below 0.
abbrev pub farthest : List ℤ → ℕ → ℕ
farthest nums i = pos_part (pos i +ℤ get_or nums i (pos 0))

-- The rest of the loop, with as many rounds left.
unfoldable pub jump_loop : List ℤ → ℕ → ℕ → ℕ → ℕ → ℕ → ℕ
jump_loop nums zero i res end maxpos = res
jump_loop nums (suc rounds) i res end maxpos =
    let m = max maxpos (farthest nums i) in
    jump_loop nums rounds (suc i) (if i == end then suc res else res) (if i == end then m else end)
      m

-- Without an element `nums.size() - 1` wraps around, and the loop reads past the vector.
unfoldable pub jump : List ℤ → Option ℕ
jump [] = none
jump (x ∷ xs) = some (jump_loop (x ∷ xs) (length xs) 0 0 0 0)
