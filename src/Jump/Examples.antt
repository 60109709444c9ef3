-- ===== src/Jump/Examples.antt =====
-- Runs of jump (test/45.cc), and the theorem at one of them.
use algo.Prelude.{ℕ, ◌≡◌, refl, ◌≤◌, arith, some, List, [], ◌∷◌}
use algo.Prelude.Int.{ℤ, pos, negsuc, ◌+ℤ◌}
use algo.Jump.{farthest, jump_loop, jump}
use algo.Jump.Frontier.{Way, start, leap}
use algo.Jump.Fewest.{jump_lem}

abbrev five_elements : List ℤ
five_elements = pos 2 ∷ pos 3 ∷ pos 1 ∷ pos 1 ∷ pos 4 ∷ []

jump_five : jump five_elements ≡ some 2
unfolding jump jump_loop ◌+ℤ◌
jump_five = refl

jump_main : jump (pos 1 ∷ pos 1 ∷ pos 1 ∷ pos 1 ∷ []) ≡ some 3
unfolding jump jump_loop ◌+ℤ◌
jump_main = refl

-- Nothing is reachable from the first element, and the loop still counts one jump.
jump_nowhere : jump (pos 0 ∷ negsuc 0 ∷ pos 0 ∷ []) ≡ some 1
unfolding jump jump_loop ◌+ℤ◌
jump_nowhere = refl

five-Way : Way (farthest five_elements) 3 4
unfolding ◌+ℤ◌
five-Way =
    leap 4 (omega arith) (omega arith)
      (leap 3 (omega arith) (omega arith) (leap 2 (omega arith) (omega arith) start))

jump_lem_example :
    (r : ℕ) × (jump five_elements ≡ some r)
    × Way (farthest five_elements) r 4
    × ((j : ℕ) → Way (farthest five_elements) j 4 → r ≤ j)
jump_lem_example = jump_lem five_elements 4 3 refl five-Way
