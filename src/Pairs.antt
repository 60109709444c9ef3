-- ===== src/Pairs.antt =====
-- KSmallestPairs of test/373.cc. The std::priority_queue that it uses is a parameter.
pub mod Front
pub mod Smallest
pub mod Result
mod Examples
use algo.Prelude.{
  ℕ, zero, suc, ◌>>=◌, ◌+◌, ◌<◌, ◌≡◌, Bool, true, false, ◌&&◌, Option, none, some, List, [], ◌∷◌,
  ◌==◌, if◌then◌else◌, ltb, min, length, get_elem?,
}
use algo.Prelude.Int.{ℤ, pos, ◌+ℤ◌, ltb_ℤ}

-- A pair of indices.
pub record Item : Type 0 where
  pub row : ℕ
  pub col : ℕ

abbrev pub one_if : Item → Item → ℕ
one_if x y = if (x.row == y.row) && (x.col == y.col) then 1 else 0

-- A priority queue for a comparison, by how many copies of an item it has: `emplace` adds one, and
-- `pop` takes one of an item that `less` puts below no other one; none stands for an empty queue.
pub record PriorityQueue (less : Item → Item → Bool) : Type 1 where
  pub Queue : Type 0
  pub new : Queue
  pub emplace : Queue → Item → Queue
  pub pop : Queue → Option (Item × Queue)
  pub copies : Queue → Item → ℕ
  pub copies-new : (x : Item) → copies new x ≡ 0
  pub copies-emplace : (q : Queue) (x y : Item) → copies (emplace q x) y ≡ one_if x y + copies q y
  pub copies-pop :
      (q q' : Queue) (x y : Item) → pop q ≡ some (x, q') → copies q y ≡ one_if x y + copies q' y
  pub pop_none : (q : Queue) (y : Item) → pop q ≡ none → copies q y ≡ 0
  pub pop_greatest :
      (q q' : Queue) (x y : Item) → pop q ≡ some (x, q') → 0 < copies q y → less x y ≡ false

-- An index that is outside is not compared without being read below as well.
abbrev pub elem : List ℤ → ℕ → ℤ
elem [] i = pos 0
elem (x ∷ xs) zero = x
elem (x ∷ xs) (suc i) = elem xs i

unfoldable pub sum : List ℤ → List ℤ → Item → ℤ
sum nums1 nums2 x = elem nums1 x.row +ℤ elem nums2 x.col

-- `cmp`; sums are taken not to overflow.
abbrev pub cmp : List ℤ → List ℤ → Item → Item → Bool
cmp nums1 nums2 f s = ltb_ℤ (sum nums1 nums2 s) (sum nums1 nums2 f)

-- What is read at `emplace_back`.
pub record Taken : Type 0 where
  pub item : Item
  pub first : ℤ
  pub second : ℤ

abbrev pub take_pair : List ℤ → List ℤ → Item → Option Taken
take_pair nums1 nums2 x = do
  a ← get_elem? nums1 x.row
  b ← get_elem? nums2 x.col
  some (record { item = x; first = a; second = b })

abbrev pub values : List Taken → List (ℤ × ℤ)
values [] = []
values (t ∷ ts) = (t.first, t.second) ∷ values ts

module _ (nums1 nums2 : List ℤ) (P : PriorityQueue (cmp nums1 nums2)) where
  -- The first loop, from row `i` on.
  unfoldable pub fill : ℕ → ℕ → P.Queue → P.Queue
  fill i zero q = q
  fill i (suc left) q = fill (i + 1) left (P.emplace q (record { row = i; col = 0 }))

  abbrev pub next_of : Item → P.Queue → P.Queue
  next_of x q =
      if ltb (x.col + 1) (length nums2)
      then P.emplace q (record { row = x.row; col = x.col + 1 })
      else q

  -- The second loop.
  unfoldable pub search : ℕ → P.Queue → Option (List Taken)
  search zero q = some []
  search (suc k) q = elim (P.pop q) [
    | none ↦ some []
    | some (x, q') ↦ do t ← take_pair nums1 nums2 x; ts ← search k (next_of x q'); some (t ∷ ts)
  ]

  -- A negative `k` does what 0 does.
  unfoldable pub k_smallest_pairs : ℕ → Option (List (ℤ × ℤ))
  k_smallest_pairs k = do ts ← search k (fill 0 (min k (length nums1)) P.new); some (values ts)
