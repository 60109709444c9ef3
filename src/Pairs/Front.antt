-- ===== src/Pairs/Front.antt =====
-- The queue of KSmallestPairs in test/373.cc: what it holds, and what is taken of it.
use algo.Prelude.{
  ℕ, zero, suc, ◌+◌, ◌<◌, ◌≤◌, ◌≡◌, inl, inr, refl, arith, Bool, true, false, ◌&&◌, ◌||◌, some,
  List, [], ◌∷◌, ◌==◌, if◌then◌else◌, ltb, length, get_elem?, Bool-cases,
}
use algo.Prelude.Int.{ℤ, ltb_ℤ}
use algo.Pairs.{Item, one_if, PriorityQueue, elem, sum, cmp, Taken, take_pair, next_of}

abbrev pub is_at : ℕ → ℕ → Taken → Bool
is_at i j t = (t.item.row == i) && (t.item.col == j)

abbrev pub has : ℕ → ℕ → List Taken → Bool
has i j [] = false
has i j (t ∷ ts) = is_at i j t || has i j ts

elem_there : (xs : List ℤ) (i : ℕ) → i < length xs → get_elem? xs i ≡ some (elem xs i)
elem_there [] i h = absurd (omega arith)
elem_there (x ∷ xs) zero h = refl
elem_there (x ∷ xs) (suc i) h = elem_there xs i (omega arith)

pub not_less_trans : (a b c : ℤ) → ltb_ℤ b a ≡ false → ltb_ℤ c b ≡ false → ltb_ℤ c a ≡ false
not_less_trans a b c h k = ground arith

module _ (nums1 nums2 : List ℤ) where
  abbrev pub at : ℕ → ℕ → ℤ
  at i j = sum nums1 nums2 (record { row = i; col = j })

  -- The pairs are those of their indices, no indices come twice, and the sums ascend.
  abbrev pub AreGood : List Taken → Type 0
  AreGood [] = Unit {0}
  AreGood (t ∷ ts) =
      (take_pair nums1 nums2 t.item ≡ some t)
      × (has t.item.row t.item.col ts ≡ false)
      × ((i j : ℕ) → has i j ts ≡ true → ltb_ℤ (at i j) (at t.item.row t.item.col) ≡ false)
      × AreGood ts

  module _ (P : PriorityQueue (cmp nums1 nums2))
      (ascending : (i j j' : ℕ)
        → j ≤ j'
        → j' < length nums2
        → ltb_ℤ (at i j') (at i j) ≡ false) where
    abbrev pub held : P.Queue → ℕ → ℕ → ℕ
    held q i j = P.copies q (record { row = i; col = j })

    -- The queue has one item of a row at most, and only items that are inside.
    pub record IsFront (q : P.Queue) : Type 0 where
      pub once : (i j : ℕ) → held q i j ≤ 1
      pub alone : (i j j' : ℕ) → 0 < held q i j → 0 < held q i j' → j ≡ j'
      pub inside : (i j : ℕ) → 0 < held q i j → (i < length nums1) × (j < length nums2)

    module _ (q q' : P.Queue) (x : Item) (f : IsFront q) (e : P.pop q ≡ some (x, q')) where
      abbrev pub next : P.Queue
      next = next_of nums1 nums2 P x q'

      popped : (i j : ℕ) → held q i j ≡ one_if x (record { row = i; col = j }) + held q' i j
      popped i j = P.copies-pop q q' x (record { row = i; col = j }) e

      pub popped_there : 0 < held q x.row x.col
      popped_there = ground (arith, popped x.row x.col)

      inserted :
          (i j : ℕ)
          → held (P.emplace q' (record { row = x.row; col = x.col + 1 })) i j
            ≡ one_if (record { row = x.row; col = x.col + 1 }) (record { row = i; col = j })
              + held q' i j
      inserted i j =
          P.copies-emplace q' (record { row = x.row; col = x.col + 1 })
            (record { row = i; col = j })

      -- Other rows are as they were.
      pub next_other : (i j : ℕ) → (x.row == i) ≡ false → held next i j ≡ held q i j
      next_other i j ne = elim (Bool-cases (ltb (x.col + 1) (length nums2))) [
        | inl more ↦ rw more (ground (arith, popped i j, inserted i j))
        | inr last ↦ rw last (ground (arith, popped i j))
      ]

      -- The row of the item has its next one, if there is one.
      pub next_own :
          (j : ℕ)
          → held next x.row j
            ≡ (if ltb (x.col + 1) (length nums2) && (x.col + 1 == j) then 1 else 0)
      next_own j = elim (Bool-cases (ltb (x.col + 1) (length nums2))) [
        | inl more ↦ rw more (
            ground (
              arith,
              popped x.row j,
              inserted x.row j,
              popped_there,
              f.once x.row j,
              f.alone x.row j x.col,
            ))
        | inr last ↦
            rw last
              (ground (arith, popped x.row j, popped_there, f.once x.row j, f.alone x.row j x.col))
      ]

      pub next-IsFront : IsFront next
      next-IsFront = record {
        once = λ i j. ground (arith, next_other i j, next_own j, f.once i j);
        alone = λ i j j' h h'.
            ground
              (arith, next_other i j, next_other i j', next_own j, next_own j', f.alone i j j');
        inside = λ i j h. elim (Bool-cases (x.row == i)) [
          | inl own ↦ ground (arith, next_own j, f.inside x.row x.col popped_there)
          | inr other ↦ ground (arith, next_other i j, f.inside i j)
        ];
      }

      -- Nothing that the queue stands for is below the item.
      pub floor :
          (i j0 j : ℕ)
          → 0 < held q i j0
          → j0 ≤ j
          → j < length nums2
          → ltb_ℤ (at i j) (at x.row x.col) ≡ false
      floor i j0 j h le lt =
          not_less_trans (at x.row x.col) (at i j0) (at i j)
            (P.pop_greatest q q' x (record { row = i; col = j0 }) e h) (ascending i j0 j le lt)

      abbrev pub taken : Taken
      taken = record { item = x; first = elem nums1 x.row; second = elem nums2 x.col }

      pub taken_there : take_pair nums1 nums2 x ≡ some taken
      taken_there =
          let (row, col) = f.inside x.row x.col popped_there in
          rw (elem_there nums1 x.row row, elem_there nums2 x.col col) refl
