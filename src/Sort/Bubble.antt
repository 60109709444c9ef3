-- ===== src/Sort/Bubble.antt =====
-- BubbleSort of sort_algo/bubble_sort.cc.
use algo.Prelude.{
  ℕ, zero, suc, ◌+◌, ◌≤◌, ◌<◌, ◌≡◌, inl, inr, arith, List, if◌then◌else◌, length, Bool-cases,
}
use algo.Prelude.Int.{ℤ, ◌≤ℤ◌, ltb_ℤ}
use algo.Sort.{
  at, swap, at-swap, IsSettled, IsRearranged, unchanged, swapped, IsRearranged-trans, IsSorted,
  settle_next,
}

-- The body of the inner loop.
abbrev pub bubble_step : List ℤ → ℕ → ℕ → List ℤ
bubble_step vec i j = if ltb_ℤ (at vec j) (at vec i) then swap vec i j else vec

-- The inner loop, with the number of its passes last.
unfoldable pub bubble_row : List ℤ → ℕ → ℕ → ℕ → List ℤ
bubble_row vec i j zero = vec
bubble_row vec i j (suc n) = bubble_row (bubble_step vec i j) i (j + 1) n

-- The outer loop: `n` passes from `i` on end where `i` is `end + 1`.
unfoldable pub bubble_rows : List ℤ → ℕ → ℕ → List ℤ
unfolding bubble_row
bubble_rows vec i zero = vec
bubble_rows vec i (suc n) = bubble_rows (bubble_row vec i i (suc n)) (i + 1) n

-- `start` is not used; `count` is `end + 1`.
unfoldable pub bubble_sort : List ℤ → ℕ → ℕ → List ℤ
unfolding bubble_rows
bubble_sort vec start count = bubble_rows vec 0 count

abbrev IsLeast : List ℤ → ℕ → ℕ → Type 0
IsLeast vec i j = (b : ℕ) → i ≤ b → b < j → at vec i ≤ℤ at vec b

record Kept (vec vec' : List ℤ) (i j m : ℕ) : Type 0 where
  rearranged : IsRearranged vec vec'
  settled : IsSettled vec' i m
  least : IsLeast vec' i j

bubble_step-Kept :
    (vec : List ℤ) (i j m : ℕ)
    → i ≤ j
    → j < m
    → m ≤ length vec
    → IsSettled vec i m
    → IsLeast vec i j
    → Kept vec (bubble_step vec i j) i (j + 1) m
bubble_step-Kept vec i j m hi hj hm s l = elim (Bool-cases (ltb_ℤ (at vec j) (at vec i))) [
  | inl less ↦
      let in_i : i < length vec = omega arith in
      let in_j : j < length vec = omega arith in
      rw (less) (record {
        rearranged = swapped vec i j in_i in_j;
        settled = λ a b ha hab hb.
            let at_a = at-swap vec i j a in_i in_j in
            let at_b = at-swap vec i j b in_i in_j in
            let to_i = s a i ha ha (omega arith) in
            let to_j = s a j ha (omega arith) hj in
            let to_b = s a b ha hab hb in ground (arith, at_a, at_b, to_i, to_j, to_b);
        least = λ b hb hbj.
            let at_i = at-swap vec i j i in_i in_j in
            let at_b = at-swap vec i j b in_i in_j in ground (arith, at_i, at_b, l b);
      })
  | inr more ↦ rw (more) (record {
    rearranged = unchanged vec;
    settled = s;
    least = λ b hb hbj. ground (arith, l b hb);
  })
]

bubble_row-Kept :
    (vec : List ℤ) (i j m n : ℕ)
    → i ≤ j
    → j + n ≡ m
    → m ≤ length vec
    → IsSettled vec i m
    → IsLeast vec i j
    → Kept vec (bubble_row vec i j n) i m m
unfolding bubble_row
bubble_row-Kept vec i j m zero hi e hm s l = record {
  rearranged = unchanged vec;
  settled = s;
  least = λ b hb hbm. l b hb (omega arith);
}
bubble_row-Kept vec i j m (suc n) hi e hm s l =
    let k = bubble_step-Kept vec i j m hi (omega arith) hm s l in
    let size = k.rearranged.size in
    let r =
      bubble_row-Kept (bubble_step vec i j) i (j + 1) m n (omega arith) (omega arith)
        (omega (arith, size)) k.settled k.least in
    record {
      rearranged = IsRearranged-trans k.rearranged r.rearranged;
      settled = r.settled;
      least = r.least;
    }

bubble_rows-IsSorted :
    (vec : List ℤ) (i m n : ℕ)
    → i + n ≡ m
    → m ≤ length vec
    → IsSettled vec i m
    → IsSorted vec (bubble_rows vec i n) m
unfolding bubble_rows
bubble_rows-IsSorted vec i m zero e hm s = record {
  rearranged = unchanged vec;
  in_order = λ a b hab hb. s a b (omega arith) hab hb;
}
bubble_rows-IsSorted vec i m (suc n) e hm s =
    let row = bubble_row vec i i (suc n) in
    let k =
      bubble_row-Kept vec i i m (suc n) (omega arith) e hm s (λ b hb hbi. absurd (omega arith)) in
    let size = k.rearranged.size in
    let r =
      bubble_rows-IsSorted row (i + 1) m n (omega arith) (omega (arith, size))
        (settle_next row i m k.settled k.least) in
    record { rearranged = IsRearranged-trans k.rearranged r.rearranged; in_order = r.in_order }

-- BubbleSort puts the elements up to `end` in order by rearranging the array, whatever `start` is.
pub bubble_sort-IsSorted :
    (vec : List ℤ) (start count : ℕ)
    → count ≤ length vec
    → IsSorted vec (bubble_sort vec start count) count
unfolding bubble_sort
bubble_sort-IsSorted vec start count h =
    bubble_rows-IsSorted vec 0 count count (omega arith) h (λ a b ha. absurd (omega arith))
