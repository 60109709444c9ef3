-- ===== src/Sort/Choose.antt =====
-- ChooseSort of sort_algo/choose_sort.cc.
use algo.Prelude.{
  ℕ, zero, suc, ◌+◌, ◌≤◌, ◌<◌, ◌≡◌, inl, inr, arith, List, if◌then◌else◌, length, Bool-cases,
}
use algo.Prelude.Int.{ℤ, ◌≤ℤ◌, ltb_ℤ}
use algo.Sort.{
  at, swap, at-swap, IsSettled, unchanged, swapped, IsRearranged-trans, IsSorted, settle_next,
}

-- The inner loop, with `tmp`, `j` and the number of its passes.
unfoldable pub choose_least : List ℤ → ℕ → ℕ → ℕ → ℕ
choose_least vec tmp j zero = tmp
choose_least vec tmp j (suc n) =
    choose_least vec (if ltb_ℤ (at vec j) (at vec tmp) then j else tmp) (j + 1) n

-- The outer loop: `n` passes from `i` on end where `i` is `end + 1`.
unfoldable pub choose_rows : List ℤ → ℕ → ℕ → List ℤ
unfolding choose_least
choose_rows vec i zero = vec
choose_rows vec i (suc n) = choose_rows (swap vec i (choose_least vec i i (suc n))) (i + 1) n

-- `start` is not used; `count` is `end + 1`.
unfoldable pub choose_sort : List ℤ → ℕ → ℕ → List ℤ
unfolding choose_rows
choose_sort vec start count = choose_rows vec 0 count

-- A place from `i` on and below `m` that has the least element of those below `j`.
record IsChosen (vec : List ℤ) (i j m t : ℕ) : Type 0 where
  from : i ≤ t
  below : t < m
  least : (b : ℕ) → i ≤ b → b < j → at vec t ≤ℤ at vec b

choose_least-IsChosen :
    (vec : List ℤ) (i tmp j m n : ℕ)
    → j + n ≡ m
    → IsChosen vec i j m tmp
    → i ≤ j
    → IsChosen vec i m m (choose_least vec tmp j n)
unfolding choose_least
choose_least-IsChosen vec i tmp j m zero e c hi = record {
  from = c.from;
  below = c.below;
  least = λ b hb hbm. c.least b hb (omega arith);
}
choose_least-IsChosen vec i tmp j m (suc n) e c hi =
    elim (Bool-cases (ltb_ℤ (at vec j) (at vec tmp))) [
      | inl less ↦ rw (less) (
          choose_least-IsChosen vec i j (j + 1) m n (omega arith)
            (record {
              from = hi;
              below = omega arith;
              least = λ b hb hbj. ground (arith, c.least b hb);
            })
            (omega arith))
      | inr more ↦ rw (more) (
          choose_least-IsChosen vec i tmp (j + 1) m n (omega arith)
            (record {
              from = c.from;
              below = c.below;
              least = λ b hb hbj. ground (arith, c.least b hb);
            })
            (omega arith))
    ]

choose_rows-IsSorted :
    (vec : List ℤ) (i m n : ℕ)
    → i + n ≡ m
    → m ≤ length vec
    → IsSettled vec i m
    → IsSorted vec (choose_rows vec i n) m
unfolding choose_rows
choose_rows-IsSorted vec i m zero e hm s = record {
  rearranged = unchanged vec;
  in_order = λ a b hab hb. s a b (omega arith) hab hb;
}
choose_rows-IsSorted vec i m (suc n) e hm s =
    let t = choose_least vec i i (suc n) in
    let c =
      choose_least-IsChosen vec i i i m (suc n) e
        (record {
          from = omega arith;
          below = omega arith;
          least = λ b hb hbi. absurd (omega arith);
        })
        (omega arith) in
    let in_i : i < length vec = omega arith in
    let in_t : t < length vec = omega (arith, c.below) in
    let k = swapped vec i t in_i in_t in
    let size = k.size in
    let settled : IsSettled (swap vec i t) i m = λ a b ha hab hb.
      (let at_a = at-swap vec i t a in_i in_t in
        let at_b = at-swap vec i t b in_i in_t in
        let to_i = s a i ha ha (omega arith) in
        let to_t = s a t ha (omega (arith, c.from)) c.below in
        let to_b = s a b ha hab hb in
        ground (arith, c.from, c.below, at_a, at_b, to_i, to_t, to_b)) in
    let least : (b : ℕ) → i ≤ b → b < m → at (swap vec i t) i ≤ℤ at (swap vec i t) b = λ b hb hbm.
      (let at_i = at-swap vec i t i in_i in_t in
        let at_b = at-swap vec i t b in_i in_t in
        ground (arith, at_i, at_b, c.least b hb hbm, c.least i (omega arith) (omega arith))) in
    let r =
      choose_rows-IsSorted (swap vec i t) (i + 1) m n (omega arith) (omega (arith, size))
        (settle_next (swap vec i t) i m settled least) in
    record { rearranged = IsRearranged-trans k r.rearranged; in_order = r.in_order }

-- ChooseSort puts the elements up to `end` in order by rearranging the array, whatever `start` is.
pub choose_sort-IsSorted :
    (vec : List ℤ) (start count : ℕ)
    → count ≤ length vec
    → IsSorted vec (choose_sort vec start count) count
unfolding choose_sort
choose_sort-IsSorted vec start count h =
    choose_rows-IsSorted vec 0 count count (omega arith) h (λ a b ha. absurd (omega arith))
