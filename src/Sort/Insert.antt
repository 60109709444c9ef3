-- ===== src/Sort/Insert.antt =====
-- InsertSort of sort_algo/insert_sort.cc.
use algo.Prelude.{
  ℕ, zero, suc, ◌+◌, ◌≤◌, ◌<◌, ◌≡◌, ◌≢◌, inl, inr, subst, arith, List, if◌then◌else◌, length,
  Bool-cases,
}
use algo.Prelude.Int.{ℤ, ◌≤ℤ◌, leb_ℤ}
use algo.Sort.{at, swap, at-swap, IsRearranged, unchanged, swapped, IsRearranged-trans, IsSorted}

-- The body of the inner loop.
abbrev pub insert_step : List ℤ → ℕ → List ℤ
insert_step vec j = if leb_ℤ (at vec (j + 1)) (at vec j) then swap vec (j + 1) j else vec

-- The inner loop, which runs down to 0: its argument is `j + 1`.
unfoldable pub insert_row : List ℤ → ℕ → List ℤ
insert_row vec zero = vec
insert_row vec (suc j) = insert_row (insert_step vec j) j

-- The outer loop: `n` passes from `i` on end where `i` is `end + 1`.
unfoldable pub insert_rows : List ℤ → ℕ → ℕ → List ℤ
unfolding insert_row
insert_rows vec i zero = vec
insert_rows vec i (suc n) = insert_rows (insert_row vec i) (i + 1) n

-- `start` is not used; `count` is `end + 1`.
unfoldable pub insert_sort : List ℤ → ℕ → ℕ → List ℤ
unfolding insert_rows
insert_sort vec start count = insert_rows vec 0 count

-- The first `k` elements are in order but for the one at `n`, which no later one is below.
record IsSinking (vec : List ℤ) (n k : ℕ) : Type 0 where
  others : (a b : ℕ) → a ≢ n → b ≢ n → a < b → b < k → at vec a ≤ℤ at vec b
  above : (b : ℕ) → n < b → b < k → at vec n ≤ℤ at vec b

abbrev IsOrdered : List ℤ → ℕ → Type 0
IsOrdered vec k = (a b : ℕ) → a < b → b < k → at vec a ≤ℤ at vec b

record Sunk (vec vec' : List ℤ) (n k : ℕ) : Type 0 where
  rearranged : IsRearranged vec vec'
  sinking : IsSinking vec' n k

insert_step-Sunk :
    (vec : List ℤ) (j k : ℕ)
    → j + 1 < k
    → k ≤ length vec
    → IsSinking vec (j + 1) k
    → Sunk vec (insert_step vec j) j k
insert_step-Sunk vec j k hj hk s = elim (Bool-cases (leb_ℤ (at vec (j + 1)) (at vec j))) [
  | inl down ↦
      let in_j : j < length vec = omega arith in
      let in_j' : j + 1 < length vec = omega arith in
      rw (down) (record {
        rearranged = swapped vec (j + 1) j in_j' in_j;
        sinking = record {
          others = λ a b na nb hab hb.
              let at_a = at-swap vec (j + 1) j a in_j' in_j in
              let at_b = at-swap vec (j + 1) j b in_j' in_j in
              ground (arith, at_a, at_b, s.others a b, s.others a j, s.others j b);
          above = λ b hb hbk.
              let at_j = at-swap vec (j + 1) j j in_j' in_j in
              let at_b = at-swap vec (j + 1) j b in_j' in_j in
              ground (arith, at_j, at_b, s.above b);
        };
      })
  | inr stays ↦ rw (stays) (record {
    rearranged = unchanged vec;
    sinking = record {
      others = λ a b na nb hab hb. ground (arith, s.others a b, s.others a j, s.above b);
      above = λ b hb hbk. ground (arith, s.above b, s.others j b (omega arith));
    };
  })
]

insert_row-IsOrdered :
    (vec : List ℤ) (n k : ℕ)
    → n < k
    → k ≤ length vec
    → IsSinking vec n k
    → IsRearranged vec (insert_row vec n) × IsOrdered (insert_row vec n) k
unfolding insert_row
insert_row-IsOrdered vec zero k hn hk s =
    (unchanged vec, λ a b hab hb. ground (arith, s.others a b, s.above b))
insert_row-IsOrdered vec (suc j) k hn hk s =
    let next : suc j ≡ j + 1 = omega arith in
    let u = insert_step-Sunk vec j k (omega arith) hk (subst (λ i. IsSinking vec i k) next s) in
    let size = u.rearranged.size in
    let (r, o) =
      insert_row-IsOrdered (insert_step vec j) j k (omega arith) (omega (arith, size)) u.sinking in
    (IsRearranged-trans u.rearranged r, o)

insert_rows-IsSorted :
    (vec : List ℤ) (i m n : ℕ)
    → i + n ≡ m
    → m ≤ length vec
    → IsOrdered vec i
    → IsSorted vec (insert_rows vec i n) m
unfolding insert_rows
insert_rows-IsSorted vec i m zero e hm o = record {
  rearranged = unchanged vec;
  in_order = λ a b hab hb. o a b hab (omega arith);
}
insert_rows-IsSorted vec i m (suc n) e hm o =
    let (k, o') = insert_row-IsOrdered vec i (i + 1) (omega arith) (omega arith) (record {
      others = λ a b na nb hab hb. o a b hab (omega arith);
      above = λ b hb hbi. absurd (omega arith);
    }) in
    let size = k.size in
    let r =
      insert_rows-IsSorted (insert_row vec i) (i + 1) m n (omega arith) (omega (arith, size)) o' in
    record { rearranged = IsRearranged-trans k r.rearranged; in_order = r.in_order }

-- InsertSort puts the elements up to `end` in order by rearranging the array, whatever `start` is.
pub insert_sort-IsSorted :
    (vec : List ℤ) (start count : ℕ)
    → count ≤ length vec
    → IsSorted vec (insert_sort vec start count) count
unfolding insert_sort
insert_sort-IsSorted vec start count h =
    insert_rows-IsSorted vec 0 count count (omega arith) h (λ a b hab hb. absurd (omega arith))
