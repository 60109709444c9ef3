-- ===== src/Pairs/Result.antt =====
-- What KSmallestPairs of test/373.cc returns.
use algo.Prelude.{
  ℕ, zero, suc, ◌<◌, ◌≤◌, ◌≡◌, ◌⊎◌, inl, inr, refl, arith, true, false, ◌&&◌, some, List, [], ◌∷◌,
  ◌==◌, if◌then◌else◌, ltb, min, length, Bool-cases,
}
use algo.Prelude.Int.{ℤ, ltb_ℤ, +ℤ_parts}
use algo.Pairs.{PriorityQueue, elem, sum, cmp, Taken, values, fill, k_smallest_pairs}
use algo.Pairs.Front.{is_at, has, at, AreGood, not_less_trans}
use algo.Pairs.Smallest.{Finds, search-Finds, held-start, start-IsFront}

abbrev pub IsAscending : List ℤ → Type 0
IsAscending xs = (j j' : ℕ) → j ≤ j' → j' < length xs → ltb_ℤ (elem xs j') (elem xs j) ≡ false

at_mono :
    (nums1 nums2 : List ℤ) (i i' j j' : ℕ)
    → ltb_ℤ (elem nums1 i') (elem nums1 i) ≡ false
    → ltb_ℤ (elem nums2 j') (elem nums2 j) ≡ false
    → ltb_ℤ (at nums1 nums2 i' j') (at nums1 nums2 i j) ≡ false
unfolding sum
at_mono nums1 nums2 i i' j j' h k =
    ground (arith, +ℤ_parts (elem nums1 i') (elem nums2 j'), +ℤ_parts (elem nums1 i) (elem nums2 j))

abbrev without : ℕ → ℕ → List Taken → List Taken
without i j [] = []
without i j (t ∷ ts) = let rest = without i j ts in if is_at i j t then ts else t ∷ rest

length-without :
    (i j : ℕ) (ts : List Taken) → has i j ts ≡ true → length ts ≡ suc (length (without i j ts))
length-without i j [] h = absurd (ground arith)
length-without i j (t ∷ ts) h = ground (arith, length-without i j ts)

has-without :
    (i j i' j' : ℕ) (ts : List Taken)
    → ((i == i') && (j == j')) ≡ false
    → has i' j' ts ≡ true
    → has i' j' (without i j ts) ≡ true
has-without i j i' j' [] ne h = absurd (ground arith)
has-without i j i' j' (t ∷ ts) ne h = ground (arith, has-without i j i' j' ts)

-- The first column of so many rows takes its room, and another pair needs room beside it.
column_fits :
    (k : ℕ) (ts : List Taken)
    → ((r : ℕ) → r < k → has r 0 ts ≡ true)
    → (k ≤ length ts) × ((i j : ℕ) → 0 < j → has i j ts ≡ true → suc k ≤ length ts)
column_fits zero ts all = (omega arith, other ts)
  where
    other : (ts : List Taken) (i j : ℕ) → 0 < j → has i j ts ≡ true → 1 ≤ length ts
    other [] i j some_j h = absurd (ground arith)
    other (t ∷ ts) i j some_j h = omega arith
column_fits (suc k) ts all =
    let less = length-without k 0 ts (all k (omega arith)) in
    let (fits, more) =
      column_fits k (without k 0 ts)
        (λ r h. has-without k 0 r 0 ts (ground arith) (all r (omega (arith, h)))) in
    (
      omega (arith, less, fits),
      λ i j some_j h.
          omega (arith, less, more i j some_j (has-without k 0 i j ts (ground arith) h)),
    )

-- Either all of a column are found or one is not.
all_or_one :
    (k : ℕ) (ts : List Taken)
    → ((r : ℕ) → r < k → has r 0 ts ≡ true) ⊎ ((r : ℕ) × (r < k) × (has r 0 ts ≡ false))
all_or_one zero ts = inl (λ r h. absurd (omega (arith, h)))
all_or_one (suc k) ts = elim (all_or_one k ts) [
  | inr (r, lt, missing) ↦ inr (r, omega (arith, lt), missing)
  | inl all ↦ elim (Bool-cases (has k 0 ts)) [
    | inl there ↦ inl (λ r h. elim (Bool-cases (r == k)) [
      | inl here ↦ ground arith
      | inr before ↦ all r (ground arith)
    ])
    | inr missing ↦ inr (k, omega arith, missing)
  ]
]

not_less_self : (a : ℤ) → ltb_ℤ a a ≡ false
not_less_self a = ground arith

module _ (nums1 nums2 : List ℤ) (P : PriorityQueue (cmp nums1 nums2)) (k : ℕ)
    (up1 : IsAscending nums1) (up2 : IsAscending nums2) (some_col : 0 < length nums2) where
  in_row :
      (i j j' : ℕ)
      → j ≤ j'
      → j' < length nums2
      → ltb_ℤ (at nums1 nums2 i j') (at nums1 nums2 i j) ≡ false
  in_row i j j' le lt = at_mono nums1 nums2 i i j j' (not_less_self (elem nums1 i)) (up2 j j' le lt)

  abbrev rows : ℕ
  rows = min k (length nums1)

  abbrev start : P.Queue
  start = fill nums1 nums2 P 0 rows P.new

  abbrev IsBelow : List Taken → ℕ → ℕ → Type 0
  IsBelow ts i j =
      (i' j' : ℕ) → has i' j' ts ≡ true → ltb_ℤ (at nums1 nums2 i j) (at nums1 nums2 i' j') ≡ false

  module _ (ts : List Taken) (short : length ts ≤ k)
      (r : Finds nums1 nums2 P in_row start k ts) where
    -- A row that the first loop has not put into the queue is behind the `k` rows that it has.
    behind_rows :
        (i j : ℕ) → k ≤ i → i < length nums1 → j < length nums2 → (length ts ≡ k) × IsBelow ts i j
    behind_rows i j low lt_i lt_j = elim (all_or_one k ts) [
      | inr (r0, lt, missing) ↦
          elim (r.complete r0 0 0 (ground (arith, held-start nums1 nums2 P in_row rows r0 0))
            (omega arith) some_col) [
              | inl there ↦ absurd (ground arith)
              | inr (all, below) ↦ (
                all,
                λ i' j' h'.
                    not_less_trans (at nums1 nums2 i' j') (at nums1 nums2 r0 0) (at nums1 nums2 i j)
                      (below i' j' h')
                      (at_mono nums1 nums2 r0 i 0 j (up1 r0 i (omega (arith, lt, low)) lt_i)
                        (up2 0 j (omega arith) lt_j)),
              )
            ]
      | inl all ↦
          let (fits, more) = column_fits k ts all in
          (
            omega (arith, fits, short),
            λ i' j' h'. elim (Bool-cases (ltb 0 j')) [
              | inl later ↦ absurd (ground (arith, more i' j'))
              | inr first ↦
                  let (j0, there, le, lt) = r.above i' j' h' in
                  at_mono nums1 nums2 i' i j' j
                    (up1 i' i (ground (arith, held-start nums1 nums2 P in_row rows i' j0)) lt_i)
                    (up2 j' j (ground arith) lt_j)
            ],
          )
    ]

    any_place :
        (i j : ℕ)
        → i < length nums1
        → j < length nums2
        → (has i j ts ≡ true) ⊎ ((length ts ≡ k) × IsBelow ts i j)
    any_place i j lt_i lt_j = elim (Bool-cases (ltb i rows)) [
      | inl low ↦
          r.complete i 0 j (ground (arith, held-start nums1 nums2 P in_row rows i 0)) (omega arith)
            lt_j
      | inr high ↦ inr (behind_rows i j (ground arith) lt_i lt_j)
    ]

-- For ascending vectors, the second of them not empty, KSmallestPairs returns at most `k` pairs of an
-- element of each vector, no two of them from the same places, with ascending sums; and any pair of
-- places that it does not return is one whose sum is not below any that is returned, and then `k`
-- pairs are returned. So they are the `k` smallest ones, or all.
pub k_smallest_pairs_lem :
    (nums1 nums2 : List ℤ) (P : PriorityQueue (cmp nums1 nums2)) (k : ℕ)
    → IsAscending nums1
    → IsAscending nums2
    → 0 < length nums2
    → (ts : List Taken) × (k_smallest_pairs nums1 nums2 P k ≡ some (values ts))
      × AreGood nums1 nums2 ts
      × (length ts ≤ k)
      × ((i j : ℕ)
          → i < length nums1
          → j < length nums2
          → (has i j ts ≡ true)
            ⊎ ((length ts ≡ k)
                × ((i' j' : ℕ)
                    → has i' j' ts ≡ true
                    → ltb_ℤ (at nums1 nums2 i j) (at nums1 nums2 i' j') ≡ false)))
unfolding k_smallest_pairs
k_smallest_pairs_lem nums1 nums2 P k up1 up2 some_col =
    let from =
      start-IsFront nums1 nums2 P (in_row nums1 nums2 P k up1 up2 some_col) (min k (length nums1))
        (omega arith) some_col in
    let (ts, run, short, r) =
      search-Finds nums1 nums2 P (in_row nums1 nums2 P k up1 up2 some_col) k
        (fill nums1 nums2 P 0 (min k (length nums1)) P.new) from in
    (ts, rw run refl, r.good, short, any_place nums1 nums2 P k up1 up2 some_col ts short r)
