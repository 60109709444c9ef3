-- ===== src/Sort/Merge/Buffer.antt =====
-- The buffer of Merge in sort_algo/merge_sort.cc: its elements, their order, and what writing it
-- back does to the array.
use algo.Prelude.{
  ℕ, zero, suc, ◌+◌, ◌≤◌, ◌<◌, ◌≡◌, ◌⊎◌, refl, ap, ◌∙◌, inl, inr, arith, List, [], ◌∷◌, ◌==◌,
  length, set, length-set, Bool-cases,
}
use algo.Prelude.Int.{ℤ, ◌≤ℤ◌, ltb_ℤ}
use algo.Sort.{at, at-set, occurrences, occurrences-set}
use algo.Sort.Merge.{rest, merge_arr, copy_back}

abbrev pub All : (ℤ → Type 0) → List ℤ → Type 0
All P [] = Unit {0}
All P (x ∷ xs) = P x × All P xs

pub All-at : (P : ℤ → Type 0) (xs : List ℤ) (k : ℕ) → All P xs → k < length xs → P (at xs k)
All-at P [] k h l = absurd (omega arith)
All-at P (x ∷ xs) zero h l = h.0
All-at P (x ∷ xs) (suc k) h l = All-at P xs k h.1 (omega arith)

abbrev pub IsAscending : List ℤ → Type 0
IsAscending [] = Unit {0}
IsAscending (x ∷ xs) = All (λ y. x ≤ℤ y) xs × IsAscending xs

pub IsAscending-at :
    (xs : List ℤ) (a b : ℕ) → IsAscending xs → a < b → b < length xs → at xs a ≤ℤ at xs b
IsAscending-at [] a b h l m = absurd (omega arith)
IsAscending-at (x ∷ xs) a zero h l m = absurd (omega arith)
IsAscending-at (x ∷ xs) zero (suc b) h l m = All-at (λ y. x ≤ℤ y) xs b h.0 (omega arith)
IsAscending-at (x ∷ xs) (suc a) (suc b) h l m =
    IsAscending-at xs a b h.1 (omega arith) (omega arith)

-- The `n` elements from `i` on.
abbrev pub AllIn : (ℤ → Type 0) → List ℤ → ℕ → ℕ → Type 0
AllIn P vec i n = (k : ℕ) → i ≤ k → k < i + n → P (at vec k)

abbrev pub IsRun : List ℤ → ℕ → ℕ → Type 0
IsRun vec i n = (a b : ℕ) → i ≤ a → a < b → b < i + n → at vec a ≤ℤ at vec b

length-rest : (vec : List ℤ) (i n : ℕ) → length (rest vec i n) ≡ n
unfolding rest
length-rest vec i zero = refl
length-rest vec i (suc n) = ap suc (length-rest vec (i + 1) n)

rest-All : (P : ℤ → Type 0) (vec : List ℤ) (i n : ℕ) → AllIn P vec i n → All P (rest vec i n)
unfolding rest
rest-All P vec i zero h = tt
rest-All P vec i (suc n) h = (
  h i (omega arith) (omega arith),
  rest-All P vec (i + 1) n (λ k l m. h k (omega arith) (omega arith)),
)

rest-IsAscending : (vec : List ℤ) (i n : ℕ) → IsRun vec i n → IsAscending (rest vec i n)
unfolding rest
rest-IsAscending vec i zero h = tt
rest-IsAscending vec i (suc n) h = (
  rest-All (λ y. at vec i ≤ℤ y) vec (i + 1) n
      (λ k l m. h i k (omega arith) (omega arith) (omega arith)),
  rest-IsAscending vec (i + 1) n (λ a b l m o. h a b (omega arith) m (omega arith)),
)

pub length-merge_arr : (vec : List ℤ) (i n j m : ℕ) → length (merge_arr vec i n j m) ≡ n + m
unfolding merge_arr
length-merge_arr vec i zero j m = omega (arith, length-rest vec j m)
length-merge_arr vec i (suc n) j zero = omega (arith, length-rest vec i (suc n))
length-merge_arr vec i (suc n) j (suc m) =
    ground
      (arith, length-merge_arr vec i (suc n) (j + 1) m, length-merge_arr vec (i + 1) n j (suc m))

pub merge_arr-All :
    (P : ℤ → Type 0) (vec : List ℤ) (i n j m : ℕ)
    → AllIn P vec i n
    → AllIn P vec j m
    → All P (merge_arr vec i n j m)
unfolding merge_arr
merge_arr-All P vec i zero j m h g = rest-All P vec j m g
merge_arr-All P vec i (suc n) j zero h g = rest-All P vec i (suc n) h
merge_arr-All P vec i (suc n) j (suc m) h g = elim (Bool-cases (ltb_ℤ (at vec j) (at vec i))) [
  | inl less ↦ rw (less) (
    g j (omega arith) (omega arith),
    merge_arr-All P vec i (suc n) (j + 1) m h (λ k a b. g k (omega arith) (omega arith)),
  )
  | inr more ↦ rw (more) (
    h i (omega arith) (omega arith),
    merge_arr-All P vec (i + 1) n j (suc m) (λ k a b. h k (omega arith) (omega arith)) g,
  )
]

pub merge_arr-IsAscending :
    (vec : List ℤ) (i n j m : ℕ)
    → IsRun vec i n
    → IsRun vec j m
    → IsAscending (merge_arr vec i n j m)
unfolding merge_arr
merge_arr-IsAscending vec i zero j m h g = rest-IsAscending vec j m g
merge_arr-IsAscending vec i (suc n) j zero h g = rest-IsAscending vec i (suc n) h
merge_arr-IsAscending vec i (suc n) j (suc m) h g =
    elim (Bool-cases (ltb_ℤ (at vec j) (at vec i))) [
      | inl less ↦ rw (less) (
        merge_arr-All (λ y. at vec j ≤ℤ y) vec i (suc n) (j + 1) m
            (λ k a b. elim (Bool-cases (k == i)) [
              | inl is ↦ let k_is : k ≡ i = ground arith in rw (k_is) (ground arith)
              | inr other ↦ ground (arith, h i k)
            ])
            (λ k a b. g j k (omega arith) (omega arith) (omega arith)),
        merge_arr-IsAscending vec i (suc n) (j + 1) m h
            (λ a b l o p. g a b (omega arith) o (omega arith)),
      )
      | inr more ↦ rw (more) (
        merge_arr-All (λ y. at vec i ≤ℤ y) vec (i + 1) n j (suc m)
            (λ k a b. h i k (omega arith) (omega arith) (omega arith))
            (λ k a b. elim (Bool-cases (k == j)) [
              | inl is ↦ let k_is : k ≡ j = ground arith in rw (k_is) (ground arith)
              | inr other ↦ ground (arith, g j k)
            ]),
        merge_arr-IsAscending vec (i + 1) n j (suc m)
            (λ a b l o p. h a b (omega arith) o (omega arith)) g,
      )
    ]

pub occurrences-merge_arr :
    (x : ℤ) (vec : List ℤ) (i n j m : ℕ)
    → occurrences x (merge_arr vec i n j m)
      ≡ occurrences x (rest vec i n) + occurrences x (rest vec j m)
unfolding merge_arr rest
occurrences-merge_arr x vec i zero j m = omega arith
occurrences-merge_arr x vec i (suc n) j zero = omega arith
occurrences-merge_arr x vec i (suc n) j (suc m) = elim (Bool-cases (ltb_ℤ (at vec j) (at vec i))) [
  | inl less ↦ rw (less) (omega (arith, occurrences-merge_arr x vec i (suc n) (j + 1) m))
  | inr more ↦ rw (more) (omega (arith, occurrences-merge_arr x vec (i + 1) n j (suc m)))
]

pub occurrences-rest :
    (x : ℤ) (vec : List ℤ) (i n j m t : ℕ)
    → i + n ≡ j
    → n + m ≡ t
    → occurrences x (rest vec i t) ≡ occurrences x (rest vec i n) + occurrences x (rest vec j m)
unfolding rest
occurrences-rest x vec i zero j m t e f =
    let i_is : i ≡ j = omega arith in
    let t_is : t ≡ m = omega arith in rw (i_is, t_is) (omega arith)
occurrences-rest x vec i (suc n) j m zero e f = absurd (omega arith)
occurrences-rest x vec i (suc n) j m (suc t) e f =
    omega (arith, occurrences-rest x vec (i + 1) n j m t (omega arith) (omega arith))

pub length-copy_back :
    (vec : List ℤ) (n : ℕ) (arr : List ℤ) → length (copy_back vec n arr) ≡ length vec
unfolding copy_back
length-copy_back vec n [] = refl
length-copy_back vec n (x ∷ arr) = length-copy_back (set vec n x) (n + 1) arr ∙ length-set vec n x

pub at-copy_back_outside :
    (vec : List ℤ) (n k : ℕ) (arr : List ℤ)
    → n + length arr ≤ length vec
    → (k < n) ⊎ (n + length arr ≤ k)
    → at (copy_back vec n arr) k ≡ at vec k
unfolding copy_back
at-copy_back_outside vec n k [] h o = refl
at-copy_back_outside vec n k (x ∷ arr) h o =
    let next =
      at-copy_back_outside (set vec n x) (n + 1) k arr (omega (arith, length-set vec n x))
        (omega arith) in
    ground (arith, next, at-set vec n k x (omega arith))

pub at-copy_back :
    (vec : List ℤ) (n k d : ℕ) (arr : List ℤ)
    → n + length arr ≤ length vec
    → n + d ≡ k
    → d < length arr
    → at (copy_back vec n arr) k ≡ at arr d
unfolding copy_back
at-copy_back vec n k d [] h e l = absurd (omega arith)
at-copy_back vec n k zero (x ∷ arr) h e l =
    let next =
      at-copy_back_outside (set vec n x) (n + 1) k arr (omega (arith, length-set vec n x))
        (omega arith) in
    ground (arith, next, at-set vec n k x (omega arith))
at-copy_back vec n k (suc d) (x ∷ arr) h e l =
    at-copy_back (set vec n x) (n + 1) k d arr (omega (arith, length-set vec n x)) (omega arith)
      (omega arith)

rest-set :
    (vec : List ℤ) (p : ℕ) (x : ℤ) (i n : ℕ)
    → p < i
    → p < length vec
    → rest (set vec p x) i n ≡ rest vec i n
unfolding rest
rest-set vec p x i zero h l = refl
rest-set vec p x i (suc n) h l =
    let here : at (set vec p x) i ≡ at vec i = ground (arith, at-set vec p i x l) in
    rw (here, rest-set vec p x (i + 1) n (omega arith) l) refl

pub occurrences-copy_back :
    (x : ℤ) (vec : List ℤ) (n : ℕ) (arr : List ℤ)
    → n + length arr ≤ length vec
    → occurrences x (copy_back vec n arr) + occurrences x (rest vec n (length arr))
      ≡ occurrences x vec + occurrences x arr
unfolding copy_back rest
occurrences-copy_back x vec n [] h = omega arith
occurrences-copy_back x vec n (y ∷ arr) h =
    let size = length-set vec n y in
    let next = occurrences-copy_back x (set vec n y) (n + 1) arr (omega (arith, size)) in
    let write = occurrences-set x vec n y (omega arith) in
    let same =
      ap (occurrences x) (rest-set vec n y (n + 1) (length arr) (omega arith) (omega arith)) in
    omega (arith, next, write, same)
