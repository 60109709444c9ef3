-- ===== src/Sort/Merge.antt =====
-- Merge and MergeSort of sort_algo/merge_sort.cc. A range ends before `hi`, which is `end + 1`,
-- and its second half begins at `middle`, which is `mid + 1`.
pub mod Buffer
pub mod Sorting
use algo.Prelude.{
  ℕ, ◌>>=◌, zero, suc, ◌+◌, ◌-◌, ◌/◌, Option, none, some, List, [], ◌∷◌, ◌++◌, if◌then◌else◌, ltb,
  set,
}
use algo.Prelude.Int.{ℤ, ltb_ℤ}
use algo.Sort.{at}

-- What one of the two `while`s behind the first puts into `arr`: the `n` elements from `i` on.
unfoldable pub rest : List ℤ → ℕ → ℕ → List ℤ
rest vec i zero = []
rest vec i (suc n) = at vec i ∷ rest vec (i + 1) n

-- What the loops put into `arr`, with the elements that are left from `i` and from `j`.
unfoldable pub merge_arr : List ℤ → ℕ → ℕ → ℕ → ℕ → List ℤ
unfolding rest
merge_arr vec i zero j m = rest vec j m
merge_arr vec i (suc n) j zero = rest vec i (suc n)
merge_arr vec i (suc n) j (suc m) =
    let right = merge_arr vec i (suc n) (j + 1) m in
    let left = merge_arr vec (i + 1) n j (suc m) in
    if ltb_ℤ (at vec j) (at vec i) then at vec j ∷ right else at vec i ∷ left

-- The `for` that writes `arr` back, from `n` on.
unfoldable pub copy_back : List ℤ → ℕ → List ℤ → List ℤ
copy_back vec n [] = vec
copy_back vec n (x ∷ arr) = copy_back (set vec n x) (n + 1) arr

unfoldable pub merge : List ℤ → ℕ → ℕ → ℕ → List ℤ
unfolding merge_arr copy_back
merge vec start middle hi =
    copy_back vec start (merge_arr vec start (middle - start) middle (hi - middle))

-- On fuel, which none stands for when it has run out.
unfoldable pub merge_sort : ℕ → List ℤ → ℕ → ℕ → Option (List ℤ)
unfolding merge
merge_sort zero vec start hi = none
merge_sort (suc fuel) vec start hi =
    let middle = (start + (hi - 1)) / 2 + 1 in
    let halves = merge_sort fuel vec start middle >>= λ v.
    merge_sort fuel v middle hi >>= λ w. some (merge w start middle hi) in
    if ltb (start + 1) hi then halves else some vec
