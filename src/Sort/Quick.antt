-- ===== src/Sort/Quick.antt =====
-- QuickSort of sort_algo/quick_sort.cc. A range ends before `hi`, which is `end + 1`. A loop is on
-- fuel where nothing gets smaller by one, and none stands for fuel that has run out.
pub mod Partition
pub mod Sorting
use algo.Prelude.{
  ℕ, ◌>>=◌, zero, suc, ◌+◌, ◌-◌, Option, none, some, List, ◌&&◌, if◌then◌else◌, ltb, set,
}
use algo.Prelude.Int.{ℤ, leb_ℤ}
use algo.Sort.{at}

-- `while (start < end && tmp <= vec[end]) --end;`, which gives `end`.
unfoldable pub quick_down : List ℤ → ℤ → ℕ → ℕ → ℕ
quick_down vec tmp start zero = zero
quick_down vec tmp start (suc e) =
    let lower = quick_down vec tmp start e in
    if ltb start (suc e) && leb_ℤ tmp (at vec (suc e)) then lower else suc e

-- `while (start < end && tmp >= vec[start]) ++start;`, which gives `start`; its last argument is
-- `end - start`.
unfoldable pub quick_up : List ℤ → ℤ → ℕ → ℕ → ℕ
quick_up vec tmp start zero = start
quick_up vec tmp start (suc n) =
    let higher = quick_up vec tmp (start + 1) n in
    if leb_ℤ (at vec start) tmp then higher else start

-- The outer loop, and the write behind it.
unfoldable pub partition_loop : ℕ → List ℤ → ℤ → ℕ → ℕ → Option (List ℤ × ℕ)
unfolding quick_down quick_up
partition_loop zero vec tmp start end = none
partition_loop (suc fuel) vec tmp start end =
    let end' = quick_down vec tmp start end in
    let vec1 = set vec start (at vec end') in
    let start' = quick_up vec1 tmp start (end' - start) in
    let vec2 = set vec1 end' (at vec1 start') in
    let again = partition_loop fuel vec2 tmp start' end' in
    if ltb start end then again else some (set vec start tmp, start)

-- ParititionSort.
unfoldable pub partition : List ℤ → ℕ → ℕ → Option (List ℤ × ℕ)
unfolding partition_loop
partition vec start end = partition_loop (end + 1) vec (at vec start) start end

unfoldable pub quick_sort : ℕ → List ℤ → ℕ → ℕ → Option (List ℤ)
unfolding partition
quick_sort zero vec start hi = none
quick_sort (suc fuel) vec start hi =
    let parts = partition vec start (hi - 1) >>= λ r.
    quick_sort fuel r.0 start r.1 >>= λ v. quick_sort fuel v (r.1 + 1) hi in
    if ltb (start + 1) hi then parts else some vec
