-- ===== src/Sort/Heap.antt =====
-- HeapSort of sort_algo/heap_sort.cc, with its Heap, which sinks an element. `count` stands for
-- `end + 1`. A loop is on fuel, and none stands for fuel that has run out.
pub mod Sinking
pub mod Sorting
use algo.Prelude.{
  ℕ, ◌>>=◌, zero, suc, ◌+◌, ◌-◌, ◌*◌, ◌/◌, Option, none, some, List, ◌&&◌, if◌then◌else◌, ltb,
}
use algo.Prelude.Int.{ℤ, ltb_ℤ}
use algo.Sort.{at, swap}

-- The larger of the two sons, if there is a second one.
abbrev pub larger_son : List ℤ → ℕ → ℕ → ℕ
larger_son vec son count =
    if ltb (son + 1) count && ltb_ℤ (at vec son) (at vec (son + 1)) then son + 1 else son

-- The `while`, with `head`; `son` is its left son.
unfoldable pub heap_loop : ℕ → List ℤ → ℕ → ℕ → Option (List ℤ)
heap_loop zero vec head count = none
heap_loop (suc fuel) vec head count =
    let son = larger_son vec (head * 2 + 1) count in
    let sink = heap_loop fuel (swap vec head son) son count in
    if ltb (head * 2 + 1) count
    then (if ltb_ℤ (at vec son) (at vec head) then some vec else sink)
    else some vec

unfoldable pub heap : List ℤ → ℕ → ℕ → Option (List ℤ)
unfolding heap_loop
heap vec start count = heap_loop (count + 1) vec start count

-- The first loop of HeapSort, from `i - 1` down to 0.
unfoldable pub heap_build : ℕ → List ℤ → ℕ → Option (List ℤ)
unfolding heap
heap_build zero vec count = some vec
heap_build (suc i) vec count = heap vec i count >>= λ v. heap_build i v count

-- The second loop, from `i - 1` down to 0.
unfoldable pub heap_drain : ℕ → List ℤ → Option (List ℤ)
unfolding heap
heap_drain zero vec = some vec
heap_drain (suc i) vec = heap (swap vec 0 i) 0 i >>= heap_drain i

-- `len` is `count - start`.
unfoldable pub heap_sort : List ℤ → ℕ → ℕ → Option (List ℤ)
unfolding heap_build heap_drain
heap_sort vec start count =
    heap_build ((count - start) / 2) vec count >>= heap_drain (count - start)
