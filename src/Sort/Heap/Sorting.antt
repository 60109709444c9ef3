-- ===== src/Sort/Heap/Sorting.antt =====
-- That HeapSort of sort_algo/heap_sort.cc sorts.
use algo.Prelude.{
  ℕ, zero, suc, ◌-◌, ◌/◌, ◌≤◌, ◌<◌, ◌≡◌, refl, arith, tests, inl, inr, Bool-cases, some, List,
  if◌then◌else◌, length, ltb, ◌==◌,
}
use algo.Prelude.Int.{ℤ, ◌≤ℤ◌}
use algo.Sort.{at, swap, at-swap, length-swap, unchanged, swapped, IsRearranged-trans, IsSorted}
use algo.Sort.Heap.{heap_build, heap_drain, heap_sort}
use algo.Sort.Heap.Sinking.{parent, IsHeapFrom, IsSinking, Sunk, heap-Sunk}
use algo.Sort.Ranges.{Permutes, Permutes-refl, Permutes-trans}

heap_build-Sunk :
    (i : ℕ) (vec : List ℤ) (count : ℕ)
    → count ≤ length vec
    → IsHeapFrom i vec count
    → (vec' : List ℤ) × (heap_build i vec count ≡ some vec') × Sunk 0 vec vec' count
unfolding heap_build
heap_build-Sunk zero vec count hc h =
    (vec, refl, record { permutes = Permutes-refl vec; heaped = h })
heap_build-Sunk (suc i) vec count hc h =
    let (v, run, s) = heap-Sunk i vec i count hc (omega arith) (record {
      edges = λ c p q r t. h c p q (omega arith);
      bridged = λ c p q r t u. absurd (omega arith);
    }) in
    let size = s.permutes.rearranged.size in
    let (w, run', s') = heap_build-Sunk i v count (omega (arith, size)) s.heaped in
    (
      w,
      rw (run) run',
      record { permutes = Permutes-trans s.permutes s'.permutes; heaped = s'.heaped },
    )

root_below :
    (fuel : ℕ) (vec : List ℤ) (i count : ℕ)
    → IsHeapFrom 0 vec count
    → i < fuel
    → i < count
    → at vec i ≤ℤ at vec 0
root_below zero vec i count h f p = absurd (omega arith)
root_below (suc fuel) vec zero count h f p = omega arith
root_below (suc fuel) vec (suc i) count h f p =
    let up = root_below fuel vec (parent (suc i)) count h (omega arith) (omega arith) in
    let edge = h (suc i) (omega arith) p (omega arith) in omega (arith, up, edge)

-- From `n` on nothing is below what stands before it.
abbrev IsDrained : List ℤ → ℕ → ℕ → Type 0
IsDrained vec n count = (a b : ℕ) → a < b → n ≤ b → b < count → at vec a ≤ℤ at vec b

module _ (vec : List ℤ) (i count : ℕ) (hn : i < count) (hc : count ≤ length vec) where
  drained_swap :
      (k : ℕ)
      → at (swap vec 0 i) k ≡ (if k == i then at vec 0 else (if k == 0 then at vec i else at vec k))
  drained_swap k = at-swap vec 0 i k (omega arith) (omega arith)

  root_sinks : IsHeapFrom 0 vec (suc i) → IsSinking 0 (swap vec 0 i) 0 i
  root_sinks h = record {
    edges = λ c p q r t. ground (arith, drained_swap c, drained_swap (parent c), h c);
    bridged = λ c p q r t u. absurd (omega arith);
  }

  -- With the root put to `i` and the rest sunk, one more place is drained.
  IsDrained-next :
      (v : List ℤ)
      → IsHeapFrom 0 vec (suc i)
      → IsDrained vec (suc i) count
      → Permutes 0 i (swap vec 0 i) v
      → IsDrained v i count
  IsDrained-next v h d s a b hab hib hb =
      let below : (k : ℕ) → k < suc i → at vec k ≤ℤ at vec 0 =
        λ k hk. root_below (suc k) vec k (suc i) h (omega arith) hk in
      let at_b : at v b ≡ (if b == i then at vec 0 else at vec b) =
        ground (arith, s.after b hib, drained_swap b) in
      let limit : (k : ℕ) → k < i → at (swap vec 0 i) k ≤ℤ at v b =
        λ k hk. ground (arith, at_b, drained_swap k, below k, below i, d k b, d i b) in
      elim (Bool-cases (ltb a i)) [
        | inl early ↦ s.within (λ x. x ≤ℤ at v b) (λ k l m. limit k m) a (omega arith) (omega tests)
        | inr late ↦ ground (arith, at_b, s.after a, drained_swap a, d 0 b, d a b)
      ]

heap_drain-IsSorted :
    (n : ℕ) (vec : List ℤ) (count : ℕ)
    → n ≤ count
    → count ≤ length vec
    → IsHeapFrom 0 vec n
    → IsDrained vec n count
    → (vec' : List ℤ) × (heap_drain n vec ≡ some vec') × IsSorted vec vec' count
unfolding heap_drain
heap_drain-IsSorted zero vec count hn hc h d = (
  vec,
  refl,
  record { rearranged = unchanged vec; in_order = λ a b hab hb. d a b hab (omega arith) hb },
)
heap_drain-IsSorted (suc i) vec count hn hc h d =
    let (v, run, s) =
      heap-Sunk 0 (swap vec 0 i) 0 i (omega (arith, length-swap vec 0 i)) (omega arith)
        (root_sinks vec i count (omega arith) hc h) in
    let moved = swapped vec 0 i (omega arith) (omega arith) in
    let size = s.permutes.rearranged.size in
    let (w, run', t) =
      heap_drain-IsSorted i v count (omega arith) (omega (arith, size, length-swap vec 0 i))
        s.heaped (IsDrained-next vec i count (omega arith) hc v h d s.permutes) in
    (
      w,
      rw (run) run',
      record {
        rearranged =
            IsRearranged-trans moved (IsRearranged-trans s.permutes.rearranged t.rearranged);
        in_order = t.in_order;
      },
    )

-- HeapSort from 0 comes back, with the elements up to `end` in order and the array rearranged.
pub heap_sort-IsSorted :
    (vec : List ℤ) (count : ℕ)
    → count ≤ length vec
    → (vec' : List ℤ) × (heap_sort vec 0 count ≡ some vec') × IsSorted vec vec' count
unfolding heap_sort
heap_sort-IsSorted vec count hc =
    let (v, run, s) = heap_build-Sunk (count / 2) vec count hc (λ c p q r. absurd (omega arith)) in
    let size = s.permutes.rearranged.size in
    let (w, run', t) =
      heap_drain-IsSorted count v count (omega arith) (omega (arith, size)) s.heaped
        (λ a b hab hb hbc. absurd (omega arith)) in
    let whole : count - 0 ≡ count = omega arith in
    (
      w,
      rw (whole, run) run',
      record {
        rearranged = IsRearranged-trans s.permutes.rearranged t.rearranged;
        in_order = t.in_order;
      },
    )
