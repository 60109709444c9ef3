-- ===== src/Sort/Quick/Sorting.antt =====
-- That QuickSort of sort_algo/quick_sort.cc sorts.
use algo.Prelude.{
  ℕ, zero, suc, ◌+◌, ◌-◌, ◌≤◌, ◌<◌, ◌≡◌, refl, inl, inr, arith, tests, some, List, ltb, length,
  Bool-cases,
}
use algo.Prelude.Int.{ℤ, ◌≤ℤ◌}
use algo.Sort.{at}
use algo.Sort.Ranges.{Permutes, Permutes-refl, Permutes-trans, Permutes-wider, SortsRange}
use algo.Sort.Quick.{quick_sort}
use algo.Sort.Quick.Partition.{IsSplit, partition-IsSplit}

-- Both sides of a split range sorted.
sides-SortsRange :
    (lo hi idx : ℕ) (vec mid left right : List ℤ)
    → Permutes lo hi vec mid
    → IsSplit lo hi mid idx
    → SortsRange lo idx mid left
    → SortsRange (idx + 1) hi left right
    → SortsRange lo hi vec right
sides-SortsRange lo hi idx vec mid left right p s l r = record {
  permutes = Permutes-trans p (
      Permutes-trans (Permutes-wider (omega arith) (omega (arith, s.high)) l.permutes)
        (Permutes-wider (omega (arith, s.low)) (omega arith) r.permutes));
  in_order = λ a b ha hab hb.
      let pivot_l : at left idx ≡ at mid idx = l.permutes.after idx (omega arith) in
      let pivot_r : at right idx ≡ at left idx = r.permutes.before idx (omega arith) in
      let lesser : (k : ℕ) → lo ≤ k → k < idx → at left k ≤ℤ at mid idx =
        l.permutes.within (λ x. x ≤ℤ at mid idx) s.lesser in
      let greater : (k : ℕ) → idx + 1 ≤ k → k < hi → at mid idx ≤ℤ at right k =
        r.permutes.within (λ x. at mid idx ≤ℤ x)
          (λ k c d. ground (arith, l.permutes.after k, s.greater k)) in
      ground (
        arith,
        l.in_order a b,
        r.in_order a b,
        r.permutes.before a,
        r.permutes.before b,
        lesser a,
        lesser b,
        greater a,
        greater b,
        pivot_l,
        pivot_r,
      );
}

-- QuickSort of a range inside the array, with fuel for its length, comes back with the range in
-- order and rearranged, and nothing else changed.
pub quick_sort-SortsRange :
    (fuel : ℕ) (vec : List ℤ) (start hi : ℕ)
    → hi - start < fuel
    → hi ≤ length vec
    → (vec' : List ℤ) × (quick_sort fuel vec start hi ≡ some vec') × SortsRange start hi vec vec'
unfolding quick_sort
quick_sort-SortsRange zero vec start hi f hc = absurd (omega arith)
quick_sort-SortsRange (suc fuel) vec start hi f hc = elim (Bool-cases (ltb (start + 1) hi)) [
  | inr short ↦ (
    vec,
    rw (short) refl,
    record { permutes = Permutes-refl vec; in_order = λ a b ha hab hb. absurd (ground arith) },
  )
  | inl long ↦
      let (mid, idx, run, p, s) = partition-IsSplit vec start hi (omega tests) hc in
      let size1 = p.rearranged.size in
      let (left, run1, l) =
        quick_sort-SortsRange fuel mid start idx (omega (arith, s.high, s.low))
          (omega (arith, size1, s.high)) in
      let size2 = l.permutes.rearranged.size in
      let (right, run2, r) =
        quick_sort-SortsRange fuel left (idx + 1) hi (omega (arith, s.low))
          (omega (arith, size1, size2)) in
      (right, rw (long, run, run1) run2, sides-SortsRange start hi idx vec mid left right p s l r)
]
