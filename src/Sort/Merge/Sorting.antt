-- ===== src/Sort/Merge/Sorting.antt =====
-- That MergeSort of sort_algo/merge_sort.cc sorts.
use algo.Prelude.{
  ℕ, zero, suc, ◌+◌, ◌-◌, ◌/◌, ◌≤◌, ◌<◌, ◌≡◌, refl, sym, subst, inl, inr, arith, tests, some, List,
  ltb, length, Bool-cases,
}
use algo.Prelude.Int.{ℤ}
use algo.Sort.{at, IsRearranged}
use algo.Sort.Ranges.{Permutes, Permutes-refl, Permutes-trans, Permutes-wider, SortsRange}
use algo.Sort.Merge.{merge_arr, merge, merge_sort}
use algo.Sort.Merge.Buffer.{
  All-at, IsRun, IsAscending-at, length-merge_arr, merge_arr-All, merge_arr-IsAscending,
  occurrences-merge_arr, occurrences-rest, occurrences-copy_back, at-copy_back,
  at-copy_back_outside, length-copy_back,
}

module _ (vec : List ℤ) (start middle hi : ℕ) (h : start ≤ middle) (h' : middle ≤ hi)
    (hc : hi ≤ length vec) where
  abbrev buffer : List ℤ
  buffer = merge_arr vec start (middle - start) middle (hi - middle)

  length-buffer : length buffer ≡ hi - start
  length-buffer = omega (arith, length-merge_arr vec start (middle - start) middle (hi - middle))

  at-merge : (k : ℕ) → start ≤ k → k < hi → at (merge vec start middle hi) k ≡ at buffer (k - start)
  unfolding merge
  at-merge k l m =
      at-copy_back vec start k (k - start) buffer (omega (arith, length-buffer)) (omega arith)
        (omega (arith, length-buffer))

  merge-IsRearranged : IsRearranged vec (merge vec start middle hi)
  unfolding merge
  merge-IsRearranged = record {
    size = length-copy_back vec start buffer;
    same_elements = λ x.
        let written = occurrences-copy_back x vec start buffer (omega (arith, length-buffer)) in
        let read = occurrences-merge_arr x vec start (middle - start) middle (hi - middle) in
        let parts =
          occurrences-rest x vec start (middle - start) middle (hi - middle) (length buffer)
            (omega arith) (omega (arith, length-buffer)) in
        omega (arith, written, read, parts);
  }

  merge-Permutes : Permutes start hi vec (merge vec start middle hi)
  unfolding merge
  merge-Permutes = record {
    rearranged = merge-IsRearranged;
    before = λ k l. at-copy_back_outside vec start k buffer (omega (arith, length-buffer)) (inl l);
    after = λ k l.
        at-copy_back_outside vec start k buffer (omega (arith, length-buffer))
          (inr (omega (arith, length-buffer)));
    within = λ P all k l m.
        let everywhere =
          merge_arr-All P vec start (middle - start) middle (hi - middle)
            (λ j a b. all j a (omega arith)) (λ j a b. all j (omega arith) (omega arith)) in
        subst P (sym (at-merge k l m))
          (All-at P buffer (k - start) everywhere (omega (arith, length-buffer)));
  }

  -- Merge puts two halves in order together into one range in order.
  merge-SortsRange :
      IsRun vec start (middle - start)
      → IsRun vec middle (hi - middle)
      → SortsRange start hi vec (merge vec start middle hi)
  merge-SortsRange r r' = record {
    permutes = merge-Permutes;
    in_order = λ a b ha hab hb.
        let ascends = merge_arr-IsAscending vec start (middle - start) middle (hi - middle) r r' in
        rw (at-merge a ha (omega arith), at-merge b (omega arith) hb)
          (IsAscending-at buffer (a - start) (b - start) ascends (omega arith)
            (omega (arith, length-buffer)));
  }

-- MergeSort of a range inside the array, with fuel for its length, comes back with the range in
-- order and rearranged, and nothing else changed.
pub merge_sort-SortsRange :
    (fuel : ℕ) (vec : List ℤ) (start hi : ℕ)
    → hi - start < fuel
    → hi ≤ length vec
    → (vec' : List ℤ) × (merge_sort fuel vec start hi ≡ some vec') × SortsRange start hi vec vec'
unfolding merge_sort
merge_sort-SortsRange zero vec start hi f hc = absurd (omega arith)
merge_sort-SortsRange (suc fuel) vec start hi f hc = elim (Bool-cases (ltb (start + 1) hi)) [
  | inr short ↦ (
    vec,
    rw (short) refl,
    record { permutes = Permutes-refl vec; in_order = λ a b ha hab hb. absurd (ground arith) },
  )
  | inl long ↦
      let middle = (start + (hi - 1)) / 2 + 1 in
      let more : start + 1 < hi = omega tests in
      let low : start < middle = omega arith in
      let high : middle < hi = omega arith in
      let (v, run, l) = merge_sort-SortsRange fuel vec start middle (omega arith) (omega arith) in
      let size = l.permutes.rearranged.size in
      let (w, run', r) =
        merge_sort-SortsRange fuel v middle hi (omega arith) (omega (arith, size)) in
      let size' = r.permutes.rearranged.size in
      let m =
        merge-SortsRange w start middle hi (omega arith) (omega arith) (omega (arith, size, size'))
          (λ a b ha hab hb.
            ground (arith, l.in_order a b, r.permutes.before a, r.permutes.before b))
          (λ a b ha hab hb. r.in_order a b ha hab (omega arith)) in
      (
        merge w start middle hi,
        rw (long, run, run') refl,
        record {
          permutes =
              Permutes-trans (Permutes-wider (omega arith) (omega arith) l.permutes)
                (Permutes-trans (Permutes-wider (omega arith) (omega arith) r.permutes) m.permutes);
          in_order = m.in_order;
        },
      )
]
