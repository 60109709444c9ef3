-- ===== src/Sort/Ranges.antt =====
-- Sorting a range of an array, as the recursive sorts of sort_algo do. A range is given by its
-- first index and the one past its last.
use algo.Prelude.{
  ℕ, suc, ◌≤◌, ◌<◌, ◌≡◌, refl, sym, ap, ◌∙◌, subst, arith, List, [], ◌∷◌, ◌==◌, length, inl, inr,
  Bool-cases, ltb, tests,
}
use algo.Prelude.Int.{ℤ, ◌≤ℤ◌}
use algo.Sort.{at, swap, at-swap, IsRearranged, unchanged, swapped, IsRearranged-trans}

-- `vec'` is `vec` with the elements from `lo` below `hi` rearranged among themselves: what holds
-- of each of these holds of each of them after.
pub record Permutes (lo hi : ℕ) (vec vec' : List ℤ) : Type 1 where
  pub rearranged : IsRearranged vec vec'
  pub before : (k : ℕ) → k < lo → at vec' k ≡ at vec k
  pub after : (k : ℕ) → hi ≤ k → at vec' k ≡ at vec k
  pub within :
      (P : ℤ → Type 0)
      → ((k : ℕ) → lo ≤ k → k < hi → P (at vec k))
      → (k : ℕ) → lo ≤ k
      → k < hi
      → P (at vec' k)

module _ {lo hi : ℕ} where
  pub Permutes-refl : (vec : List ℤ) → Permutes lo hi vec vec
  Permutes-refl vec = record {
    rearranged = unchanged vec;
    before = λ k h. refl;
    after = λ k h. refl;
    within = λ P h. h;
  }

  pub Permutes-trans :
      {vec vec' vec'' : List ℤ}
      → Permutes lo hi vec vec'
      → Permutes lo hi vec' vec''
      → Permutes lo hi vec vec''
  Permutes-trans s t = record {
    rearranged = IsRearranged-trans s.rearranged t.rearranged;
    before = λ k h. t.before k h ∙ s.before k h;
    after = λ k h. t.after k h ∙ s.after k h;
    within = λ P h. t.within P (s.within P h);
  }

  pub swap-Permutes :
      (vec : List ℤ) (i j : ℕ)
      → lo ≤ i
      → i < hi
      → lo ≤ j
      → j < hi
      → hi ≤ length vec
      → Permutes lo hi vec (swap vec i j)
  swap-Permutes vec i j li hi_ lj hj hc =
      let in_i : i < length vec = omega arith in
      let in_j : j < length vec = omega arith in
      record {
        rearranged = swapped vec i j in_i in_j;
        before = λ k h. ground (arith, at-swap vec i j k in_i in_j);
        after = λ k h. ground (arith, at-swap vec i j k in_i in_j);
        within = λ P h k l m.
            subst P (sym (at-swap vec i j k in_i in_j)) (elim (Bool-cases (k == j)) [
              | inl e ↦ rw (e) (h i li hi_)
              | inr e ↦ elim (Bool-cases (k == i)) [
                | inl f ↦ rw (e, f) (h j lj hj)
                | inr f ↦ rw (e, f) (h k l m)
              ]
            ]);
      }

  -- A part of the range.
  pub Permutes-wider :
      {lo' hi' : ℕ} {vec vec' : List ℤ}
      → lo ≤ lo'
      → hi' ≤ hi
      → Permutes lo' hi' vec vec'
      → Permutes lo hi vec vec'
  Permutes-wider {lo' = lo'} {hi' = hi'} {vec = vec} {vec' = vec'} l h s = record {
    rearranged = s.rearranged;
    before = λ k b. s.before k (omega arith);
    after = λ k a. s.after k (omega arith);
    within = λ P all k a b. elim (Bool-cases (ltb k lo')) [
      | inl early ↦ subst P (sym (s.before k (omega tests))) (all k a b)
      | inr e ↦ elim (Bool-cases (ltb k hi')) [
        | inl inside ↦
            s.within P (λ j c d. all j (omega arith) (omega arith)) k (ground arith) (omega tests)
        | inr late ↦ subst P (sym (s.after k (ground arith))) (all k a b)
      ]
    ];
  }

-- What a sort of a range gives.
pub record SortsRange (lo hi : ℕ) (vec vec' : List ℤ) : Type 1 where
  pub permutes : Permutes lo hi vec vec'
  pub in_order : (a b : ℕ) → lo ≤ a → a < b → b < hi → at vec' a ≤ℤ at vec' b

-- Two arrays with the same elements at the same places.
pub array_eq :
    (vec vec' : List ℤ) → length vec ≡ length vec' → ((k : ℕ) → at vec k ≡ at vec' k) → vec ≡ vec'
array_eq [] [] e h = refl
array_eq [] (y ∷ vec') e h = absurd (omega arith)
array_eq (x ∷ vec) [] e h = absurd (omega arith)
array_eq (x ∷ vec) (y ∷ vec') e h =
    ap (λ z. z ∷ vec) (h 0) ∙ ap (◌∷◌ y) (array_eq vec vec' (omega arith) (λ k. h (suc k)))
