-- ===== src/Sort.antt =====
-- The arrays of sort_algo: reading, std::swap, and what it means that a sort is right. An array
-- is a list of integers; the sorts are stated for bounds inside it, where no access is out of
-- range.
pub mod Bubble
pub mod Choose
pub mod Insert
pub mod Heap
pub mod Merge
pub mod Ranges
pub mod Quick
mod Examples
use algo.Prelude.{
  ℕ, zero, suc, ◌+◌, ◌≤◌, ◌<◌, ◌≡◌, refl, sym, ap, ◌∙◌, inl, inr, subst, Bool-cases, arith, tests,
  Bool, true, false, List, [], ◌∷◌, ◌==◌, ◌&&◌, if◌then◌else◌, length, set, length-set, get_or,
}
use algo.Prelude.Int.{ℤ, pos, ◌≤ℤ◌, pos_part, neg_part}

-- vec[i]
abbrev pub at : List ℤ → ℕ → ℤ
at vec i = get_or vec i (pos 0)

unfoldable pub swap : List ℤ → ℕ → ℕ → List ℤ
swap vec i j = set (set vec i (at vec j)) j (at vec i)

pub at-set :
    (vec : List ℤ) (i k : ℕ) (v : ℤ)
    → i < length vec
    → at (set vec i v) k ≡ (if k == i then v else at vec k)
at-set [] i k v h = absurd (omega arith)
at-set (x ∷ vec) zero zero v h = refl
at-set (x ∷ vec) zero (suc k) v h = ground arith
at-set (x ∷ vec) (suc i) zero v h = ground arith
at-set (x ∷ vec) (suc i) (suc k) v h = ground (arith, at-set vec i k v)

pub length-swap : (vec : List ℤ) (i j : ℕ) → length (swap vec i j) ≡ length vec
unfolding swap
length-swap vec i j = length-set (set vec i (at vec j)) j (at vec i) ∙ length-set vec i (at vec j)

pub at-swap :
    (vec : List ℤ) (i j k : ℕ)
    → i < length vec
    → j < length vec
    → at (swap vec i j) k ≡ (if k == j then at vec i else (if k == i then at vec j else at vec k))
unfolding swap
at-swap vec i j k hi hj =
    let first = at-set vec i k (at vec j) hi in
    let size = length-set vec i (at vec j) in
    ground (arith, first, at-set (set vec i (at vec j)) j k (at vec i) (omega (arith, size)))

-- How often an integer stands in an array.
abbrev pub same : ℤ → ℤ → Bool
same a b = (pos_part a == pos_part b) && (neg_part a == neg_part b)

abbrev pub hit : ℤ → ℤ → ℕ
hit x v = if same x v then 1 else 0

abbrev pub occurrences : ℤ → List ℤ → ℕ
occurrences x [] = 0
occurrences x (v ∷ vec) = hit x v + occurrences x vec

pub occurrences-set :
    (x : ℤ) (vec : List ℤ) (i : ℕ) (v : ℤ)
    → i < length vec
    → occurrences x (set vec i v) + hit x (at vec i) ≡ occurrences x vec + hit x v
occurrences-set x [] i v h = absurd (omega arith)
occurrences-set x (y ∷ vec) zero v h = omega arith
occurrences-set x (y ∷ vec) (suc i) v h =
    let rest = occurrences-set x vec i v (omega arith) in omega (arith, rest)

pub occurrences-swap :
    (x : ℤ) (vec : List ℤ) (i j : ℕ)
    → i < length vec
    → j < length vec
    → occurrences x (swap vec i j) ≡ occurrences x vec
unfolding swap
occurrences-swap x vec i j hi hj =
    let one = occurrences-set x vec i (at vec j) hi in
    let size = length-set vec i (at vec j) in
    let two = occurrences-set x (set vec i (at vec j)) j (at vec i) (omega (arith, size)) in
    let read : at (set vec i (at vec j)) j ≡ at vec j =
      ground (arith, at-set vec i j (at vec j) hi) in
    let read' = ap (hit x) read in omega (arith, one, two, read')

-- The first `i` elements are in order, and none of the others below `m` is smaller than they.
abbrev pub IsSettled : List ℤ → ℕ → ℕ → Type 0
IsSettled vec i m = (a b : ℕ) → a < i → a < b → b < m → at vec a ≤ℤ at vec b

-- The same elements, in some order.
pub record IsRearranged (vec vec' : List ℤ) : Type 0 where
  pub size : length vec' ≡ length vec
  pub same_elements : (x : ℤ) → occurrences x vec' ≡ occurrences x vec

pub unchanged : (vec : List ℤ) → IsRearranged vec vec
unchanged vec = record { size = refl; same_elements = λ x. refl }

pub swapped :
    (vec : List ℤ) (i j : ℕ) → i < length vec → j < length vec → IsRearranged vec (swap vec i j)
swapped vec i j hi hj = record {
  size = length-swap vec i j;
  same_elements = λ x. occurrences-swap x vec i j hi hj;
}

pub IsRearranged-trans :
    {vec vec' vec'' : List ℤ}
    → IsRearranged vec vec'
    → IsRearranged vec' vec''
    → IsRearranged vec vec''
IsRearranged-trans r s = record {
  size = s.size ∙ r.size;
  same_elements = λ x. s.same_elements x ∙ r.same_elements x;
}

-- What a sort of the first `m` elements gives: those in order, by rearranging.
pub record IsSorted (vec vec' : List ℤ) (m : ℕ) : Type 0 where
  pub rearranged : IsRearranged vec vec'
  pub in_order : (a b : ℕ) → a < b → b < m → at vec' a ≤ℤ at vec' b

-- One more element is settled, if it is the least of the rest.
pub settle_next :
    (vec : List ℤ) (i m : ℕ)
    → IsSettled vec i m
    → ((b : ℕ) → i ≤ b → b < m → at vec i ≤ℤ at vec b)
    → IsSettled vec (i + 1) m
settle_next vec i m s l a b ha hab hb = elim (Bool-cases (a == i)) [
  | inl e ↦
      let a_is : a ≡ i = ground arith in
      subst (λ c. at vec c ≤ℤ at vec b) (sym a_is) (l b (omega arith) hb)
  | inr e ↦ s a b (ground arith) hab hb
]
