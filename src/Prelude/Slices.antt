-- ===== src/Prelude/Slices.antt =====
-- Slices of lists: consecutive ones join, and a slice of a sum of lists.
use Prim.Native.Nat.{ℕ, zero, suc, ◌+◌, ◌≤◌}
use mathlib.Core.Path.{◌≡◌, refl, ap}
use mathlib.Core.List.{List, [], ◌∷◌, ◌++◌}
use native.Mathlib.Omega.{arith}
use algo.Prelude.Lists.{length, take, drop}

module _ {ℓ} {A : Type ℓ} where
  pub take-drop :
      (j m n : ℕ) (xs : List A) → j + m ≡ n → take j xs ++ take m (drop j xs) ≡ take n xs
  take-drop zero m n xs e = let e' : m ≡ n = omega arith in rw e'
  take-drop (suc j) m zero xs e = absurd (omega arith)
  take-drop (suc j) zero (suc n) [] e = refl
  take-drop (suc j) (suc m) (suc n) [] e = refl
  take-drop (suc j) m (suc n) (x ∷ xs) e = ap (◌∷◌ x) (take-drop j m n xs (omega arith))

  pub drop-drop : (j m n : ℕ) (xs : List A) → j + m ≡ n → drop m (drop j xs) ≡ drop n xs
  drop-drop zero m n xs e = let e' : m ≡ n = omega arith in rw e'
  drop-drop (suc j) m zero xs e = absurd (omega arith)
  drop-drop (suc j) zero (suc n) [] e = refl
  drop-drop (suc j) (suc m) (suc n) [] e = refl
  drop-drop (suc j) m (suc n) (x ∷ xs) e = drop-drop j m n xs (omega arith)

  pub take_all : (n : ℕ) (xs : List A) → length xs ≤ n → take n xs ≡ xs
  take_all zero [] h = refl
  take_all zero (x ∷ xs) h = absurd (omega arith)
  take_all (suc n) [] h = refl
  take_all (suc n) (x ∷ xs) h = ap (◌∷◌ x) (take_all n xs (omega arith))

  pub drop_all : (n : ℕ) (xs : List A) → length xs ≤ n → drop n xs ≡ []
  drop_all zero [] h = refl
  drop_all zero (x ∷ xs) h = absurd (omega arith)
  drop_all (suc n) [] h = refl
  drop_all (suc n) (x ∷ xs) h = drop_all n xs (omega arith)

  pub take-append : (n : ℕ) (xs ys : List A) → length xs ≡ n → take n (xs ++ ys) ≡ xs
  take-append zero [] ys h = refl
  take-append zero (x ∷ xs) ys h = absurd (omega arith)
  take-append (suc n) [] ys h = absurd (omega arith)
  take-append (suc n) (x ∷ xs) ys h = ap (◌∷◌ x) (take-append n xs ys (omega arith))

  pub drop-append : (n : ℕ) (xs ys : List A) → length xs ≡ n → drop n (xs ++ ys) ≡ ys
  drop-append zero [] ys h = refl
  drop-append zero (x ∷ xs) ys h = absurd (omega arith)
  drop-append (suc n) [] ys h = absurd (omega arith)
  drop-append (suc n) (x ∷ xs) ys h = drop-append n xs ys (omega arith)

  pub drop-length-take : (n : ℕ) (xs : List A) → drop (length (take n xs)) xs ≡ drop n xs
  drop-length-take zero xs = refl
  drop-length-take (suc n) [] = refl
  drop-length-take (suc n) (x ∷ xs) = drop-length-take n xs
