-- ===== src/Timer/Containers/Laws.antt =====
-- Laws of the containers of timerfd/timer_queue.h.
use algo.Prelude.{suc, ◌≡◌, refl, true, false, not, ◌&&◌, ◌||◌, List, [], ◌∷◌, arith, length}
use algo.Timer.Containers.{Entry, before, same, has, set_insert, set_erase}

pub same_refl : (x : Entry) → same x x ≡ true
unfolding same before
same_refl x = ground arith

pub same_eq : (x y : Entry) → same x y ≡ true → x ≡ y
unfolding same before
same_eq x y h = ground arith

pub before-same : (x y : Entry) → before x y ≡ true → same y x ≡ false
unfolding same before
before-same x y h = ground arith

pub same_neither : (x y : Entry) → before x y ≡ false → before y x ≡ false → same x y ≡ true
unfolding same
same_neither x y h k = ground arith

pub before_trans : (x y z : Entry) → before x y ≡ true → before y z ≡ true → before x z ≡ true
unfolding before
before_trans x y z h k = ground arith

-- A strictly ascending list: each entry before the next ones.
abbrev pub Above : Entry → List Entry → Type 0
Above x [] = Unit {0}
Above x (y ∷ ys) = (before x y ≡ true) × Above x ys

abbrev pub IsSorted : List Entry → Type 0
IsSorted [] = Unit {0}
IsSorted (x ∷ xs) = Above x xs × IsSorted xs

pub Above-trans : (x y : Entry) (xs : List Entry) → before x y ≡ true → Above y xs → Above x xs
Above-trans x y [] h a = tt
Above-trans x y (z ∷ zs) h a = (before_trans x y z h a.0, Above-trans x y zs h a.1)

pub Above-has : (x : Entry) (xs : List Entry) → Above x xs → has x xs ≡ false
unfolding has same
Above-has x [] a = refl
Above-has x (y ∷ ys) a = ground (arith, before-same x y a.0, Above-has x ys a.1)

Above-set_insert :
    (x e : Entry) (xs : List Entry) → before x e ≡ true → Above x xs → Above x (set_insert e xs)
unfolding set_insert
Above-set_insert x e [] h a = (h, tt)
Above-set_insert x e (y ∷ ys) h a = ground (arith, Above-set_insert x e ys h a.1)

pub set_insert-IsSorted : (e : Entry) (xs : List Entry) → IsSorted xs → IsSorted (set_insert e xs)
unfolding set_insert
set_insert-IsSorted e [] s = (tt, tt)
set_insert-IsSorted e (x ∷ xs) s =
    ground (arith, Above-trans e x xs, Above-set_insert x e xs, set_insert-IsSorted e xs s.1)

Above-set_erase : (x e : Entry) (xs : List Entry) → Above x xs → Above x (set_erase e xs)
unfolding set_erase
Above-set_erase x e [] a = tt
Above-set_erase x e (y ∷ ys) a = ground (arith, Above-set_erase x e ys a.1)

pub set_erase-IsSorted : (e : Entry) (xs : List Entry) → IsSorted xs → IsSorted (set_erase e xs)
unfolding set_erase
set_erase-IsSorted e [] s = tt
set_erase-IsSorted e (x ∷ xs) s =
    ground (arith, Above-set_erase x e xs s.0, set_erase-IsSorted e xs s.1)

pub has-set_insert :
    (e x : Entry) (xs : List Entry) → has e (set_insert x xs) ≡ (same e x || has e xs)
unfolding has set_insert
has-set_insert e x [] = refl
has-set_insert e x (y ∷ ys) = ground (arith, has-set_insert e x ys, same_neither x y, same_eq x y)

pub has-set_erase :
    (e x : Entry) (xs : List Entry)
    → IsSorted xs
    → has e (set_erase x xs) ≡ (not (same e x) && has e xs)
unfolding has set_erase
has-set_erase e x [] s = ground arith
has-set_erase e x (y ∷ ys) s = ground (
  arith,
  has-set_erase e x ys s.1,
  same_eq x y,
  same_eq e y,
  same_eq e x,
  Above-has y ys s.0,
  same_refl x,
)

pub length-set_insert :
    (x : Entry) (xs : List Entry) → has x xs ≡ false → length (set_insert x xs) ≡ suc (length xs)
unfolding has set_insert
length-set_insert x [] h = refl
length-set_insert x (y ∷ ys) h = ground (arith, length-set_insert x ys, same_neither x y)

pub length-set_erase :
    (x : Entry) (xs : List Entry) → has x xs ≡ true → suc (length (set_erase x xs)) ≡ length xs
unfolding has set_erase
length-set_erase x [] h = absurd (ground arith)
length-set_erase x (y ∷ ys) h = ground (arith, length-set_erase x ys)
