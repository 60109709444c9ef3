-- ===== src/Timer/Containers/Maps.antt =====
-- Laws of the std::unordered_map of timerfd/timer_queue.h, and of a cut of the set at a bound.
use algo.Prelude.{
  ℕ, suc, ◌≡◌, refl, true, false, ◌||◌, none, some, List, [], ◌∷◌, ◌++◌, ◌==◌, if◌then◌else◌, arith,
  length,
}
use algo.Timer.Containers.{Entry, before, has, up_to, from, find, map_emplace, map_erase}
use algo.Timer.Containers.Laws.{Above, IsSorted, before_trans, same_eq}

-- No key twice.
abbrev pub IsMap : List (ℕ × ℕ) → Type 0
IsMap [] = Unit {0}
IsMap ((k, a) ∷ m) = (find k m ≡ none) × IsMap m

pub find-map_emplace :
    (j k a : ℕ) (m : List (ℕ × ℕ))
    → find k m ≡ none
    → find j (map_emplace k a m) ≡ (if k == j then some a else find j m)
unfolding map_emplace find
find-map_emplace j k a m h = rw (h, map_emplace) refl

pub map_emplace-IsMap :
    (k a : ℕ) (m : List (ℕ × ℕ)) → find k m ≡ none → IsMap m → IsMap (map_emplace k a m)
unfolding map_emplace
map_emplace-IsMap k a m h d = rw (h, map_emplace) (h, d)

pub length-map_emplace :
    (k a : ℕ) (m : List (ℕ × ℕ)) → find k m ≡ none → length (map_emplace k a m) ≡ suc (length m)
unfolding map_emplace
length-map_emplace k a m h = rw (h, map_emplace) refl

pub find-map_erase :
    (j k : ℕ) (m : List (ℕ × ℕ))
    → IsMap m
    → find j (map_erase k m) ≡ (if k == j then none else find j m)
unfolding map_erase find
find-map_erase j k [] d = ground arith
find-map_erase j k ((i, a) ∷ m) d = ground (arith, find-map_erase j k m d.1)

pub map_erase-IsMap : (k : ℕ) (m : List (ℕ × ℕ)) → IsMap m → IsMap (map_erase k m)
unfolding map_erase
map_erase-IsMap k [] d = tt
map_erase-IsMap k ((i, a) ∷ m) d = ground (arith, map_erase-IsMap k m d.1, find-map_erase i k m d.1)

pub length-map_erase :
    (k a : ℕ) (m : List (ℕ × ℕ)) → find k m ≡ some a → suc (length (map_erase k m)) ≡ length m
unfolding map_erase find
length-map_erase k a [] h = absurd (ground arith)
length-map_erase k a ((i, b) ∷ m) h = ground (arith, length-map_erase k a m)

pub up_to-append-from : (b : Entry) (xs : List Entry) → up_to b xs ++ from b xs ≡ xs
unfolding up_to from
up_to-append-from b [] = refl
up_to-append-from b (x ∷ xs) = ground (arith, up_to-append-from b xs)

pub has-append : (e : Entry) (xs ys : List Entry) → has e (xs ++ ys) ≡ (has e xs || has e ys)
unfolding has
has-append e [] ys = refl
has-append e (x ∷ xs) ys = ground (arith, has-append e xs ys)

pub has-up_to : (e b : Entry) (xs : List Entry) → has e (up_to b xs) ≡ true → before b e ≡ false
unfolding has up_to
has-up_to e b [] h = absurd (ground arith)
has-up_to e b (x ∷ xs) h = ground (arith, has-up_to e b xs, same_eq e x)

Above-has-before :
    (x e : Entry) (xs : List Entry) → Above x xs → has e xs ≡ true → before x e ≡ true
unfolding has
Above-has-before x e [] a h = absurd (ground arith)
Above-has-before x e (y ∷ ys) a h = ground (arith, Above-has-before x e ys a.1, same_eq e y)

pub has-from :
    (e b : Entry) (xs : List Entry) → IsSorted xs → has e (from b xs) ≡ true → before b e ≡ true
unfolding has from
has-from e b [] s h = absurd (ground arith)
has-from e b (x ∷ xs) s h =
    ground
      (arith, has-from e b xs s.1, same_eq e x, Above-has-before x e xs s.0, before_trans b x e)

pub from-IsSorted : (b : Entry) (xs : List Entry) → IsSorted xs → IsSorted (from b xs)
unfolding from
from-IsSorted b [] s = tt
from-IsSorted b (x ∷ xs) s = ground (arith, from-IsSorted b xs s.1)
