-- ===== src/Timer/Containers.antt =====
-- The standard containers of timerfd/timer_queue.h: the std::set of entries, as its list in order,
-- and the std::unordered_map from sequence numbers to timers, as a list of its pairs.
pub mod Laws
pub mod Maps
use algo.Prelude.{
  ℕ, Bool, true, false, not, ◌&&◌, ◌||◌, Option, none, some, List, [], ◌∷◌, ◌==◌, ltb,
  if◌then◌else◌,
}
use algo.Prelude.Int.{ℤ, ltb_ℤ}

-- std::pair<TimerStamp, Timer*>: a time in microseconds, and the address of a timer.
pub record Entry : Type 0 where
  pub when : ℤ
  pub timer : ℕ

-- The pair's operator<.
unfoldable pub before : Entry → Entry → Bool
before x y = ltb_ℤ x.when y.when || (not (ltb_ℤ y.when x.when) && ltb x.timer y.timer)

unfoldable pub same : Entry → Entry → Bool
same x y = not (before x y) && not (before y x)

unfoldable pub has : Entry → List Entry → Bool
has e [] = false
has e (x ∷ xs) = same e x || has e xs

-- `emplace` and `erase` of the set.
unfoldable pub set_insert : Entry → List Entry → List Entry
set_insert e [] = e ∷ []
set_insert e (x ∷ xs) =
    if before e x then e ∷ x ∷ xs else if before x e then x ∷ set_insert e xs else x ∷ xs

unfoldable pub set_erase : Entry → List Entry → List Entry
set_erase e [] = []
set_erase e (x ∷ xs) = if same e x then xs else x ∷ set_erase e xs

-- What stands before `upper_bound`, and what stands from it on.
unfoldable pub up_to : Entry → List Entry → List Entry
up_to bound [] = []
up_to bound (x ∷ xs) = if before bound x then [] else x ∷ up_to bound xs

unfoldable pub from : Entry → List Entry → List Entry
from bound [] = []
from bound (x ∷ xs) = if before bound x then x ∷ xs else from bound xs

unfoldable pub find : ℕ → List (ℕ × ℕ) → Option ℕ
find k [] = none
find k ((j, a) ∷ m) = if j == k then some a else find k m

-- `emplace` changes nothing if the key is there.
unfoldable pub map_emplace : ℕ → ℕ → List (ℕ × ℕ) → List (ℕ × ℕ)
map_emplace k a m = elim (find k m) [ none ↦ (k, a) ∷ m | some b ↦ m ]

unfoldable pub map_erase : ℕ → List (ℕ × ℕ) → List (ℕ × ℕ)
map_erase k [] = []
map_erase k ((j, a) ∷ m) = if j == k then m else (j, a) ∷ map_erase k m
