-- ===== src/Timer/Queue/Invariant.antt =====
-- The invariant of TimerQueue in timerfd/timer_queue.cpp, and the insertion of a timer.
use algo.Prelude.{
  ℕ, ◌<◌, ◌≡◌, ◌≢◌, inl, inr, ◌||◌, Bool, true, false, Option, none, some, List, [], ◌∷◌, ◌==◌,
  if◌then◌else◌, arith, length, Bool-cases,
}
use algo.Timer.Stamp.{TimerStamp}
use algo.Timer.Containers.{Entry, same, has, set_insert, find, map_emplace}
use algo.Timer.Containers.Laws.{
  IsSorted, set_insert-IsSorted, has-set_insert, length-set_insert, same_eq, same_refl,
}
use algo.Timer.Containers.Maps.{IsMap, find-map_emplace, map_emplace-IsMap, length-map_emplace}
use algo.Timer.Queue.{Timer, Heap, TimerQueue, is_earliest, insert}

abbrev pub NotIn : ℕ → List Entry → Type 0
NotIn a [] = Unit {0}
NotIn a (e ∷ es) = (e.timer ≢ a) × NotIn a es

-- The timers that have been taken out of the containers and are still on the heap.
abbrev pub AreOut : Heap → List (ℕ × ℕ) → List Entry → Type 0
AreOut h m [] = Unit {0}
AreOut h m (e ∷ es) =
    ((t : Timer) × (h e.timer ≡ some t) × (find t.sequence m ≡ none))
    × NotIn e.timer es
    × AreOut h m es

-- The two containers hold the same timers, each under its time and under its number; `out` are
-- the expired ones in work.
pub record IsValid (q : TimerQueue) (out : List Entry) : Type 0 where
  pub sorted : IsSorted q.timers
  pub keys : IsMap q.active
  pub sizes : length q.timers ≡ length q.active
  pub old : (a : ℕ) (t : Timer) → q.heap a ≡ some t → t.sequence < q.created
  pub unique :
      (a b : ℕ) (t u : Timer)
      → q.heap a ≡ some t
      → q.heap b ≡ some u
      → t.sequence ≡ u.sequence
      → a ≡ b
  pub tracked :
      (e : Entry)
      → has e q.timers ≡ true
      → (t : Timer) × (q.heap e.timer ≡ some t)
        × (t.expiration ≡ e.when)
        × (find t.sequence q.active ≡ some e.timer)
  pub backed :
      (k a : ℕ)
      → find k q.active ≡ some a
      → (t : Timer) × (q.heap a ≡ some t)
        × (t.sequence ≡ k)
        × (has (record { when = t.expiration; timer = a }) q.timers ≡ true)
  pub flying : AreOut q.heap q.active out

-- What the timerfd is set to does not matter to it, nor do the two fields of a read in progress.
pub aside-IsValid :
    {q : TimerQueue} {out : List Entry} (armed : Option TimerStamp) (calling : Bool)
    (canceling : List ℕ)
    → IsValid q out
    → IsValid (record q { armed = armed; calling = calling; canceling = canceling }) out
aside-IsValid armed calling canceling v = record {
  sorted = v.sorted;
  keys = v.keys;
  sizes = v.sizes;
  old = v.old;
  unique = v.unique;
  tracked = v.tracked;
  backed = v.backed;
  flying = v.flying;
}

abbrev pub entry_of : ℕ → Timer → Entry
entry_of a t = record { when = t.expiration; timer = a }

abbrev pub inserted : TimerQueue → ℕ → Timer → TimerQueue
inserted q a t = record q {
  timers = set_insert (entry_of a t) q.timers;
  active = map_emplace t.sequence a q.active;
}

AreOut-emplace :
    (h : Heap) (m : List (ℕ × ℕ)) (out : List Entry) (a : ℕ) (t : Timer)
    → h a ≡ some t
    → ((b c : ℕ) (u v : Timer) → h b ≡ some u → h c ≡ some v → u.sequence ≡ v.sequence → b ≡ c)
    → find t.sequence m ≡ none
    → NotIn a out
    → AreOut h m out
    → AreOut h (map_emplace t.sequence a m) out
AreOut-emplace h m [] a t e u f ni o = tt
AreOut-emplace h m (x ∷ xs) a t e u f ni ((v, ev, fv), nx, o) = (
  (v, ev, ground (arith, find-map_emplace v.sequence t.sequence a m f, u a x.timer t v)),
  nx,
  AreOut-emplace h m xs a t e u f ni.1 o,
)

-- A timer on the heap that is in neither container.
module _ (q : TimerQueue) (out : List Entry) (a : ℕ) (t : Timer) (v : IsValid q out)
    (here : q.heap a ≡ some t) (free : find t.sequence q.active ≡ none) where
  not_tracked : has (entry_of a t) q.timers ≡ false
  not_tracked = elim (Bool-cases (has (entry_of a t) q.timers)) [
    | inl h ↦ absurd (ground (arith, v.tracked (entry_of a t) h))
    | inr h ↦ h
  ]

  -- The insertion runs, and no assertion fails.
  pub insert_runs : insert q a ≡ some (inserted q a t, is_earliest t.expiration q.timers)
  unfolding insert
  insert_runs = ground (
    arith,
    v.sizes,
    length-set_insert (entry_of a t) q.timers not_tracked,
    length-map_emplace t.sequence a q.active free,
  )

  inserted_tracked :
      (e : Entry)
      → (same e (entry_of a t) || has e q.timers) ≡ true
      → (u : Timer) × (q.heap e.timer ≡ some u)
        × (u.expiration ≡ e.when)
        × (find u.sequence (map_emplace t.sequence a q.active) ≡ some e.timer)
  inserted_tracked e h = elim (Bool-cases (same e (entry_of a t))) [
    | inl new ↦
        let eq : e ≡ entry_of a t = same_eq e (entry_of a t) new in
        (
          t,
          ground (arith, here),
          ground arith,
          ground (arith, find-map_emplace t.sequence t.sequence a q.active free),
        )
    | inr prior ↦
        let (u, eu, xu, fu) = v.tracked e (ground arith) in
        (u, eu, xu, ground (arith, find-map_emplace u.sequence t.sequence a q.active free))
  ]

  inserted_backed :
      (k b : ℕ)
      → (if t.sequence == k then some a else find k q.active) ≡ some b
      → (u : Timer) × (q.heap b ≡ some u)
        × (u.sequence ≡ k)
        × ((same (entry_of b u) (entry_of a t) || has (entry_of b u) q.timers) ≡ true)
  inserted_backed k b h = elim (Bool-cases (t.sequence == k)) [
    | inl new ↦
        let eq : b ≡ a = ground arith in
        (t, ground (arith, here), ground arith, ground (arith, same_refl (entry_of a t)))
    | inr prior ↦ let (u, eu, su, hu) = v.backed k b (ground arith) in (u, eu, su, ground arith)
  ]

  pub inserted-IsValid : NotIn a out → IsValid (inserted q a t) out
  inserted-IsValid ni = record {
    sorted = set_insert-IsSorted (entry_of a t) q.timers v.sorted;
    keys = map_emplace-IsMap t.sequence a q.active free v.keys;
    sizes = ground (
      arith,
      v.sizes,
      length-set_insert (entry_of a t) q.timers not_tracked,
      length-map_emplace t.sequence a q.active free,
    );
    old = v.old;
    unique = v.unique;
    tracked = λ e h. inserted_tracked e (rw (← has-set_insert e (entry_of a t) q.timers) h);
    backed = λ k b h.
        let (u, eu, su, hu) =
          inserted_backed k b (rw (← find-map_emplace k t.sequence a q.active free) h) in
        (u, eu, su, rw (has-set_insert (entry_of b u) (entry_of a t) q.timers) hu);
    flying = AreOut-emplace q.heap q.active out a t here v.unique free ni v.flying;
  }
