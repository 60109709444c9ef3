-- ===== src/Timer/Queue/Adding.antt =====
-- TimerQueue::AddTimer of timerfd/timer_queue.cpp.
use algo.Prelude.{
  ℕ, ◌≡◌, inl, inr, refl, true, Option, none, some, List, [], ◌∷◌, if◌then◌else◌, arith,
  Option-cases,
}
use algo.Timer.Stamp.{TimerStamp, Seconds}
use algo.Timer.Containers.{Entry, has, find, set_insert}
use algo.Timer.Containers.Laws.{has-set_insert, same_refl}
use algo.Timer.Containers.Maps.{find-map_emplace}
use algo.Timer.Queue.{
  Timer, Heap, put, TimerQueue, is_earliest, new_timer, add_timer_in_loop, add_timer,
}
use algo.Timer.Queue.Invariant.{
  aside-IsValid, IsValid, NotIn, AreOut, entry_of, inserted, insert_runs, inserted-IsValid,
}

pub AreOut-put :
    (h : Heap) (m : List (ℕ × ℕ)) (out : List Entry) (a : ℕ) (o : Option Timer)
    → NotIn a out
    → AreOut h m out
    → AreOut (put h a o) m out
AreOut-put h m [] a o ni f = tt
AreOut-put h m (e ∷ es) a o ni ((t, et, ft), ne, f) =
    ((t, ground arith, ft), ne, AreOut-put h m es a o ni.1 f)

-- An address that is not on the heap is not one of a timer in work.
NotIn-fresh :
    (h : Heap) (m : List (ℕ × ℕ)) (out : List Entry) (a : ℕ)
    → h a ≡ none
    → AreOut h m out
    → NotIn a out
NotIn-fresh h m [] a e f = tt
NotIn-fresh h m (x ∷ xs) a e ((t, et, ft), ne, f) = ((λ p. ground arith), NotIn-fresh h m xs a e f)

-- The timer that AddTimer makes.
abbrev pub added : ℕ → ℕ → TimerStamp → Seconds → Timer
added sequence cb when interval = record {
  callback = cb;
  expiration = when;
  interval = interval;
  repeat = interval.positive;
  sequence = sequence;
}

module _ (q : TimerQueue) (out : List Entry) (v : IsValid q out) (a cb : ℕ) (when : TimerStamp)
    (interval : Seconds) (fresh : q.heap a ≡ none) where
  abbrev timer : Timer
  timer = added q.created cb when interval

  not_active : find q.created q.active ≡ none
  not_active = elim (Option-cases (find q.created q.active)) [
    | inl e ↦ e
    | inr (b, e) ↦
        let (t, et, st, ht) = v.backed q.created b e in absurd (omega (arith, v.old b t et))
  ]

  new_timer-IsValid : IsValid (new_timer q a cb when interval) out
  unfolding new_timer
  new_timer-IsValid = record {
    sorted = v.sorted;
    keys = v.keys;
    sizes = v.sizes;
    old = λ b t e. ground (arith, v.old b t);
    unique = λ b c t u e f g. ground (arith, v.unique b c t u, v.old b t, v.old c u);
    tracked = λ e h. let (t, et, xt, ft) = v.tracked e h in (t, ground arith, xt, ft);
    backed = λ k b h. let (t, et, st, ht) = v.backed k b h in (t, ground arith, st, ht);
    flying =
        AreOut-put q.heap q.active out a (some timer)
          (NotIn-fresh q.heap q.active out a fresh v.flying) v.flying;
  }

  abbrev placed : TimerQueue
  placed = inserted (new_timer q a cb when interval) a timer

  abbrev after : TimerQueue
  after = record placed { armed = if is_earliest when q.timers then some when else q.armed }

  on_heap : (new_timer q a cb when interval).heap a ≡ some timer
  unfolding new_timer
  on_heap = ground arith

  heap_after : (new_timer q a cb when interval).heap ≡ put q.heap a (some timer)
  unfolding new_timer
  heap_after = refl

  canceling_after : (new_timer q a cb when interval).canceling ≡ q.canceling
  unfolding new_timer
  canceling_after = refl

  unused : find q.created (new_timer q a cb when interval).active ≡ none
  unfolding new_timer
  unused = not_active

  add_timer_runs : add_timer q a cb when interval ≡ some (after, q.created)
  unfolding add_timer
  add_timer_runs =
      rw
        (
          insert_runs (new_timer q a cb when interval) out a timer new_timer-IsValid on_heap unused,
          add_timer_in_loop,
        )
        (ground arith)

  -- AddTimer at an address that `new` returns (nothing stands there) runs without an assertion
  -- failing: the queue stays well-formed, the number returned finds the new timer, which stands in
  -- the queue under its time, and the timerfd is set anew exactly if it is before all others.
  pub add_timer_lem :
      (q' : TimerQueue) × (add_timer q a cb when interval ≡ some (q', q.created))
      × IsValid q' out
      × (q'.heap ≡ put q.heap a (some (added q.created cb when interval)))
      × (find q.created q'.active ≡ some a)
      × (has (entry_of a (added q.created cb when interval)) q'.timers ≡ true)
      × (q'.canceling ≡ q.canceling)
      × (q'.armed ≡ (if is_earliest when q.timers then some when else q.armed))
  add_timer_lem = (
    after,
    add_timer_runs,
    aside-IsValid after.armed placed.calling placed.canceling (
        inserted-IsValid (new_timer q a cb when interval) out a timer new_timer-IsValid on_heap
          unused (NotIn-fresh q.heap q.active out a fresh v.flying)),
    heap_after,
    ground (
      arith,
      find-map_emplace q.created q.created a (new_timer q a cb when interval).active unused,
    ),
    ground (
      arith,
      has-set_insert (entry_of a timer) (entry_of a timer) (new_timer q a cb when interval).timers,
      same_refl (entry_of a timer),
    ),
    canceling_after,
    refl,
  )

  -- What has been added stands in the set.
  pub add_timer-timers :
      (q' : TimerQueue) (n : ℕ)
      → add_timer q a cb when interval ≡ some (q', n)
      → q'.timers ≡ set_insert (entry_of a timer) q.timers
  unfolding new_timer
  add_timer-timers q' n e = cc (add_timer_runs)

  -- Whether callbacks run is not changed.
  pub add_timer-calling :
      (q' : TimerQueue) (n : ℕ)
      → add_timer q a cb when interval ≡ some (q', n)
      → q'.calling ≡ q.calling
  unfolding new_timer
  add_timer-calling q' n e = cc (add_timer_runs)
