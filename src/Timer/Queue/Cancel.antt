-- ===== src/Timer/Queue/Cancel.antt =====
-- TimerQueue::StopTimer and CancelInLoop of timerfd/timer_queue.cpp.
use algo.Prelude.{
  ℕ, ◌≡◌, ◌≢◌, ◌⊎◌, inl, inr, true, false, not, ◌&&◌, Option, none, some, List, [], ◌∷◌, ◌==◌,
  if◌then◌else◌, arith, Bool-cases, Option-cases,
}
use algo.Timer.Containers.{Entry, same, has, set_erase, find, map_erase}
use algo.Timer.Containers.Laws.{
  has-set_erase, set_erase-IsSorted, length-set_erase, same_eq, same_refl,
}
use algo.Timer.Containers.Maps.{find-map_erase, map_erase-IsMap, length-map_erase}
use algo.Timer.Queue.{Timer, Heap, put, TimerQueue, cancel_in_loop}
use algo.Timer.Queue.Invariant.{IsValid, AreOut, entry_of}

-- Deleting a timer that is in the containers leaves those in work alone.
AreOut-erase :
    (h : Heap) (m : List (ℕ × ℕ)) (k : ℕ) (out : List Entry)
    → ((j : ℕ) → find j m ≡ none → find j (map_erase k m) ≡ none)
    → AreOut h m out
    → AreOut h (map_erase k m) out
AreOut-erase h m k [] g o = tt
AreOut-erase h m k (x ∷ xs) g ((t, et, ft), ni, o) =
    ((t, et, g t.sequence ft), ni, AreOut-erase h m k xs g o)

AreOut-delete :
    (h : Heap) (m : List (ℕ × ℕ)) (a : ℕ) (t : Timer) (out : List Entry)
    → h a ≡ some t
    → find t.sequence m ≡ some a
    → AreOut h m out
    → AreOut (put h a none) m out
AreOut-delete h m a t [] e f o = tt
AreOut-delete h m a t (x ∷ xs) e f ((u, eu, fu), ni, o) =
    ((u, ground arith, fu), ni, AreOut-delete h m a t xs e f o)

module _ (q : TimerQueue) (out : List Entry) (v : IsValid q out) (id a : ℕ)
    (found : find id q.active ≡ some a) where
  abbrev pub cancelled : Timer → TimerQueue
  cancelled t = record q {
    heap = put q.heap a none;
    timers = set_erase (entry_of a t) q.timers;
    active = map_erase id q.active;
  }

  pub cancel_runs :
      (t : Timer)
      → q.heap a ≡ some t
      → has (entry_of a t) q.timers ≡ true
      → cancel_in_loop q id ≡ some (cancelled t)
  unfolding cancel_in_loop
  cancel_runs t e h =
      rw (found, cancel_in_loop)
        (ground (
          arith,
          v.sizes,
          length-set_erase (entry_of a t) q.timers h,
          length-map_erase id a q.active found,
        ))

  pub cancelled-IsValid :
      (t : Timer)
      → q.heap a ≡ some t
      → t.sequence ≡ id
      → has (entry_of a t) q.timers ≡ true
      → IsValid (cancelled t) out
  cancelled-IsValid t e s h = record {
    sorted = set_erase-IsSorted (entry_of a t) q.timers v.sorted;
    keys = map_erase-IsMap id q.active v.keys;
    sizes = ground (
      arith,
      v.sizes,
      length-set_erase (entry_of a t) q.timers h,
      length-map_erase id a q.active found,
    );
    old = λ b u eu. ground (arith, v.old b u);
    unique = λ b c u w eu ew g. ground (arith, v.unique b c u w);
    tracked = λ x hx.
        let kept : (not (same x (entry_of a t)) && has x q.timers) ≡ true =
          rw (← has-set_erase x (entry_of a t) q.timers v.sorted) hx in
        let (u, eu, xu, fu) = v.tracked x (ground arith) in
        (
          u,
          ground (arith, same_refl x),
          xu,
          ground (arith, find-map_erase u.sequence id q.active v.keys, same_refl x),
        );
    backed = λ k b hb.
        let kept : (if id == k then none else find k q.active) ≡ some b =
          rw (← find-map_erase k id q.active v.keys) hb in
        let (u, eu, su, hu) = v.backed k b (ground arith) in
        (
          u,
          ground arith,
          su,
          ground (
            arith,
            has-set_erase (entry_of b u) (entry_of a t) q.timers v.sorted,
            same_eq (entry_of b u) (entry_of a t),
          ),
        );
    flying =
        AreOut-erase (put q.heap a none) q.active id out
          (λ j f. ground (arith, find-map_erase j id q.active v.keys))
          (AreOut-delete q.heap q.active a t out e (ground arith) v.flying);
  }

-- The three cases of StopTimer: an active timer, another number between reads, and another number
-- while the callbacks of a read run.
abbrev pub Stops : TimerQueue → List Entry → ℕ → Option TimerQueue → Type 0
Stops q out id r =
    ((a : ℕ) × (q' : TimerQueue) × (find id q.active ≡ some a)
      × (r ≡ some q')
      × IsValid q' out
      × (q'.heap a ≡ none)
      × (find id q'.active ≡ none)
      × ((j : ℕ) → id ≢ j → find j q'.active ≡ find j q.active))
    ⊎ (((find id q.active ≡ none) × (q.calling ≡ false) × (r ≡ some q))
        ⊎ ((find id q.active ≡ none) × (q.calling ≡ true) × (r ≡ none)))

-- StopTimer on a well-formed queue. An active timer is deleted and no longer found, the queue
-- stays well-formed, and all other timers stay active. A number that is not active changes
-- nothing between reads; while the callbacks of a read run, it is undefined behaviour.
pub cancel_in_loop_lem :
    (q : TimerQueue) (out : List Entry) (id : ℕ)
    → IsValid q out
    → Stops q out id (cancel_in_loop q id)
unfolding cancel_in_loop
cancel_in_loop_lem q out id v = elim (Option-cases (find id q.active)) [
  | inl none_there ↦ elim (Bool-cases q.calling) [
    | inl busy ↦ inr (inr (none_there, busy, rw (none_there, cancel_in_loop) (ground arith)))
    | inr idle ↦
        inr (inl (none_there, idle, rw (none_there, cancel_in_loop) (ground (arith, v.sizes))))
  ]
  | inr (a, found) ↦
      let (t, e, s, h) = v.backed id a found in
      inl (
        a,
        cancelled q out v id a found t,
        found,
        cancel_runs q out v id a found t e h,
        cancelled-IsValid q out v id a found t e s h,
        ground arith,
        ground (arith, find-map_erase id id q.active v.keys),
        λ j ne. ground (arith, find-map_erase j id q.active v.keys),
      )
]
