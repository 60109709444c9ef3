-- ===== src/Timer/Manager.antt =====
-- The timers of TimerEventMgr (timerfd/timer_loop_mgr.cpp). The clock's value is an argument.
pub mod Loop
pub mod Armed
pub mod Serving
pub mod Running
mod Examples
use algo.Prelude.{ℕ, ◌≡◌, refl, ap, ◌∙◌, ==_refl, Bool, true, false, Option, none, some, []}
use algo.Prelude.Int.{pos, ◌+ℤ◌}
use algo.Timer.Stamp.{TimerStamp, Seconds, add_time}
use algo.Timer.Containers.{has, find}
use algo.Timer.Queue.{Timer, TimerQueue, Heap, put, add_timer}
use algo.Timer.Queue.Invariant.{IsValid, entry_of}
use algo.Timer.Queue.Adding.{added, add_timer_lem}

-- 0.0
abbrev pub no_interval : Seconds
no_interval = record { micros = pos 0; positive = false }

unfoldable pub addtimer_at_time : TimerQueue → ℕ → TimerStamp → ℕ → Option (TimerQueue × ℕ)
unfolding add_timer
addtimer_at_time q address time cb = add_timer q address cb time no_interval

unfoldable pub addtimer_after_time :
    TimerQueue → ℕ → TimerStamp → Seconds → ℕ → Option (TimerQueue × ℕ)
unfolding addtimer_at_time add_time
addtimer_after_time q address now delay cb = addtimer_at_time q address (add_time now delay) cb

unfoldable pub addtimer_every_time :
    TimerQueue → ℕ → TimerStamp → Seconds → ℕ → Option (TimerQueue × ℕ)
unfolding add_timer add_time
addtimer_every_time q address now interval cb =
    add_timer q address cb (add_time now interval) interval

-- The queue has the timer under its number and its time, which is `span` after `now`.
abbrev pub IsDue : TimerQueue → ℕ → ℕ → TimerStamp → Seconds → Bool → Type 0
IsDue q number address now span repeats =
    (t : Timer) × (find number q.active ≡ some address)
    × (q.heap address ≡ some t)
    × (has (entry_of address t) q.timers ≡ true)
    × (t.expiration ≡ now +ℤ span.micros)
    × (t.repeat ≡ repeats)

module _ (q : TimerQueue) (v : IsValid q []) (a cb : ℕ) (now : TimerStamp) (span : Seconds)
    (fresh : q.heap a ≡ none) where
  own : {h : Heap} (t : Timer) → h ≡ put q.heap a (some t) → h a ≡ some t
  own t e = ap (λ h. h a) e ∙ rw (==_refl a) refl

  -- AddtimerAfterTime puts a timer into a well-formed queue that is due once, after the delay,
  -- and AddtimerEveryTime one that is due first after the interval and repeats if the interval
  -- is positive; both return its number and leave the queue well-formed.
  pub addtimer_times_lem :
      ((q' : TimerQueue) × (addtimer_after_time q a now span cb ≡ some (q', q.created))
        × IsValid q' []
        × IsDue q' q.created a now span false)
      × ((q' : TimerQueue) × (addtimer_every_time q a now span cb ≡ some (q', q.created))
          × IsValid q' []
          × IsDue q' q.created a now span span.positive)
  unfolding addtimer_after_time addtimer_every_time
  addtimer_times_lem =
      let when = now +ℤ span.micros in
      let (q1, run1, v1, heap1, found1, there1, c1, armed1) =
        add_timer_lem q [] v a cb when no_interval fresh in
      let (q2, run2, v2, heap2, found2, there2, c2, armed2) =
        add_timer_lem q [] v a cb when span fresh in
      (
        (
          q1,
          run1,
          v1,
          (
            added q.created cb when no_interval,
            found1,
            own (added q.created cb when no_interval) heap1,
            there1,
            refl,
            refl,
          ),
        ),
        (
          q2,
          run2,
          v2,
          (
            added q.created cb when span,
            found2,
            own (added q.created cb when span) heap2,
            there2,
            refl,
            refl,
          ),
        ),
      )
