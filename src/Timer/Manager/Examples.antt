-- ===== src/Timer/Manager/Examples.antt =====
-- A TimerEventMgr (timerfd/timer_loop_mgr.cpp) on a small run, over an epoll that keeps no list.
use algo.Prelude.{ℕ, ◌≡◌, refl, arith, subst, inr, true, false, Option, none, some, List, [], ◌∷◌}
use algo.Prelude.Int.{pos}
use algo.Timer.Stamp.{Seconds, add_time}
use algo.Timer.Containers.{
  Entry, has, find, set_insert, map_emplace, map_erase, before, same, up_to, from,
}
use algo.Timer.Queue.{
  Timer, TimerQueue, Action, insert, put, empty, add_timer, handle_read, get_expired, reset,
  restart,
}
use algo.Timer.Queue.Invariant.{IsValid}
use algo.Timer.Queue.Adding.{added}
use algo.Timer.Queue.Callbacks.{ScriptIsFine}
use algo.Timer.Manager.{addtimer_every_time}
use algo.Timer.Manager.Armed.{IsArmed, IsDated}
use algo.Timer.Manager.Serving.{CanRead, CanReadAll}
use algo.Timer.Manager.Loop.{
  TimerEventMgr, Event, every_time, look, step, run, timer_event_mgr, read_timerfd,
}
use algo.Timer.Manager.Running.{AreFit, manager_lem}
use algo.Channel.{Events, no_events, update_channel}
use algo.Channel.Loop.{Channels, wait_active}
use algo.Channel.Tables.{tables, nothing_watched}

abbrev every : Seconds
every = record { positive = true; micros = pos 20 }

abbrev input : Events
input = record no_events { readable = true }

-- A timer of every 20 microseconds is added at 30, and the loop looks at 60.
abbrev events : List Event
events = every_time 100 (pos 30) every 7 ∷ look ((400, input) ∷ []) (pos 60) true ∷ []

abbrev quiet : Timer → List Action
quiet t = []

abbrev new : TimerEventMgr
new = (timer_event_mgr tables nothing_watched 300 8 400 9 false 0).1

abbrev ticking : TimerEventMgr
ticking = record new {
  queue = record {
    heap = put (λ a. none) 100 (some (added 0 7 (pos 50) every));
    timers = record { when = pos 50; timer = 100 } ∷ [];
    active = (0, 100) ∷ [];
    canceling = [];
    calling = false;
    armed = some (pos 50);
    created = 1;
  };
}

only_result {ℓ} :
    {A : Type 0} (P : A → Type ℓ) {o : Option A} {a : A}
    → o ≡ some a
    → P a
    → (b : A) → o ≡ some b
    → P b
only_result P {o} {a} e p b f = let same : a ≡ b = cc in subst P same p

second_of :
    {A B : Type 0} {o : Option (A × B)} {x x' : A} {y y' : B}
    → o ≡ some (x, y)
    → o ≡ some (x', y')
    → y ≡ y'
second_of e f = cc

quiet-ScriptIsFine : (q : TimerQueue) (es : List Entry) → ScriptIsFine quiet q es
quiet-ScriptIsFine q [] = tt
quiet-ScriptIsFine q (e ∷ es) = λ t et. (tt, λ p r. quiet-ScriptIsFine p es)

ticks : step quiet new (every_time 100 (pos 30) every 7) ≡ some ticking
unfolding step addtimer_every_time add_timer empty insert set_insert map_emplace find
    timer_event_mgr update_channel
ticks = refl

-- The timer behind the read at 60: it waits for 80.
abbrev ticked : TimerQueue
ticked = record {
  heap =
      put (put (λ a. none) 100 (some (added 0 7 (pos 50) every))) 100
        (some (added 0 7 (pos 80) every));
  timers = record { when = pos 80; timer = 100 } ∷ [];
  active = (0, 100) ∷ [];
  canceling = [];
  calling = false;
  armed = some (pos 80);
  created = 1;
}

reads : handle_read quiet (read_timerfd true ticking.queue) (pos 60) ≡ some ticked
unfolding handle_read get_expired reset insert set_insert map_emplace map_erase find before up_to
    from restart add_time timer_event_mgr
reads = refl

ticked-IsDated : IsDated ticked
unfolding has same before
ticked-IsDated e h = ground arith

can_read : CanRead quiet (pos 60) true ticking.queue
can_read = ((λ p es e. quiet-ScriptIsFine _ es), only_result IsDated reads ticked-IsDated)

look_can_read :
    (h : Channels) (ps : List ℕ)
    → wait_active ticking.channels ((400, input) ∷ []) ≡ some (h, ps)
    → CanReadAll quiet (pos 60) true (record ticking { channels = h }) ps
unfolding wait_active timer_event_mgr update_channel
look_can_read h ps e =
    subst (CanReadAll quiet (pos 60) true (record ticking { channels = h })) (second_of refl e)
      ((λ q. can_read), λ m r. tt)

events-AreFit : AreFit quiet new events
unfolding timer_event_mgr empty
events-AreFit = (
  (refl, omega arith),
  only_result (λ m. AreFit quiet m (look ((400, input) ∷ []) (pos 60) true ∷ [])) ticks
      (((inr refl, tt), look_can_read), λ m r. tt),
)

manager_lem_example :
    (m : TimerEventMgr) × (run quiet new events ≡ some m) × IsValid m.queue [] × IsArmed m.queue
manager_lem_example =
    manager_lem tables nothing_watched 300 8 400 9 false 0 quiet events (λ e. omega (arith, e))
      events-AreFit
