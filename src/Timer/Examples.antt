-- ===== src/Timer/Examples.antt =====
-- timerfd on small inputs: timer 0 at 50 that repeats every 20, then timer 1 at 70.
use algo.Prelude.{
  ℕ, ◌+◌, ◌*◌, ◌≤◌, ◌<◌, ◌≡◌, ◌≢◌, refl, subst, true, false, Option, none, some, List, [], ◌∷◌,
  ◌++◌, arith,
}
use mathlib.Core.Option
use algo.Prelude.Int.{pos, ◌-ℤ◌, ◌+ℤ◌, ltb_ℤ}
use algo.Timer.Stamp.{TimerStamp, Seconds, how_much_time_from_now_lem, how_much_time_from_now}
use algo.Timer.Containers.{
  Entry, same, has, find, before, up_to, from, set_insert, map_emplace, map_erase,
}
use algo.Timer.Queue.{
  Timer, Heap, TimerQueue, insert, Action, empty, put, add_timer, cancel_in_loop, handle_read,
}
use algo.Timer.Queue.Invariant.{IsValid}
use algo.Timer.Queue.Adding.{added, add_timer_lem}
use algo.Timer.Queue.Cancel.{Stops, cancel_in_loop_lem}
use algo.Timer.Queue.Expired.{IsAddressed}
use algo.Timer.Queue.Callbacks.{ScriptIsFine}
use algo.Timer.Queue.Reset.{Fates, armed_after}
use algo.Timer.Queue.Reading.{handle_read_lem}
use algo.Timer.Queue.Ending.{Deletes, destroy_queue, destroy_queue_lem}
use algo.Channel.{ChannelTimer, no_events, fresh_channel}
use algo.Channel.Tables.{Table, put_at, put_at-same, tables, nothing_watched}
use algo.Timer.Queue.StopSelf.{ScriptHasRoom, handle_read_stop_self}

abbrev every : Seconds
every = record { positive = true; micros = pos 20 }

abbrev once : Seconds
once = record { positive = false; micros = pos 0 }

empty-IsValid : IsValid (empty false 0) []
unfolding empty has find
empty-IsValid = record {
  sorted = tt;
  keys = tt;
  sizes = refl;
  old = λ a t e. cc;
  unique = λ a b t u e f g. cc;
  tracked = λ e h. absurd (ground arith);
  backed = λ k a h. absurd (ground arith);
  flying = tt;
}

empty_room : (a : ℕ) → (empty false 0).heap a ≡ none
unfolding empty
empty_room a = refl

same_result :
    {r : Option (TimerQueue × ℕ)} {p p' : TimerQueue} {n n' : ℕ}
    → r ≡ some (p, n)
    → r ≡ some (p', n')
    → p ≡ p'
same_result e f = cc

abbrev entry : ℕ → ℕ → Entry
entry t a = record { when = pos t; timer = a }

abbrev first_heap : Heap
first_heap = put (λ a. none) 100 (some (added 0 7 (pos 50) every))

abbrev first : TimerQueue
first = record {
  heap = first_heap;
  timers = entry 50 100 ∷ [];
  active = (0, 100) ∷ [];
  canceling = [];
  calling = false;
  armed = some (pos 50);
  created = 1;
}

add_first : add_timer (empty false 0) 100 7 (pos 50) every ≡ some (first, 0)
unfolding add_timer empty insert set_insert map_emplace find
add_first = refl

first-IsValid : IsValid first []
first-IsValid =
    let r = add_timer_lem (empty false 0) [] empty-IsValid 100 7 (pos 50) every (empty_room 100) in
    subst (λ q. IsValid q []) (same_result r.1 add_first) r.2

abbrev both : TimerQueue
both = record first {
  heap = put first_heap 200 (some (added 1 8 (pos 70) once));
  timers = entry 50 100 ∷ entry 70 200 ∷ [];
  active = (1, 200) ∷ (0, 100) ∷ [];
  created = 2;
}

add_second : add_timer first 200 8 (pos 70) once ≡ some (both, 1)
unfolding add_timer insert set_insert before map_emplace find
add_second = refl

both-IsValid : IsValid both []
both-IsValid =
    let r = add_timer_lem first [] first-IsValid 200 8 (pos 70) once refl in
    subst (λ q. IsValid q []) (same_result r.1 add_second) r.2

both-IsAddressed : IsAddressed both.heap
both-IsAddressed a t e = ground arith

add_timer_lem_example :
    (q : TimerQueue) × (add_timer first 200 8 (pos 70) once ≡ some (q, 1))
    × IsValid q []
    × (q.heap ≡ put first.heap 200 (some (added 1 8 (pos 70) once)))
    × (find 1 q.active ≡ some 200)
    × (has (entry 70 200) q.timers ≡ true)
    × (q.canceling ≡ [])
    × (q.armed ≡ some (pos 50))
add_timer_lem_example = add_timer_lem first [] first-IsValid 200 8 (pos 70) once refl

cancel_in_loop_lem_example : Stops both [] 0 (cancel_in_loop both 0)
cancel_in_loop_lem_example = cancel_in_loop_lem both [] 0 both-IsValid

quiet : (q : TimerQueue) (es : List Entry) → ScriptIsFine (λ t. []) q es
quiet q [] = tt
quiet q (e ∷ es) = λ t et. (tt, λ p r. quiet p es)

handle_read_lem_example :
    (r : TimerQueue) × (expired : List Entry) × (later : List Entry) × (armed : Option TimerStamp)
    × (handle_read (λ t. []) both (pos 60) ≡ some r)
    × IsValid r []
    × (expired ++ later ≡ both.timers)
    × ((e : Entry) → has e expired ≡ true → ltb_ℤ (pos 60) e.when ≡ false)
    × ((e : Entry) → has e later ≡ true → ltb_ℤ (pos 60) e.when ≡ true)
    × Fates both r (pos 60) [] expired
    × (r.armed ≡ armed_after armed r.timers)
    × IsAddressed r.heap
handle_read_lem_example =
    handle_read_lem (λ t. []) both (pos 60) both-IsValid both-IsAddressed λ p es run. quiet _ es

-- The read at 60: timer 0 waits for 80 then, behind timer 1.
handle_read_runs :
    Option.map {B = List Entry × Option TimerStamp}
      (λ (r : TimerQueue). (r.timers, r.armed))
      (handle_read (λ t. []) both (pos 60))
    ≡ some (entry 70 200 ∷ entry 80 100 ∷ [], some (pos 70))
unfolding handle_read up_to from before map_erase map_emplace find set_insert ◌+ℤ◌
handle_read_runs = refl

-- Each callback stops its own timer.
abbrev stopping : Timer → List Action
stopping t = Action.stop t.sequence ∷ []

stops_only : (q : TimerQueue) (es : List Entry) → ScriptHasRoom stopping q es
stops_only q [] = tt
stops_only q (e ∷ es) = λ t et. ((tt, λ p r. tt), λ p r. stops_only p es)

-- A read at 80, for which both timers are due: it is the second one whose callback this is about.
handle_read_stop_self_example : handle_read stopping both (pos 80) ≡ none
unfolding has same before
handle_read_stop_self_example =
    handle_read_stop_self stopping both (pos 80) (entry 70 200) (added 1 8 (pos 70) once) [] []
      both-IsValid both-IsAddressed refl refl refl refl λ p es run. stops_only _ es

how_much_time_from_now_lem_example :
    let ts = how_much_time_from_now (pos 2_500_000) (pos 1_000_000) in
    (ts.nsec < 1_000_000_000)
    × (ts.sec * 1_000_000_000 + ts.nsec ≡ 1000 * 1_500_000)
    × (100_000 ≤ ts.sec * 1_000_000_000 + ts.nsec)
unfolding ◌-ℤ◌
how_much_time_from_now_lem_example = how_much_time_from_now_lem (pos 2_500_000) (pos 1_000_000)

-- The channel of the timerfd, which is watched.
abbrev watched_channel : ChannelTimer
watched_channel = record (fresh_channel 9) {
  in_epoll = true;
  events = record no_events { readable = true };
}

abbrev watching : Table
watching = put_at nothing_watched 9 (some (400, watched_channel.events))

destroy_queue_lem_example :
    (s : Table) × (h : Heap) × (destroy_queue tables watching 400 watched_channel both
      ≡ some (s, h))
    × Deletes both.heap (entry 50 100 ∷ entry 70 200 ∷ []) h
    × (s 9 ≡ none)
    × ((k : ℕ) → k ≢ 9 → s k ≡ watching k)
destroy_queue_lem_example =
    destroy_queue_lem tables watching 400 watched_channel both both-IsValid
      (
        (400, watched_channel.events),
        put_at-same nothing_watched 9 (some (400, watched_channel.events)),
      )
      (λ e. absurd (ground arith))
