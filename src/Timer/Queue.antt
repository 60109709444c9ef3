-- ===== src/Timer/Queue.antt =====
-- TimerQueue of timerfd/timer_queue.cpp and Timer of timerfd/timer.h. Timers are objects on a
-- heap; an operation returns none where the program has undefined behaviour or an assertion fails.
pub mod Invariant
pub mod Adding
pub mod Cancel
pub mod Expired
pub mod Reset
pub mod Callbacks
pub mod Reading
pub mod StopSelf
pub mod Ending
use algo.Prelude.{
  ℕ, ◌>>=◌, ◌>>◌, ◌+◌, ◌≡◌, Bool, true, false, not, ◌&&◌, Option, none, some, List, [], ◌∷◌, ◌==◌,
  if◌then◌else◌, length,
}
use algo.Prelude.Int.{ltb_ℤ}
use algo.Timer.Stamp.{TimerStamp, invalid, valid, Seconds, add_time}
use algo.Timer.Containers.{Entry, set_insert, set_erase, up_to, from, find, map_emplace, map_erase}

-- A callback is a number; what it does is an argument of `handle_read`.
pub record Timer : Type 0 where
  pub callback : ℕ
  pub expiration : TimerStamp
  pub interval : Seconds
  pub repeat : Bool
  pub sequence : ℕ

-- Timer::ReStart.
unfoldable pub restart : TimerStamp → Timer → Timer
unfolding add_time
restart now t = record t { expiration = if t.repeat then add_time now t.interval else invalid }

abbrev pub Heap : Type 0
Heap = ℕ → Option Timer

abbrev pub put : Heap → ℕ → Option Timer → Heap
put h a o = λ b. if a == b then o else h b

-- `armed` is the expiration that the timerfd was last set to, `created` is `num_created_`.
pub record TimerQueue : Type 0 where
  pub heap : Heap
  pub timers : List Entry
  pub active : List (ℕ × ℕ)
  pub canceling : List ℕ
  pub calling : Bool
  pub armed : Option TimerStamp
  pub created : ℕ

-- assert(timers_.size() == active_timers_.size())
abbrev pub assert_sizes : List Entry → List (ℕ × ℕ) → Option (Unit {0})
assert_sizes ts m = if length ts == length m then some tt else none

abbrev pub is_earliest : TimerStamp → List Entry → Bool
is_earliest when [] = true
is_earliest when (e ∷ es) = ltb_ℤ when e.when

unfoldable pub insert : TimerQueue → ℕ → Option (TimerQueue × Bool)
insert q timer = do
  assert_sizes q.timers q.active
  t ← q.heap timer
  let timers' = set_insert (record { when = t.expiration; timer = timer }) q.timers
  let active' = map_emplace t.sequence timer q.active
  assert_sizes timers' active'
  some (record q { timers = timers'; active = active' }, is_earliest t.expiration q.timers)

unfoldable pub add_timer_in_loop : TimerQueue → ℕ → Option TimerQueue
unfolding insert
add_timer_in_loop q timer = do
  r ← insert q timer
  t ← r.0.heap timer
  some (if r.1 then record r.0 { armed = some t.expiration } else r.0)

-- The constructor of Timer, at the address that `new` returns.
unfoldable pub new_timer : TimerQueue → ℕ → ℕ → TimerStamp → Seconds → TimerQueue
new_timer q address cb when interval = record q {
  heap = put q.heap address (
      some (record {
        callback = cb;
        expiration = when;
        interval = interval;
        repeat = interval.positive;
        sequence = q.created;
      }));
  created = q.created + 1;
}

-- Returns the sequence number.
unfoldable pub add_timer : TimerQueue → ℕ → ℕ → TimerStamp → Seconds → Option (TimerQueue × ℕ)
unfolding new_timer add_timer_in_loop
add_timer q address cb when interval = do
  q' ← add_timer_in_loop (new_timer q address cb when interval) address
  t ← q'.heap address
  some (q', t.sequence)

-- A timer that is not active is looked up at `end()`: while the callbacks run, that iterator is
-- read, which is undefined behaviour.
unfoldable pub cancel_in_loop : TimerQueue → ℕ → Option TimerQueue
cancel_in_loop q id = elim (find id q.active) [
  | some a ↦ do
    t ← q.heap a
    let timers' = set_erase (record { when = t.expiration; timer = a }) q.timers
    let active' = map_erase id q.active
    assert_sizes timers' active'
    some (record q { heap = put q.heap a none; timers = timers'; active = active' })
  | none ↦ do if q.calling then none else some tt; assert_sizes q.timers q.active; some q
]

-- TimerQueue::StopTimer.
abbrev pub stop_timer : TimerQueue → ℕ → Option TimerQueue
stop_timer q id = cancel_in_loop q id

-- The entry with the time `now` and the address UINTPTR_MAX.
abbrev pub sentry : TimerStamp → Entry
sentry now = record { when = now; timer = 0xffff_ffff_ffff_ffff }

-- The loop that erases the expired timers from `active_timers_`.
unfoldable pub erase_expired : Heap → List Entry → List (ℕ × ℕ) → Option (List (ℕ × ℕ))
erase_expired heap [] m = some m
erase_expired heap (e ∷ es) m = do t ← heap e.timer; erase_expired heap es (map_erase t.sequence m)

unfoldable pub get_expired : TimerQueue → TimerStamp → Option (TimerQueue × List Entry)
unfolding erase_expired
get_expired q now = do
  let expired = up_to (sentry now) q.timers
  let timers' = from (sentry now) q.timers
  active' ← erase_expired q.heap expired q.active
  assert_sizes timers' active'
  some (record q { timers = timers'; active = active' }, expired)

-- What a callback does to the queue.
pub data Action : Type 0 where
  add : ℕ → ℕ → TimerStamp → Seconds → Action
  stop : ℕ → Action

unfoldable pub act : TimerQueue → Action → Option TimerQueue
unfolding add_timer cancel_in_loop
act q (add address cb when interval) = do r ← add_timer q address cb when interval; some r.0
act q (stop id) = stop_timer q id

unfoldable pub act_all : TimerQueue → List Action → Option TimerQueue
unfolding act
act_all q [] = some q
act_all q (x ∷ xs) = do q' ← act q x; act_all q' xs

-- The loop that starts the expired timers; `script` says what the callback of a timer does now.
unfoldable pub start_all : (Timer → List Action) → TimerQueue → List Entry → Option TimerQueue
unfolding act_all
start_all script q [] = some q
start_all script q (e ∷ es) = do
  t ← q.heap e.timer
  q' ← act_all q (script t)
  start_all script q' es

abbrev pub mem : ℕ → List ℕ → Bool
mem k [] = false
mem k (x ∷ xs) = if x == k then true else mem k xs

-- One timer of Reset: started anew if it repeats and was not cancelled, else deleted.
unfoldable pub reset_one : TimerQueue → TimerStamp → ℕ → Option TimerQueue
unfolding restart insert
reset_one q now timer = do
  t ← q.heap timer
  let restarted = record q { heap = put q.heap timer (some (restart now t)) }
  let again = insert restarted timer >>= λ r. some r.0
  let gone = some (record q { heap = put q.heap timer none })
  if t.repeat && not (mem t.sequence q.canceling) then again else gone

unfoldable pub reset_all : TimerQueue → TimerStamp → List Entry → Option TimerQueue
unfolding reset_one
reset_all q now [] = some q
reset_all q now (e ∷ es) = do q' ← reset_one q now e.timer; reset_all q' now es

-- The end of Reset: the timerfd is set to the earliest time.
unfoldable pub rearm : TimerQueue → List Entry → Option TimerQueue
rearm q [] = some q
rearm q (e ∷ es) = do
  t ← q.heap e.timer
  some (if valid t.expiration then record q { armed = some t.expiration } else q)

unfoldable pub reset : TimerQueue → List Entry → TimerStamp → Option TimerQueue
unfolding reset_all rearm
reset q expired now = do q' ← reset_all q now expired; rearm q' q'.timers

unfoldable pub handle_read : (Timer → List Action) → TimerQueue → TimerStamp → Option TimerQueue
unfolding get_expired start_all reset
handle_read script q now = do
  r ← get_expired q now
  q' ← start_all script (record r.0 { calling = true; canceling = [] }) r.1
  reset (record q' { calling = false }) r.1 now

-- TimerQueue::TimerQueue. `calling` is not initialised there.
unfoldable pub empty : Bool → ℕ → TimerQueue
empty garbage created = record {
  heap = λ a. none;
  timers = [];
  active = [];
  canceling = [];
  calling = garbage;
  armed = none;
  created = created;
}
