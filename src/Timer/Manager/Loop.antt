-- ===== src/Timer/Manager/Loop.antt =====
-- TimerEventMgr of timerfd/timer_loop_mgr.cpp: its two channels, its loop and its calls. A pass of
-- the loop and a call of another thread are each taken whole, one after the other.
use algo.Prelude.{
  ℕ, ◌>>=◌, Bool, true, false, Option, none, some, List, [], ◌∷◌, ◌==◌, if◌then◌else◌,
}
use algo.Timer.Stamp.{TimerStamp, Seconds}
use algo.Timer.Queue.{Timer, TimerQueue, Action, empty, stop_timer, handle_read}
use algo.Timer.Manager.{addtimer_at_time, addtimer_after_time, addtimer_every_time}
use algo.Channel.{
  Events, ChannelTimer, Callback, on_close, on_error, on_read, on_write, Epoll, fresh_channel,
  enable_reading, handle_event,
}
use algo.Channel.Loop.{Channels, put, wait_active}

-- `wakeup` and `timing` are the addresses of the channels of the eventfd and the timerfd.
pub record TimerEventMgr : Type 0 where
  pub wakeup : ℕ
  pub timing : ℕ
  pub channels : Channels
  pub queue : TimerQueue
  pub quit : Bool

-- A callback for reading is set, and no other.
abbrev pub only_read : Callback → Bool
only_read on_read = true
only_read on_close = false
only_read on_error = false
only_read on_write = false

abbrev pub reading_channel : ℕ → ChannelTimer
reading_channel fd = record (fresh_channel fd) { has_callback = only_read }

-- The constructor, with the addresses and the descriptors of the channels; `calling` and `created`
-- are what the queue finds in `callingExpiredTimers_` and `num_created_`.
unfoldable pub timer_event_mgr :
    (E : Epoll) → E.Interest → ℕ → ℕ → ℕ → ℕ → Bool → ℕ → E.Interest × TimerEventMgr
timer_event_mgr E s wakeup wakeup_fd timing timer_fd calling created =
    let r = enable_reading E s timing (reading_channel timer_fd) in
    let r' = enable_reading E r.0 wakeup (reading_channel wakeup_fd) in
    (
      r'.0,
      record {
        wakeup = wakeup;
        timing = timing;
        channels = put (put (λ p. none) timing r.1) wakeup r'.1;
        queue = empty calling created;
        quit = false;
      },
    )

-- readTimerfd: a setting whose time has come is used up.
abbrev pub read_timerfd : Bool → TimerQueue → TimerQueue
read_timerfd expired q = if expired then record q { armed = none } else q

-- The read callbacks: that of the timerfd is HandleRead of the queue at the clock's value, that of
-- the eventfd reads its count, which nothing else looks at.
unfoldable pub run_callback :
    (Timer → List Action) → TimerStamp → Bool → TimerEventMgr → ℕ → Callback → Option TimerEventMgr
run_callback script now expired m p on_read =
    if p == m.timing
    then (do
      q ← handle_read script (read_timerfd expired m.queue) now
      some (record m { queue = q }))
    else some m
run_callback script now expired m p on_close = some m
run_callback script now expired m p on_error = some m
run_callback script now expired m p on_write = some m

unfoldable pub run_callbacks :
    (Timer → List Action)
    → TimerStamp
    → Bool
    → TimerEventMgr
    → ℕ
    → List Callback
    → Option TimerEventMgr
run_callbacks script now expired m p [] = some m
run_callbacks script now expired m p (c ∷ cs) = do
  m' ← run_callback script now expired m p c
  run_callbacks script now expired m' p cs

-- A pass of the loop over `activeChannels_`; none stands for a pointer to nothing.
unfoldable pub handle_channel :
    (Timer → List Action) → TimerStamp → Bool → TimerEventMgr → ℕ → Option TimerEventMgr
handle_channel script now expired m p = do
  ch ← m.channels p
  run_callbacks script now expired m p (handle_event ch)

unfoldable pub handle_active :
    (Timer → List Action) → TimerStamp → Bool → TimerEventMgr → List ℕ → Option TimerEventMgr
handle_active script now expired m [] = some m
handle_active script now expired m (p ∷ ps) = do
  m' ← handle_channel script now expired m p
  handle_active script now expired m' ps

-- A pass of TimerLoop over what epoll_wait has reported.
unfoldable pub pass :
    (Timer → List Action)
    → TimerStamp
    → Bool
    → TimerEventMgr
    → List (ℕ × Events)
    → Option TimerEventMgr
pass script now expired m reported = do
  r ← wait_active m.channels reported
  handle_active script now expired (record m { channels = r.0 }) r.1

-- What happens to the manager: the calls of its methods, with an address for a new timer and a value
-- of the clock, and the passes of the loop.
pub data Event : Type 0 where
  at_time : ℕ → TimerStamp → ℕ → Event
  after_time : ℕ → TimerStamp → Seconds → ℕ → Event
  every_time : ℕ → TimerStamp → Seconds → ℕ → Event
  stop_one : ℕ → Event
  quit_loop : Event
  look : List (ℕ × Events) → TimerStamp → Bool → Event

abbrev pub with_queue : TimerEventMgr → Option (TimerQueue × ℕ) → Option TimerEventMgr
with_queue m none = none
with_queue m (some r) = some (record m { queue = r.0 })

-- Behind QuitLoop there is no further pass. A QuitLoop that comes before the thread of the loop has
-- started, which TimerLoop overwrites, is left out.
unfoldable pub step : (Timer → List Action) → TimerEventMgr → Event → Option TimerEventMgr
step script m (at_time a time cb) = with_queue m (addtimer_at_time m.queue a time cb)
step script m (after_time a now delay cb) =
    with_queue m (addtimer_after_time m.queue a now delay cb)
step script m (every_time a now interval cb) =
    with_queue m (addtimer_every_time m.queue a now interval cb)
step script m (stop_one id) = do q ← stop_timer m.queue id; some (record m { queue = q })
step script m quit_loop = some (record m { quit = true })
step script m (look reported now expired) =
    if m.quit then some m else pass script now expired m reported

unfoldable pub run : (Timer → List Action) → TimerEventMgr → List Event → Option TimerEventMgr
run script m [] = some m
run script m (x ∷ xs) = do m' ← step script m x; run script m' xs
