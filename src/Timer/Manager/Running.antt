-- ===== src/Timer/Manager/Running.antt =====
-- Any sequence of calls of a TimerEventMgr and passes of its loop (timerfd/timer_loop_mgr.cpp).
use algo.Prelude.{
  ℕ, ◌≤◌, ◌≡◌, ◌≢◌, refl, ◌∙◌, ap, Bool, true, none, some, List, [], ◌∷◌, if◌then◌else◌, Bool-cases,
  ==_refl, ==_ne, arith, inl, inr,
}
use algo.Timer.Stamp.{TimerStamp, add_time}
use algo.Timer.Containers.{has, find}
use algo.Timer.Queue.{Timer, Action, empty}
use algo.Timer.Queue.Invariant.{IsValid}
use algo.Timer.Manager.{addtimer_at_time, addtimer_after_time, addtimer_every_time, no_interval}
use algo.Timer.Manager.Armed.{IsArmed, add_timer-IsArmed, stop_timer-IsArmed}
use algo.Timer.Manager.Loop.{
  TimerEventMgr, reading_channel, pass, Event, at_time, after_time, every_time, stop_one, quit_loop,
  look, step, run, timer_event_mgr,
}
use algo.Timer.Manager.Serving.{
  Serves, AreReaders, AreOurs, AreTheirs, CanReadAll, put-IsReader, IsReader-ours,
  handle_active-Serves,
}
use algo.Channel.{Events, Epoll, enable_reading, update_channel}
use algo.Channel.Loop.{Channels, put, set_revents, wait_active}

abbrev with_channels : TimerEventMgr → Channels → TimerEventMgr
with_channels m h = record m { channels = h }

wait_active-AreReaders :
    (m : TimerEventMgr) (reported : List (ℕ × Events))
    → AreReaders m
    → AreOurs m.wakeup m.timing reported
    → (h : Channels) × (ps : List ℕ) × (wait_active m.channels reported ≡ some (h, ps))
      × AreReaders (with_channels m h)
      × AreTheirs m.wakeup m.timing ps
unfolding wait_active
wait_active-AreReaders m [] rs ours = (m.channels, [], refl, rs, tt)
wait_active-AreReaders m ((p, e) ∷ rest) rs ours =
    let (ch, found, reader) = IsReader-ours m p rs ours.0 in
    let m' = with_channels m (put m.channels p (set_revents ch e)) in
    let (h, ps, run, rs', hs) =
      wait_active-AreReaders m' rest
        (
          put-IsReader m.channels p m.wakeup (set_revents ch e) reader rs.0,
          put-IsReader m.channels p m.timing (set_revents ch e) reader rs.1,
        )
        ours.1 in
    (h, p ∷ ps, rw (found, wait_active, run) refl, rs', (ours.0, hs))

-- What a call or a pass needs: `new` finds room, StopTimer is given an active timer, and epoll
-- reports the two channels, whose reads can be done.
abbrev pub IsFit : (Timer → List Action) → TimerEventMgr → Event → Type 0
IsFit script m (at_time a time cb) = (m.queue.heap a ≡ none) × (a ≤ 0xffff_ffff_ffff_ffff)
IsFit script m (after_time a now delay cb) = (m.queue.heap a ≡ none) × (a ≤ 0xffff_ffff_ffff_ffff)
IsFit script m (every_time a now interval cb) =
    (m.queue.heap a ≡ none) × (a ≤ 0xffff_ffff_ffff_ffff)
IsFit script m (stop_one id) = (a : ℕ) × (find id m.queue.active ≡ some a)
IsFit script m quit_loop = Unit {0}
IsFit script m (look reported now expired) =
    AreOurs m.wakeup m.timing reported
    × ((h : Channels) (ps : List ℕ)
        → wait_active m.channels reported ≡ some (h, ps)
        → CanReadAll script now expired (record m { channels = h }) ps)

abbrev pub AreFit : (Timer → List Action) → TimerEventMgr → List Event → Type 0
AreFit script m [] = Unit {0}
AreFit script m (x ∷ xs) =
    IsFit script m x × ((m' : TimerEventMgr) → step script m x ≡ some m' → AreFit script m' xs)

pass-Serves :
    (script : Timer → List Action) (m : TimerEventMgr) (reported : List (ℕ × Events))
    (now : TimerStamp) (expired : Bool)
    → AreReaders m
    → Serves m.queue
    → IsFit script m (look reported now expired)
    → (m' : TimerEventMgr) × (pass script now expired m reported ≡ some m')
      × AreReaders m'
      × Serves m'.queue
unfolding pass
pass-Serves script m reported now expired rs s (ours, can) =
    let (h, ps, waited, rs', hs) = wait_active-AreReaders m reported rs ours in
    let (q, ran, s') =
      handle_active-Serves script now expired (record m { channels = h }) ps rs' hs
        (can h ps waited) s in
    (record m { channels = h; queue = q }, rw waited ran, rs', s')

step-Serves :
    (script : Timer → List Action) (m : TimerEventMgr) (x : Event)
    → AreReaders m
    → Serves m.queue
    → IsFit script m x
    → (m' : TimerEventMgr) × (step script m x ≡ some m') × AreReaders m' × Serves m'.queue
unfolding step addtimer_at_time addtimer_after_time addtimer_every_time
step-Serves script m (at_time a time cb) rs (v, ad, set) (fresh, room) =
    let (q, n, run, v', ad', set') =
      add_timer-IsArmed m.queue a cb time no_interval v ad set fresh room in
    (record m { queue = q }, rw run refl, rs, (v', ad', set'))
step-Serves script m (after_time a now delay cb) rs (v, ad, set) (fresh, room) =
    let (q, n, run, v', ad', set') =
      add_timer-IsArmed m.queue a cb (add_time now delay) no_interval v ad set fresh room in
    (record m { queue = q }, rw run refl, rs, (v', ad', set'))
step-Serves script m (every_time a now interval cb) rs (v, ad, set) (fresh, room) =
    let (q, n, run, v', ad', set') =
      add_timer-IsArmed m.queue a cb (add_time now interval) interval v ad set fresh room in
    (record m { queue = q }, rw run refl, rs, (v', ad', set'))
step-Serves script m (stop_one id) rs (v, ad, set) (a, found) =
    let (q, run, v', ad', set') = stop_timer-IsArmed m.queue id a v ad set found in
    (record m { queue = q }, rw run refl, rs, (v', ad', set'))
step-Serves script m quit_loop rs s fit = (record m { quit = true }, refl, rs, s)
step-Serves script m (look reported now expired) rs s (ours, can) = elim (Bool-cases m.quit) [
  | inl ended ↦ (m, rw ended refl, rs, s)
  | inr on ↦
      let (m', ran, rs', s') = pass-Serves script m reported now expired rs s (ours, can) in
      (m', ap (λ b. if b then some m else pass script now expired m reported) on ∙ ran, rs', s')
]

run-Serves :
    (script : Timer → List Action) (m : TimerEventMgr) (xs : List Event)
    → AreReaders m
    → Serves m.queue
    → AreFit script m xs
    → (m' : TimerEventMgr) × (run script m xs ≡ some m') × Serves m'.queue
unfolding run
run-Serves script m [] rs s fit = (m, refl, s)
run-Serves script m (x ∷ xs) rs s fit =
    let (m', ran, rs', s') = step-Serves script m x rs s fit.0 in
    let (m'', run', s'') = run-Serves script m' xs rs' s' (fit.1 m' ran) in
    (m'', rw (ran, run) run', s'')

empty-Serves : (calling : Bool) (created : ℕ) → Serves (empty calling created)
unfolding empty has find
empty-Serves calling created = (
  record {
    sorted = tt;
    keys = tt;
    sizes = refl;
    old = λ a t e. cc;
    unique = λ a b t u e f g. cc;
    tracked = λ e h. absurd (ground arith);
    backed = λ k a h. absurd (ground arith);
    flying = tt;
  },
  (λ a t e. cc),
  λ e h. absurd (ground arith),
)

new-AreReaders :
    (E : Epoll) (s : E.Interest) (wakeup wakeup_fd timing timer_fd : ℕ) (calling : Bool)
    (created : ℕ)
    → wakeup ≢ timing
    → AreReaders (timer_event_mgr E s wakeup wakeup_fd timing timer_fd calling created).1
unfolding timer_event_mgr update_channel
new-AreReaders E s wakeup wakeup_fd timing timer_fd calling created ne =
    let r = enable_reading E s timing (reading_channel timer_fd) in
    let r' = enable_reading E r.0 wakeup (reading_channel wakeup_fd) in
    (
      (r'.1, rw (==_refl wakeup) refl, refl),
      (r.1, rw (==_ne wakeup timing ne, ==_refl timing) refl, refl),
    )

new-Serves :
    (E : Epoll) (s : E.Interest) (wakeup wakeup_fd timing timer_fd : ℕ) (calling : Bool)
    (created : ℕ)
    → Serves (timer_event_mgr E s wakeup wakeup_fd timing timer_fd calling created).1.queue
unfolding timer_event_mgr
new-Serves E s wakeup wakeup_fd timing timer_fd calling created = empty-Serves calling created

-- A TimerEventMgr forgets no timer. From its constructor on, any sequence of calls that add timers,
-- stop active ones or end the loop, and of passes of the loop with the callbacks of their timers, runs
-- without an assertion failing or undefined behaviour, if each call and pass is taken whole, `new`
-- finds room, epoll reports the two channels only, callbacks stop only active timers, and no timer
-- waits for an invalid time behind a read. At its end the queue is well-formed, and if a timer waits
-- then the timerfd is set, to a time that is not after that of any timer that waits.
pub manager_lem :
    (E : Epoll) (s : E.Interest) (wakeup wakeup_fd timing timer_fd : ℕ) (calling : Bool)
    (created : ℕ) (script : Timer → List Action) (xs : List Event)
    → wakeup ≢ timing
    → let m = (timer_event_mgr E s wakeup wakeup_fd timing timer_fd calling created).1 in
      AreFit script m xs
      → (m' : TimerEventMgr) × (run script m xs ≡ some m') × IsValid m'.queue [] × IsArmed m'.queue
manager_lem E s wakeup wakeup_fd timing timer_fd calling created script xs ne fit =
    let m = (timer_event_mgr E s wakeup wakeup_fd timing timer_fd calling created).1 in
    let (m', ran, (v, ad, set)) =
      run-Serves script m xs
        (new-AreReaders E s wakeup wakeup_fd timing timer_fd calling created ne)
        (new-Serves E s wakeup wakeup_fd timing timer_fd calling created) fit in
    (m', ran, v, set)
