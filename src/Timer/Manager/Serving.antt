-- ===== src/Timer/Manager/Serving.antt =====
-- A pass of the loop of a TimerEventMgr (timerfd/timer_loop_mgr.cpp), channel by channel.
use algo.Prelude.{
  ℕ, ◌≡◌, ◌⊎◌, refl, sym, subst, ap, inl, inr, arith, Bool, true, false, Option, none, some, List,
  [], ◌∷◌, ◌==◌, Bool-cases,
}
use algo.Timer.Stamp.{TimerStamp}
use algo.Timer.Containers.{Entry}
use algo.Timer.Queue.{Timer, TimerQueue, Action, handle_read, get_expired}
use algo.Timer.Queue.Invariant.{IsValid, aside-IsValid}
use algo.Timer.Queue.Expired.{IsAddressed}
use algo.Timer.Queue.Callbacks.{ScriptIsFine}
use algo.Timer.Manager.Armed.{IsArmed, IsDated, handle_read-IsArmed}
use algo.Timer.Manager.Loop
use algo.Timer.Manager.Loop.{
  TimerEventMgr, only_read, read_timerfd, run_callbacks, handle_channel, handle_active, pass, Event,
  at_time, after_time, every_time, stop_one, quit_loop, look, step, run, timer_event_mgr,
}
use algo.Channel.{Events, ChannelTimer, on_close, on_error, on_read, on_write, handle_event}
use algo.Channel.Loop.{Channels, put}

-- What is kept of the queue: it is well-formed, and the timerfd is set for all that waits.
abbrev pub Serves : TimerQueue → Type 0
Serves q = IsValid q [] × IsAddressed q.heap × IsArmed q

abbrev pub IsReader : Option ChannelTimer → Type 0
IsReader o = (ch : ChannelTimer) × (o ≡ some ch) × (ch.has_callback ≡ only_read)

handle_event_reader :
    (ch : ChannelTimer)
    → ch.has_callback ≡ only_read
    → (handle_event ch ≡ []) ⊎ (handle_event ch ≡ on_read ∷ [])
unfolding handle_event
handle_event_reader ch e = ground (
  arith,
  ap (λ f. f on_close) e,
  ap (λ f. f on_error) e,
  ap (λ f. f on_read) e,
  ap (λ f. f on_write) e,
)

-- What a HandleRead needs: callbacks that stop only what is active, and valid times behind it.
abbrev pub CanRead : (Timer → List Action) → TimerStamp → Bool → TimerQueue → Type 0
CanRead script now expired q =
    ((p : TimerQueue) (es : List Entry)
      → get_expired (read_timerfd expired q) now ≡ some (p, es)
      → ScriptIsFine script (record p { calling = true; canceling = [] }) es)
    × ((r : TimerQueue) → handle_read script (read_timerfd expired q) now ≡ some r → IsDated r)

read_timerfd-IsValid :
    (expired : Bool) (q : TimerQueue) → IsValid q [] → IsValid (read_timerfd expired q) []
read_timerfd-IsValid false q v = v
read_timerfd-IsValid true q v = aside-IsValid none q.calling q.canceling v

read_timerfd-heap :
    (expired : Bool) (q : TimerQueue)
    → IsAddressed q.heap
    → IsAddressed (read_timerfd expired q).heap
read_timerfd-heap false q ad = ad
read_timerfd-heap true q ad = ad

handle_channel-Serves :
    (script : Timer → List Action) (now : TimerStamp) (expired : Bool) (m : TimerEventMgr) (p : ℕ)
    → IsReader (m.channels p)
    → (p ≡ m.timing → CanRead script now expired m.queue)
    → Serves m.queue
    → (q : TimerQueue) × (handle_channel script now expired m p ≡ some (record m { queue = q }))
      × Serves q
unfolding handle_channel run_callbacks Loop.run_callback
handle_channel-Serves script now expired m p (ch, found, reader) can (v, ad, set) =
    elim (handle_event_reader ch reader) [
      | inl quiet ↦ (m.queue, rw (found, handle_channel, quiet) refl, (v, ad, set))
      | inr reads ↦ elim (Bool-cases (p == m.timing)) [
        | inl timing ↦
            let (fine, dated) = can (ground (arith, timing)) in
            let (r, run, v', ad', set') =
              handle_read-IsArmed script (read_timerfd expired m.queue) now
                (read_timerfd-IsValid expired m.queue v) (read_timerfd-heap expired m.queue ad) fine
                dated in
            (r, rw (found, handle_channel, reads, timing, run) refl, (v', ad', set'))
        | inr other ↦ (m.queue, rw (found, handle_channel, reads, other) refl, (v, ad, set))
      ]
    ]

pub put-IsReader :
    (h : Channels) (k p : ℕ) (ch : ChannelTimer)
    → ch.has_callback ≡ only_read
    → IsReader (h p)
    → IsReader (put h k ch p)
put-IsReader h k p ch e r = elim (Bool-cases (k == p)) [
  | inl here ↦ (ch, rw here refl, e)
  | inr other ↦ let (c, at, e') = r in (c, rw other at, e')
]

-- The kernel reports the pointers of the two channels only.
abbrev pub AreOurs : ℕ → ℕ → List (ℕ × Events) → Type 0
AreOurs wakeup timing [] = Unit {0}
AreOurs wakeup timing ((p, e) ∷ rest) = ((p ≡ wakeup) ⊎ (p ≡ timing)) × AreOurs wakeup timing rest

abbrev pub AreReaders : TimerEventMgr → Type 0
AreReaders m = IsReader (m.channels m.wakeup) × IsReader (m.channels m.timing)

pub IsReader-ours :
    (m : TimerEventMgr) (p : ℕ)
    → AreReaders m
    → ((p ≡ m.wakeup) ⊎ (p ≡ m.timing))
    → IsReader (m.channels p)
IsReader-ours m p (r, r') (inl e) = subst (λ k. IsReader (m.channels k)) (sym e) r
IsReader-ours m p (r, r') (inr e) = subst (λ k. IsReader (m.channels k)) (sym e) r'

abbrev pub AreTheirs : ℕ → ℕ → List ℕ → Type 0
AreTheirs wakeup timing [] = Unit {0}
AreTheirs wakeup timing (p ∷ ps) = ((p ≡ wakeup) ⊎ (p ≡ timing)) × AreTheirs wakeup timing ps

-- Each HandleRead of the pass can be done where it comes.
abbrev pub CanReadAll : (Timer → List Action) → TimerStamp → Bool → TimerEventMgr → List ℕ → Type 0
CanReadAll script now expired m [] = Unit {0}
CanReadAll script now expired m (p ∷ ps) =
    (p ≡ m.timing → CanRead script now expired m.queue)
    × ((m' : TimerEventMgr)
        → handle_channel script now expired m p ≡ some m'
        → CanReadAll script now expired m' ps)

pub handle_active-Serves :
    (script : Timer → List Action) (now : TimerStamp) (expired : Bool) (m : TimerEventMgr)
    (ps : List ℕ)
    → AreReaders m
    → AreTheirs m.wakeup m.timing ps
    → CanReadAll script now expired m ps
    → Serves m.queue
    → (q : TimerQueue) × (handle_active script now expired m ps ≡ some (record m { queue = q }))
      × Serves q
unfolding handle_active
handle_active-Serves script now expired m [] rs hs can s = (m.queue, refl, s)
handle_active-Serves script now expired m (p ∷ ps) rs hs can s =
    let (q, run, s') =
      handle_channel-Serves script now expired m p (IsReader-ours m p rs hs.0) can.0 s in
    let m' : TimerEventMgr = record m { queue = q } in
    let (q', run', s'') = handle_active-Serves script now expired m' ps rs hs.1 (can.1 m' run) s' in
    (q', rw (run, handle_active) run', s'')
