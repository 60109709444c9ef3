-- ===== src/Timer/Queue/Ending.antt =====
-- The destructor of TimerQueue in timerfd/timer_queue.cpp.
use algo.Prelude.{
  ℕ, ◌≡◌, ◌≢◌, refl, ◌∙◌, inl, inr, true, Option, none, some, List, [], ◌∷◌, arith, ==_ne,
  Bool-cases,
}
use algo.Timer.Containers.{Entry, same, has}
use algo.Timer.Containers.Laws.{IsSorted, Above, same_refl, same_eq, Above-has}
use algo.Timer.Queue.{Timer, Heap, put, TimerQueue}
use algo.Timer.Queue.Invariant.{IsValid}
use algo.Channel.{Epoll, ChannelTimer, no_events, with_events, close_channel}
use algo.Channel.Laws.{IsKnown, CanAdd, close_channel_lem}

-- The loop that deletes the timers; none stands for a `delete` of what is not there.
unfoldable pub delete_all : Heap → List Entry → Option Heap
delete_all h [] = some h
delete_all h (e ∷ es) = elim (h e.timer) [
  | none ↦ none
  | some t ↦ delete_all (put h e.timer none) es
]

-- The channel is closed, with its descriptor, and then the timers are deleted.
unfoldable pub destroy_queue :
    (E : Epoll) → E.Interest → ℕ → ChannelTimer → TimerQueue → Option (E.Interest × Heap)
destroy_queue E s address channel q = elim (delete_all q.heap q.timers) [
  | none ↦ none
  | some h ↦ some ((close_channel E s address channel).0, h)
]

-- Each entry is one of a timer that is there, under its time.
abbrev AreThere : Heap → List Entry → Type 0
AreThere h es =
    (e : Entry) → has e es ≡ true → (t : Timer) × (h e.timer ≡ some t) × (t.expiration ≡ e.when)

-- Of two entries one has another timer.
other_timer :
    (h : Heap) (e x : Entry) (es : List Entry)
    → AreThere h (e ∷ es)
    → Above e es
    → has x es ≡ true
    → e.timer ≢ x.timer
unfolding has
other_timer h e x es there above hx eq =
    let (t, et, xt) = there e (ground (arith, same_refl e)) in
    let (u, eu, xu) = there x (ground arith) in
    let same_entry : e ≡ x = ground arith in absurd (ground (arith, Above-has e es above))

-- The timers of the entries are deleted, and nothing else is.
abbrev pub Deletes : Heap → List Entry → Heap → Type 0
Deletes h es h' =
    ((e : Entry) → has e es ≡ true → h' e.timer ≡ none)
    × ((a : ℕ) → ((e : Entry) → has e es ≡ true → e.timer ≢ a) → h' a ≡ h a)

delete_all-Deletes :
    (h : Heap) (es : List Entry)
    → IsSorted es
    → AreThere h es
    → (h' : Heap) × (delete_all h es ≡ some h') × Deletes h es h'
unfolding delete_all has
delete_all-Deletes h [] s there = (h, refl, ((λ e i. absurd (ground arith)), λ a n. refl))
delete_all-Deletes h (e ∷ es) s there =
    let (t, et, xt) = there e (ground (arith, same_refl e)) in
    let ne = λ (x : Entry) (i : has x es ≡ true). other_timer h e x es there s.0 i in
    let (h', run, (gone, kept)) = delete_all-Deletes (put h e.timer none) es s.1 (λ x i.
      let (u, eu, xu) = there x (ground arith) in
      (u, rw (==_ne e.timer x.timer (ne x i)) eu, xu)) in
    (
      h',
      rw (et, delete_all) run,
      (
        (λ x i. elim (Bool-cases (same x e)) [
          | inl here ↦
              kept x.timer (λ y j q. ne y j (ground (arith, same_eq x e here)))
              ∙ ground (arith, same_eq x e here)
          | inr there' ↦ gone x (ground arith)
        ]),
        λ a n.
            kept a (λ x i. n x (ground arith))
            ∙ rw (==_ne e.timer a (n e (ground (arith, same_refl e)))) refl,
      ),
    )

-- The destructor of a well-formed queue, whose channel knows whether its descriptor is watched and may
-- watch it, deletes every timer that waits, each once and while it is there, and no other object; and
-- the descriptor is off the interest list, whose other descriptors stay.
pub destroy_queue_lem :
    (E : Epoll) (s : E.Interest) (address : ℕ) (channel : ChannelTimer) (q : TimerQueue)
    → IsValid q []
    → IsKnown E s channel
    → CanAdd E s address (with_events E channel no_events)
    → (s' : E.Interest) × (h : Heap) × (destroy_queue E s address channel q ≡ some (s', h))
      × Deletes q.heap q.timers h
      × (E.watched s' channel.fd ≡ none)
      × ((k : ℕ) → k ≢ channel.fd → E.watched s' k ≡ E.watched s k)
unfolding destroy_queue
destroy_queue_lem E s address channel q v known can =
    let (h, run, deletes) =
      delete_all-Deletes q.heap q.timers v.sorted
        (λ e i. let (t, et, xt, ft) = v.tracked e i in (t, et, xt)) in
    let (closed, off, others) = close_channel_lem E s address channel known can in
    ((close_channel E s address channel).0, h, rw (run, destroy_queue) refl, deletes, off, others)
