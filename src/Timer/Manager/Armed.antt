-- ===== src/Timer/Manager/Armed.antt =====
-- What the timerfd of a TimerQueue (timerfd/timer_queue.cpp) is set to, whatever the operation.
use algo.Prelude.{
  ℕ, ◌≤◌, ◌≡◌, refl, sym, ap, ◌∙◌, inl, inr, arith, ◌||◌, true, false, Option, none, some, List, [],
  ◌∷◌, if◌then◌else◌, Bool-cases,
}
use algo.Prelude.Int.{ltb_ℤ}
use algo.Timer.Stamp.{TimerStamp, Seconds, valid}
use algo.Timer.Containers.{Entry, before, same, has, find}
use algo.Timer.Containers.Laws.{IsSorted, Above, same_refl, same_eq, has-set_insert, has-set_erase}
use algo.Timer.Queue.{
  Timer, TimerQueue, Action, add_timer, is_earliest, stop_timer, handle_read, get_expired,
}
use algo.Timer.Queue.Invariant.{IsValid, entry_of}
use algo.Timer.Queue.Adding.{added, add_timer_lem, add_timer-timers}
use algo.Timer.Queue.Expired.{IsAddressed}
use algo.Timer.Queue.Reset.{armed_after}
use algo.Timer.Queue.Cancel.{cancelled, cancel_runs, cancelled-IsValid}
use algo.Timer.Queue.Callbacks.{ScriptIsFine, IsAddressed-put}
use algo.Timer.Queue.Reading.{handle_read_lem}

-- The timerfd is set to a time that is not after that of any timer in the queue.
abbrev pub IsArmed : TimerQueue → Type 0
IsArmed q =
    (e : Entry)
    → has e q.timers ≡ true
    → (t : TimerStamp) × (q.armed ≡ some t) × (ltb_ℤ e.when t ≡ false)

-- The timers in the queue wait for valid times.
abbrev pub IsDated : TimerQueue → Type 0
IsDated q = (e : Entry) → has e q.timers ≡ true → valid e.when ≡ true

before_when : (x y : Entry) → before x y ≡ true → ltb_ℤ y.when x.when ≡ false
unfolding before
before_when x y h = ground arith

Above-when :
    (x y : Entry) (xs : List Entry) → Above x xs → has y xs ≡ true → ltb_ℤ y.when x.when ≡ false
unfolding has
Above-when x y [] a h = absurd (ground arith)
Above-when x y (z ∷ zs) a h = elim (Bool-cases (same y z)) [
  | inl here ↦ ground (arith, same_eq y z here, before_when x z a.0)
  | inr there ↦ Above-when x y zs a.1 (ground arith)
]

first_when :
    (x y : Entry) (xs : List Entry)
    → IsSorted (x ∷ xs)
    → has y (x ∷ xs) ≡ true
    → ltb_ℤ y.when x.when ≡ false
unfolding has
first_when x y xs s h = elim (Bool-cases (same y x)) [
  | inl here ↦ ground (arith, same_eq y x here)
  | inr there ↦ Above-when x y xs s.0 (ground arith)
]

armed_by :
    (armed : Option TimerStamp) (ts : List Entry)
    → IsSorted ts
    → ((e : Entry) → has e ts ≡ true → valid e.when ≡ true)
    → (e : Entry) → has e ts ≡ true
    → (t : TimerStamp) × (armed_after armed ts ≡ some t) × (ltb_ℤ e.when t ≡ false)
unfolding has
armed_by armed [] s d e h = absurd (ground arith)
armed_by armed (x ∷ xs) s d e h =
    (x.when, rw (d x (ground (arith, same_refl x))) refl, first_when x e xs s h)

-- Behind HandleRead the timerfd is set for what waits then.
pub handle_read-IsArmed :
    (script : Timer → List Action) (q : TimerQueue) (now : TimerStamp)
    → IsValid q []
    → IsAddressed q.heap
    → ((p : TimerQueue) (es : List Entry)
        → get_expired q now ≡ some (p, es)
        → ScriptIsFine script (record p { calling = true; canceling = [] }) es)
    → ((r : TimerQueue) → handle_read script q now ≡ some r → IsDated r)
    → (r : TimerQueue) × (handle_read script q now ≡ some r)
      × IsValid r []
      × IsAddressed r.heap
      × IsArmed r
handle_read-IsArmed script q now v ad fine dated =
    let (r, es, later, armed, run, w, split, due, late, fates, set, ad') =
      handle_read_lem script q now v ad fine in
    (
      r,
      run,
      w,
      ad',
      λ e h.
          let (t, is_t, no_later) = armed_by armed r.timers w.sorted (dated r run) e h in
          (t, set ∙ is_t, no_later),
    )

earliest_arms :
    (armed : Option TimerStamp) (when : TimerStamp) (ts : List Entry)
    → ((e : Entry)
        → has e ts ≡ true
        → (t : TimerStamp) × (armed ≡ some t) × (ltb_ℤ e.when t ≡ false))
    → IsSorted ts
    → let armed' = if is_earliest when ts then some when else armed in
      ((t : TimerStamp) × (armed' ≡ some t) × (ltb_ℤ when t ≡ false))
      × ((e : Entry)
          → has e ts ≡ true
          → (t : TimerStamp) × (armed' ≡ some t) × (ltb_ℤ e.when t ≡ false))
unfolding has
earliest_arms armed when [] set s = ((when, refl, ground arith), λ e h. absurd (ground arith))
earliest_arms armed when (x ∷ xs) set s = elim (Bool-cases (ltb_ℤ when x.when)) [
  | inl sooner ↦ (
    (when, rw sooner refl, ground arith),
    λ e h. (when, rw sooner refl, ground (arith, first_when x e xs s h)),
  )
  | inr later ↦
      let (t, is_t, no_later) = set x (ground (arith, same_refl x)) in
      (
        (t, rw later is_t, ground arith),
        λ e h. let (u, is_u, no_later') = set e h in (u, rw later is_u, no_later'),
      )
]

-- AddTimer keeps it so.
pub add_timer-IsArmed :
    (q : TimerQueue) (a cb : ℕ) (when : TimerStamp) (interval : Seconds)
    → IsValid q []
    → IsAddressed q.heap
    → IsArmed q
    → q.heap a ≡ none
    → a ≤ 0xffff_ffff_ffff_ffff
    → (q' : TimerQueue) × (n : ℕ) × (add_timer q a cb when interval ≡ some (q', n))
      × IsValid q' []
      × IsAddressed q'.heap
      × IsArmed q'
add_timer-IsArmed q a cb when interval v ad set fresh room =
    let (q', run, v', heap, found, there, c, armed) =
      add_timer_lem q [] v a cb when interval fresh in
    let new = entry_of a (added q.created cb when interval) in
    let ts = add_timer-timers q [] v a cb when interval fresh q' q.created run in
    let (own, others) = earliest_arms q.armed when q.timers set v.sorted in
    (
      q',
      q.created,
      run,
      v',
      (λ b u eu.
          IsAddressed-put q.heap a (added q.created cb when interval) ad room b u (rw heap at eu)),
      λ e h.
          let both : (same e new || has e q.timers) ≡ true =
            sym (has-set_insert e new q.timers) ∙ ap (has e) (sym ts) ∙ h in
          elim (Bool-cases (same e new)) [
            | inl is_new ↦
                let (t, is_t, no_later) = own in
                (t, armed ∙ is_t, ground (arith, same_eq e new is_new))
            | inr is_old ↦
                let (t, is_t, no_later) = others e (ground arith) in (t, armed ∙ is_t, no_later)
          ],
    )

-- So does StopTimer of an active timer.
pub stop_timer-IsArmed :
    (q : TimerQueue) (id a : ℕ)
    → IsValid q []
    → IsAddressed q.heap
    → IsArmed q
    → find id q.active ≡ some a
    → (q' : TimerQueue) × (stop_timer q id ≡ some q')
      × IsValid q' []
      × IsAddressed q'.heap
      × IsArmed q'
stop_timer-IsArmed q id a v ad set found =
    let (t, e, s, h) = v.backed id a found in
    (
      cancelled q [] v id a found t,
      cancel_runs q [] v id a found t e h,
      cancelled-IsValid q [] v id a found t e s h,
      (λ b u eu. ground (arith, ad b u)),
      λ x hx. set x (ground (arith, has-set_erase x (entry_of a t) q.timers v.sorted)),
    )
