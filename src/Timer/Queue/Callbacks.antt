-- ===== src/Timer/Queue/Callbacks.antt =====
-- The callbacks of expired timers, as HandleRead of timerfd/timer_queue.cpp starts them.
use algo.Prelude.{
  ℕ, ◌≤◌, ◌≡◌, inl, inr, refl, ◌∙◌, true, Option, none, some, List, [], ◌∷◌, Bool-cases, arith,
}
use algo.Timer.Containers.{Entry, same, has, find}
use algo.Timer.Containers.Laws.{same_refl, same_eq}
use algo.Timer.Queue.{Timer, Heap, put, TimerQueue, Action, add, stop, act, act_all, start_all}
use algo.Timer.Queue.Invariant.{IsValid, AreOut}
use algo.Timer.Queue.Adding.{added, add_timer_lem}
use algo.Timer.Queue.Cancel.{cancelled, cancel_runs, cancelled-IsValid}
use algo.Timer.Queue.Expired.{IsAddressed}

-- What a callback may do to a queue: add a timer where `new` finds room, and stop an active one.
abbrev pub IsFine : TimerQueue → Action → Type 0
IsFine q (add a cb when interval) = (q.heap a ≡ none) × (a ≤ 0xffff_ffff_ffff_ffff)
IsFine q (stop id) = (a : ℕ) × (find id q.active ≡ some a)

-- Each action is fine where it comes.
abbrev pub AreFine : TimerQueue → List Action → Type 0
AreFine q [] = Unit {0}
AreFine q (x ∷ xs) = IsFine q x × ((p : TimerQueue) → act q x ≡ some p → AreFine p xs)

-- And so for the callbacks of all expired timers.
abbrev pub ScriptIsFine : (Timer → List Action) → TimerQueue → List Entry → Type 0
ScriptIsFine script q [] = Unit {0}
ScriptIsFine script q (e ∷ es) =
    (t : Timer)
    → q.heap e.timer ≡ some t
    → AreFine q (script t)
      × ((p : TimerQueue) → act_all q (script t) ≡ some p → ScriptIsFine script p es)

pub AreOut-has :
    (h : Heap) (m : List (ℕ × ℕ)) (out : List Entry) (x : Entry)
    → AreOut h m out
    → has x out ≡ true
    → (t : Timer) × (h x.timer ≡ some t) × (find t.sequence m ≡ none)
unfolding has
AreOut-has h m [] x o e = absurd (ground arith)
AreOut-has h m (y ∷ ys) x ((t, et, ft), ni, o) e = elim (Bool-cases (same x y)) [
  | inl here ↦ (t, ground (arith, same_eq x y here), ft)
  | inr there ↦ AreOut-has h m ys x o (ground arith)
]

-- A run of queue operations keeps the queue well-formed, and the timers in work as they are.
abbrev pub Keeps : TimerQueue → List Entry → Option TimerQueue → Type 0
Keeps q out r =
    (p : TimerQueue) × (r ≡ some p)
    × IsValid p out
    × IsAddressed p.heap
    × (p.canceling ≡ q.canceling)
    × ((x : Entry) → has x out ≡ true → p.heap x.timer ≡ q.heap x.timer)

pub IsAddressed-put :
    (h : Heap) (a : ℕ) (t : Timer)
    → IsAddressed h
    → a ≤ 0xffff_ffff_ffff_ffff
    → IsAddressed (put h a (some t))
IsAddressed-put h a t ad room b u e = ground (arith, ad b u)

pub act_lem :
    (q : TimerQueue) (out : List Entry) (x : Action)
    → IsValid q out
    → IsAddressed q.heap
    → IsFine q x
    → Keeps q out (act q x)
unfolding act
act_lem q out (add a cb when interval) v ad (fresh, room) =
    let (p, run, w, hp, fp, kp, cc', armed) = add_timer_lem q out v a cb when interval fresh in
    (
      p,
      rw run refl,
      w,
      (λ b u eu.
          IsAddressed-put q.heap a (added q.created cb when interval) ad room b u (rw hp at eu)),
      cc',
      λ x hx.
          let (u, eu, fu) = AreOut-has q.heap q.active out x v.flying hx in rw hp (ground arith),
    )
act_lem q out (stop id) v ad (a, found) =
    let (t, e, s, h) = v.backed id a found in
    (
      cancelled q out v id a found t,
      cancel_runs q out v id a found t e h,
      cancelled-IsValid q out v id a found t e s h,
      (λ b u eu. ground (arith, ad b u)),
      refl,
      λ x hx. let (u, eu, fu) = AreOut-has q.heap q.active out x v.flying hx in ground arith,
    )

act_all_lem :
    (q : TimerQueue) (out : List Entry) (xs : List Action)
    → IsValid q out
    → IsAddressed q.heap
    → AreFine q xs
    → Keeps q out (act_all q xs)
unfolding act_all
act_all_lem q out [] v ad fine = (q, refl, v, ad, refl, λ x h. refl)
act_all_lem q out (x ∷ xs) v ad fine =
    let (p, run, w, ad', c, k) = act_lem q out x v ad fine.0 in
    let (r, run', w', ad'', c', k') = act_all_lem p out xs w ad' (fine.1 p run) in
    (r, rw (run, act_all) run', w', ad'', c' ∙ c, λ x h. k' x h ∙ k x h)

pub start_all_lem :
    (script : Timer → List Action) (q : TimerQueue) (out es : List Entry)
    → IsValid q out
    → IsAddressed q.heap
    → ((x : Entry) → has x es ≡ true → has x out ≡ true)
    → ScriptIsFine script q es
    → Keeps q out (start_all script q es)
unfolding start_all has
start_all_lem script q out [] v ad sub fine = (q, refl, v, ad, refl, λ x h. refl)
start_all_lem script q out (e ∷ es) v ad sub fine =
    let (t, et, ft) =
      AreOut-has q.heap q.active out e v.flying (sub e (ground (arith, same_refl e))) in
    let (p, run, w, ad', c, k) = act_all_lem q out (script t) v ad (fine t et).0 in
    let (r, run', w', ad'', c', k') =
      start_all_lem script p out es w ad' (λ x h. sub x (ground arith)) ((fine t et).1 p run) in
    (r, rw (et, run, start_all) run', w', ad'', c' ∙ c, λ x h. k' x h ∙ k x h)
