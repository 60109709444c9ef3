-- ===== src/Timer/Queue/StopSelf.antt =====
-- A callback that stops its own timer, in timerfd/timer_queue.cpp.
use algo.Prelude.{
  ◌≤◌, ◌≡◌, ◌⊎◌, inl, inr, refl, sym, ap, subst, ◌∙◌, true, false, Option, none, some, List, [],
  ◌∷◌, ◌++◌, arith, Bool-cases, Option-cases,
}
use algo.Prelude.Int.{ltb_ℤ}
use algo.Timer.Stamp.{TimerStamp}
use algo.Timer.Containers.{Entry, same, has, find}
use algo.Timer.Containers.Laws.{same_refl, same_eq}
use algo.Timer.Queue.{
  Timer, TimerQueue, Action, add, stop, act, act_all, start_all, cancel_in_loop, get_expired,
  handle_read,
}
use algo.Timer.Queue.Invariant.{IsValid, aside-IsValid}
use algo.Timer.Queue.Adding.{add_timer_lem, add_timer-calling}
use algo.Timer.Queue.Cancel.{cancelled, cancel_runs}
use algo.Timer.Queue.Expired.{IsAddressed, get_expired_lem}
use algo.Timer.Queue.Callbacks.{AreOut-has, act_lem}

-- While the callbacks run, to stop a timer that has expired is undefined behaviour.
stop_in_work :
    (q : TimerQueue) (out : List Entry) (x : Entry) (t : Timer)
    → IsValid q out
    → q.calling ≡ true
    → has x out ≡ true
    → q.heap x.timer ≡ some t
    → act q (stop t.sequence) ≡ none
unfolding act cancel_in_loop
stop_in_work q out x t v busy h et =
    let (u, eu, fu) = AreOut-has q.heap q.active out x v.flying h in
    let gone : find t.sequence q.active ≡ none = ground arith in
    rw (gone, cancel_in_loop) (ground arith)

-- What any callback meets: `new` gives it addresses that are free. It may stop any number.
abbrev pub HasRoom : TimerQueue → Action → Type 0
HasRoom q (add a cb when interval) = (q.heap a ≡ none) × (a ≤ 0xffff_ffff_ffff_ffff)
HasRoom q (stop id) = Unit {0}

abbrev pub HaveRoom : TimerQueue → List Action → Type 0
HaveRoom q [] = Unit {0}
HaveRoom q (x ∷ xs) = HasRoom q x × ((p : TimerQueue) → act q x ≡ some p → HaveRoom p xs)

abbrev pub ScriptHasRoom : (Timer → List Action) → TimerQueue → List Entry → Type 0
ScriptHasRoom script q [] = Unit {0}
ScriptHasRoom script q (e ∷ es) =
    (t : Timer)
    → q.heap e.timer ≡ some t
    → HaveRoom q (script t)
      × ((p : TimerQueue) → act_all q (script t) ≡ some p → ScriptHasRoom script p es)

-- A run during the callbacks either is undefined or goes on with a well-formed queue.
abbrev GoesOn : TimerQueue → List Entry → Option TimerQueue → Type 0
GoesOn q out r =
    (r ≡ none)
    ⊎ ((p : TimerQueue) × (r ≡ some p)
        × IsValid p out
        × IsAddressed p.heap
        × (p.calling ≡ true)
        × ((x : Entry) → has x out ≡ true → p.heap x.timer ≡ q.heap x.timer))

act-GoesOn :
    (q : TimerQueue) (out : List Entry) (x : Action)
    → IsValid q out
    → IsAddressed q.heap
    → q.calling ≡ true
    → HasRoom q x
    → GoesOn q out (act q x)
unfolding act cancel_in_loop
act-GoesOn q out (add a cb when interval) v ad busy room =
    let (p, run, w, ad', c, k) = act_lem q out (add a cb when interval) v ad room in
    let (p', run', w', hp, fp, kp, cc', armed) = add_timer_lem q out v a cb when interval room.0 in
    let same : act q (add a cb when interval) ≡ some p' = rw run' refl in
    let e : p' ≡ p = ground (arith, same, run) in
    inr (
      p,
      run,
      w,
      ad',
      ap (λ (r : TimerQueue). r.calling) (sym e)
          ∙ add_timer-calling q out v a cb when interval room.0 p' q.created run'
          ∙ busy,
      k,
    )
act-GoesOn q out (stop id) v ad busy room = elim (Option-cases (find id q.active)) [
  | inl gone ↦ inl (rw (gone, cancel_in_loop) (ground arith))
  | inr (a, found) ↦
      let (t, e, s, h) = v.backed id a found in
      let run = cancel_runs q out v id a found t e h in
      let (p, run', w, ad', c, k) = act_lem q out (stop id) v ad (a, found) in
      let same : cancelled q out v id a found t ≡ p = ground (arith, run, run') in
      inr (p, run', w, ad', ap (λ (r : TimerQueue). r.calling) (sym same) ∙ busy, k)
]

-- Such actions up to one that stops the timer of `x`.
act_all_stop :
    (q : TimerQueue) (out : List Entry) (x : Entry) (t : Timer) (xs ys : List Action)
    → IsValid q out
    → IsAddressed q.heap
    → q.calling ≡ true
    → has x out ≡ true
    → q.heap x.timer ≡ some t
    → HaveRoom q (xs ++ stop t.sequence ∷ ys)
    → act_all q (xs ++ stop t.sequence ∷ ys) ≡ none
unfolding act_all
act_all_stop q out x t [] ys v ad busy h et room = rw (stop_in_work q out x t v busy h et) refl
act_all_stop q out x t (y ∷ xs) ys v ad busy h et room =
    elim (act-GoesOn q out y v ad busy room.0) [
      | inl gone ↦ rw gone refl
      | inr (p, run, w, ad', busy', k) ↦
          rw run (act_all_stop p out x t xs ys w ad' busy' h (k x h ∙ et) (room.1 p run))
    ]

act_all-GoesOn :
    (q : TimerQueue) (out : List Entry) (xs : List Action)
    → IsValid q out
    → IsAddressed q.heap
    → q.calling ≡ true
    → HaveRoom q xs
    → GoesOn q out (act_all q xs)
unfolding act_all
act_all-GoesOn q out [] v ad busy room = inr (q, refl, v, ad, busy, λ x h. refl)
act_all-GoesOn q out (y ∷ xs) v ad busy room = elim (act-GoesOn q out y v ad busy room.0) [
  | inl gone ↦ rw gone (inl refl)
  | inr (p, run, w, ad', busy', k) ↦
      rw run (elim (act_all-GoesOn p out xs w ad' busy' (room.1 p run)) [
        | inl gone ↦ inl gone
        | inr (r, run', w', ad'', busy'', k') ↦
            inr (r, run', w', ad'', busy'', λ x h. k' x h ∙ k x h)
      ])
]

start_all_stop :
    (script : Timer → List Action) (q : TimerQueue) (out es : List Entry) (e : Entry) (t : Timer)
    (xs ys : List Action)
    → IsValid q out
    → IsAddressed q.heap
    → q.calling ≡ true
    → ((x : Entry) → has x es ≡ true → has x out ≡ true)
    → has e es ≡ true
    → q.heap e.timer ≡ some t
    → script t ≡ xs ++ stop t.sequence ∷ ys
    → ScriptHasRoom script q es
    → start_all script q es ≡ none
unfolding start_all has
start_all_stop script q out [] e t xs ys v ad busy sub h et own room = absurd (ground arith)
start_all_stop script q out (x ∷ es) e t xs ys v ad busy sub h et own room =
    let first = sub x (ground (arith, same_refl x)) in
    let (u, eu, fu) = AreOut-has q.heap q.active out x v.flying first in
    let step = room u eu in
    elim (Bool-cases (same e x)) [
      | inl here ↦
          let eq : u ≡ t = ground (arith, same_eq e x here) in
          let own' : script u ≡ xs ++ stop t.sequence ∷ ys = ap script eq ∙ own in
          rw
            (
              eu,
              own',
              act_all_stop q out x t xs ys v ad busy first (eu ∙ ap some eq)
                  (subst (HaveRoom q) own' step.0),
            )
            refl
      | inr there ↦ elim (act_all-GoesOn q out (script u) v ad busy step.0) [
        | inl gone ↦ rw (eu, gone) refl
        | inr (p, run, w, ad', busy', k) ↦
            let later : has e es ≡ true = ground arith in
            rw (eu, run)
              (start_all_stop script p out es e t xs ys w ad' busy' (λ y i. sub y (ground arith))
                later (k e (sub e (ground arith)) ∙ et) own (step.1 p run))
      ]
    ]

has_either :
    (e : Entry) (xs ys : List Entry)
    → has e (xs ++ ys) ≡ true
    → (has e xs ≡ true) ⊎ (has e ys ≡ true)
unfolding has
has_either e [] ys h = inr h
has_either e (x ∷ xs) ys h = elim (Bool-cases (same e x)) [
  | inl here ↦ inl (ground arith)
  | inr there ↦ elim (has_either e xs ys (ground arith)) [
    | inl before ↦ inl (ground arith)
    | inr behind ↦ inr behind
  ]
]

-- HandleRead on a well-formed queue with a timer that has expired, whichever it is, whose callback
-- stops the timer itself, at any place among what it does, where timers that callbacks add stand at
-- addresses that are free: the behaviour is undefined, since CancelInLoop reads through `end()`, if
-- it was not undefined before.
pub handle_read_stop_self :
    (script : Timer → List Action) (q : TimerQueue) (now : TimerStamp) (e : Entry) (t : Timer)
    (xs ys : List Action)
    → IsValid q []
    → IsAddressed q.heap
    → has e q.timers ≡ true
    → ltb_ℤ now e.when ≡ false
    → q.heap e.timer ≡ some t
    → script t ≡ xs ++ stop t.sequence ∷ ys
    → ((p : TimerQueue) (es : List Entry)
        → get_expired q now ≡ some (p, es)
        → ScriptHasRoom script (record p { calling = true; canceling = [] }) es)
    → handle_read script q now ≡ none
unfolding handle_read
handle_read_stop_self script q now e t xs ys v ad waits due et own room =
    let (p, es, run, w, split, dues, late, hp) = get_expired_lem q now v ad in
    let p' = record p { calling = true; canceling = [] } in
    let expired : has e es ≡ true = elim (has_either e es p.timers (ap (has e) split ∙ waits)) [
      | inl h ↦ h
      | inr h ↦ absurd (ground (arith, late e h))
    ] in
    let stuck : start_all script p' es ≡ none =
      start_all_stop script p' es es e t xs ys (aside-IsValid p.armed true [] w) (rw hp ad) refl
        (λ x h. h) expired (ap (λ f. f e.timer) hp ∙ et) own (room p es run) in
    rw (run, stuck, handle_read) refl
