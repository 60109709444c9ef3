-- ===== src/Timer/Queue/Reading.antt =====
-- TimerQueue::HandleRead of timerfd/timer_queue.cpp, with the callbacks of the expired timers.
use algo.Prelude.{
  ℕ, ◌≡◌, sym, subst, ap, ◌∙◌, true, false, Option, some, List, [], ◌∷◌, ◌++◌, arith,
}
use algo.Prelude.Int.{ltb_ℤ}
use algo.Timer.Stamp.{TimerStamp}
use algo.Timer.Containers.{Entry, same, has}
use algo.Timer.Containers.Laws.{same_refl}
use algo.Timer.Queue.{Timer, TimerQueue, Action, get_expired, handle_read}
use algo.Timer.Queue.Invariant.{IsValid, aside-IsValid}
use algo.Timer.Queue.Expired.{IsAddressed, get_expired_lem}
use algo.Timer.Queue.Reset.{Fate, Fates, armed_after, reset_lem}
use algo.Timer.Queue.Callbacks.{ScriptIsFine, start_all_lem}

Fates-heap :
    (q s r : TimerQueue) (now : TimerStamp) (c d : List ℕ) (es : List Entry)
    → c ≡ d
    → ((x : Entry) → has x es ≡ true → s.heap x.timer ≡ q.heap x.timer)
    → Fates s r now c es
    → Fates q r now d es
unfolding has
Fates-heap q s r now c d [] e same f = tt
Fates-heap q s r now c d (x ∷ xs) e k ((t, et, ft), fs) = (
  (t, sym (k x (ground (arith, same_refl x))) ∙ et, subst (λ z. Fate r now z x.timer t) e ft),
  Fates-heap q s r now c d xs e (λ y h. k y (ground arith)) fs,
)

-- HandleRead on a well-formed queue whose timers stand at addresses, if the callbacks of the timers
-- that are due only add timers where `new` finds room and stop only timers that are active at that
-- point. It runs without an assertion failing or undefined behaviour, and leaves a well-formed queue. The expired
-- timers are the beginning of the queue with exactly the times that are not after `now`. Each
-- of them that repeats waits again, at its time after `now`, and each other one is deleted. The
-- timerfd is set to the first time that is then waited for, if it is valid. The timers on the heap
-- are at addresses still.
pub handle_read_lem :
    (script : Timer → List Action) (q : TimerQueue) (now : TimerStamp)
    → IsValid q []
    → IsAddressed q.heap
    → ((p : TimerQueue) (es : List Entry)
        → get_expired q now ≡ some (p, es)
        → ScriptIsFine script (record p { calling = true; canceling = [] }) es)
    → (r : TimerQueue) × (expired : List Entry) × (later : List Entry) × (armed : Option TimerStamp)
      × (handle_read script q now ≡ some r)
      × IsValid r []
      × (expired ++ later ≡ q.timers)
      × ((e : Entry) → has e expired ≡ true → ltb_ℤ now e.when ≡ false)
      × ((e : Entry) → has e later ≡ true → ltb_ℤ now e.when ≡ true)
      × Fates q r now [] expired
      × (r.armed ≡ armed_after armed r.timers)
      × IsAddressed r.heap
unfolding handle_read
handle_read_lem script q now v ad fine =
    let (p, es, run, w, split, due, late, hp) = get_expired_lem q now v ad in
    let p' = record p { calling = true; canceling = [] } in
    let (s, run', w', ad', c, k) =
      start_all_lem script p' es es (aside-IsValid p.armed true [] w) (rw hp ad) (λ x h. h)
        (fine p es run) in
    let s' = record s { calling = false } in
    let (r, run'', w'', fs, armed, ad'') =
      reset_lem s' now es (aside-IsValid s.armed false s.canceling w') in
    (
      r,
      es,
      p.timers,
      s.armed,
      rw (run, run', handle_read) run'',
      w'',
      split,
      due,
      late,
      Fates-heap q s' r now s.canceling [] es c (λ x h. k x h ∙ ap (λ f. f x.timer) hp) fs,
      armed,
      ad'' ad',
    )
