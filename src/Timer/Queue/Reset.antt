-- ===== src/Timer/Queue/Reset.antt =====
-- TimerQueue::Reset of timerfd/timer_queue.cpp.
use algo.Prelude.{
  ℕ, ◌≡◌, ◌≢◌, ◌⊎◌, inl, inr, refl, sym, subst, ap, ◌∙◌, true, false, not, ◌&&◌, Option, none, some,
  List, [], ◌∷◌, if◌then◌else◌, arith, Bool-cases,
}
use algo.Timer.Stamp.{TimerStamp, valid}
use algo.Timer.Containers.{Entry, has, find}
use algo.Timer.Containers.Laws.{same_refl, has-set_insert}
use algo.Timer.Containers.Maps.{find-map_emplace}
use algo.Timer.Queue.{Timer, put, mem, restart, TimerQueue, reset_one, reset_all, rearm, reset}
use algo.Timer.Queue.Invariant.{
  IsValid, NotIn, entry_of, inserted, insert_runs, inserted-IsValid, aside-IsValid,
}
use algo.Timer.Queue.Adding.{AreOut-put}
use algo.Timer.Queue.Expired.{IsAddressed}

restart_sequence : (now : TimerStamp) (t : Timer) → (restart now t).sequence ≡ t.sequence
unfolding restart
restart_sequence now t = refl

-- The timer of the first entry in work, which is in neither container.
module _ (q : TimerQueue) (e : Entry) (es : List Entry) (v : IsValid q (e ∷ es)) (t : Timer)
    (et : q.heap e.timer ≡ some t) (ft : find t.sequence q.active ≡ none) where
  -- It is changed, or deleted, and is no longer in work.
  changed-IsValid :
      (o : Option Timer)
      → ((u : Timer) → o ≡ some u → u.sequence ≡ t.sequence)
      → IsValid (record q { heap = put q.heap e.timer o }) es
  changed-IsValid o same_number = record {
    sorted = v.sorted;
    keys = v.keys;
    sizes = v.sizes;
    old = λ b u eu. ground (arith, v.old b u, v.old e.timer t et, same_number u);
    unique = λ b c u w eu ew g. ground (
      arith,
      v.unique b c u w,
      v.unique b e.timer u t,
      v.unique e.timer c t w,
      same_number u,
      same_number w,
    );
    tracked = λ x hx. let (u, eu, xu, fu) = v.tracked x hx in (u, ground arith, xu, fu);
    backed = λ k b hb. let (u, eu, su, hu) = v.backed k b hb in (u, ground arith, su, hu);
    flying = AreOut-put q.heap q.active es e.timer o v.flying.1 v.flying.2;
  }

  abbrev restarted : TimerStamp → TimerQueue
  restarted now = record q { heap = put q.heap e.timer (some (restart now t)) }

  abbrev reset_one_result : TimerStamp → TimerQueue
  reset_one_result now =
      if t.repeat && not (mem t.sequence q.canceling)
      then inserted (restarted now) e.timer (restart now t)
      else record q { heap = put q.heap e.timer none }

  reset_one_runs : (now : TimerStamp) → reset_one q now e.timer ≡ some (reset_one_result now)
  unfolding reset_one
  reset_one_runs now = ground (
    arith,
    insert_runs (restarted now) es e.timer (restart now t)
        (changed-IsValid (some (restart now t)) λ u p. ground (arith, restart_sequence now t))
        (ground arith) (ground (arith, restart_sequence now t)),
  )

  reset_one_result-IsValid : (now : TimerStamp) → IsValid (reset_one_result now) es
  reset_one_result-IsValid now = elim (Bool-cases (t.repeat && not (mem t.sequence q.canceling))) [
    | inl again ↦ rw again (
        inserted-IsValid (restarted now) es e.timer (restart now t)
          (changed-IsValid (some (restart now t)) λ u p. ground (arith, restart_sequence now t))
          (ground arith) (ground (arith, restart_sequence now t)) v.flying.1)
    | inr over ↦ rw over (changed-IsValid none λ u p. cc)
  ]

-- What becomes of an expired timer: it waits again, at its time after `now`, or it is deleted.
abbrev pub Fate : TimerQueue → TimerStamp → List ℕ → ℕ → Timer → Type 0
Fate q now canceling a t =
    (((t.repeat && not (mem t.sequence canceling)) ≡ true)
      × (q.heap a ≡ some (restart now t))
      × (find t.sequence q.active ≡ some a)
      × (has (entry_of a (restart now t)) q.timers ≡ true))
    ⊎ (((t.repeat && not (mem t.sequence canceling)) ≡ false) × (q.heap a ≡ none))

-- From `q` to `r` only timers of `es` change, and the containers lose nothing.
pub record Grows (q r : TimerQueue) (es : List Entry) : Type 0 where
  pub kept : (b : ℕ) → NotIn b es → r.heap b ≡ q.heap b
  pub found : (k a : ℕ) → find k q.active ≡ some a → find k r.active ≡ some a
  pub held : (x : Entry) → has x q.timers ≡ true → has x r.timers ≡ true
  pub same_canceling : r.canceling ≡ q.canceling
  pub same_calling : r.calling ≡ q.calling
  pub same_armed : r.armed ≡ q.armed
  pub addressed : IsAddressed q.heap → IsAddressed r.heap

Fate-Grows :
    (q r : TimerQueue) (es : List Entry) (now : TimerStamp) (c : List ℕ) (a : ℕ) (t : Timer)
    → Grows q r es
    → NotIn a es
    → Fate q now c a t
    → Fate r now c a t
Fate-Grows q r es now c a t g ni (inl (p, h, f, k)) =
    inl (p, g.kept a ni ∙ h, g.found t.sequence a f, g.held (entry_of a (restart now t)) k)
Fate-Grows q r es now c a t g ni (inr (p, h)) = inr (p, g.kept a ni ∙ h)

module _ (q : TimerQueue) (e : Entry) (es : List Entry) (v : IsValid q (e ∷ es)) (t : Timer)
    (et : q.heap e.timer ≡ some t) (ft : find t.sequence q.active ≡ none) (now : TimerStamp) where
  abbrev next : TimerQueue
  next = reset_one_result q e es v t et ft now

  next-Grows : Grows q next (e ∷ es)
  next-Grows = record {
    kept = λ b ni. ground arith;
    found = λ k a f. ground (
      arith,
      find-map_emplace k (restart now t).sequence e.timer q.active,
      restart_sequence now t,
    );
    held = λ x h. ground (arith, has-set_insert x (entry_of e.timer (restart now t)) q.timers);
    same_canceling = ground arith;
    same_calling = ground arith;
    same_armed = ground arith;
    addressed = λ ad b u eu. ground (arith, ad b u, ad e.timer t et);
  }

  next-Fate : Fate next now q.canceling e.timer t
  next-Fate = elim (Bool-cases (t.repeat && not (mem t.sequence q.canceling))) [
    | inl again ↦ inl (
      again,
      ground arith,
      ground
          (arith, find-map_emplace t.sequence t.sequence e.timer q.active, restart_sequence now t),
      ground (
        arith,
        has-set_insert (entry_of e.timer (restart now t)) (entry_of e.timer (restart now t))
            q.timers,
        same_refl (entry_of e.timer (restart now t)),
      ),
    )
    | inr over ↦ inr (over, ground arith)
  ]

  next_other : (b : ℕ) → e.timer ≢ b → next.heap b ≡ q.heap b
  next_other b ne = ground arith

-- The fate of each expired timer, as it stood in `q`, in the queue `r`.
abbrev pub Fates : TimerQueue → TimerQueue → TimerStamp → List ℕ → List Entry → Type 0
Fates q r now c [] = Unit {0}
Fates q r now c (e ∷ es) =
    ((t : Timer) × (q.heap e.timer ≡ some t) × Fate r now c e.timer t) × Fates q r now c es

Fates-other :
    (q p r : TimerQueue) (now : TimerStamp) (c d : List ℕ) (a : ℕ) (es : List Entry)
    → ((b : ℕ) → a ≢ b → p.heap b ≡ q.heap b)
    → c ≡ d
    → NotIn a es
    → Fates p r now c es
    → Fates q r now d es
Fates-other q p r now c d a [] same e ni f = tt
Fates-other q p r now c d a (x ∷ xs) same e ni ((t, et, ft), fs) = (
  (t, sym (same x.timer λ eq. ni.0 (sym eq)) ∙ et, subst (λ z. Fate r now z x.timer t) e ft),
  Fates-other q p r now c d a xs same e ni.1 fs,
)

Grows-trans :
    (q p r : TimerQueue) (e : Entry) (es : List Entry)
    → Grows q p (e ∷ es)
    → Grows p r es
    → Grows q r (e ∷ es)
Grows-trans q p r e es g h = record {
  kept = λ b ni. h.kept b ni.1 ∙ g.kept b ni;
  found = λ k a f. h.found k a (g.found k a f);
  held = λ x hx. h.held x (g.held x hx);
  same_canceling = h.same_canceling ∙ g.same_canceling;
  same_calling = h.same_calling ∙ g.same_calling;
  same_armed = h.same_armed ∙ g.same_armed;
  addressed = λ ad. h.addressed (g.addressed ad);
}

Grows-refl : (q : TimerQueue) → Grows q q []
Grows-refl q = record {
  kept = λ b ni. refl;
  found = λ k a f. f;
  held = λ x h. h;
  same_canceling = refl;
  same_calling = refl;
  same_armed = refl;
  addressed = λ ad. ad;
}

reset_all_lem :
    (q : TimerQueue) (now : TimerStamp) (es : List Entry)
    → IsValid q es
    → (r : TimerQueue) × (reset_all q now es ≡ some r)
      × IsValid r []
      × Grows q r es
      × Fates q r now q.canceling es
unfolding reset_all
reset_all_lem q now [] v = (q, refl, v, Grows-refl q, tt)
reset_all_lem q now (e ∷ es) v =
    let (t, et, ft) = v.flying.0 in
    let p = next q e es v t et ft now in
    let g = next-Grows q e es v t et ft now in
    let (r, run, w, h, fs) =
      reset_all_lem p now es (reset_one_result-IsValid q e es v t et ft now) in
    (
      r,
      rw (reset_one_runs q e es v t et ft now, reset_all) run,
      w,
      Grows-trans q p r e es g h,
      (
        (
          t,
          et,
          Fate-Grows p r es now q.canceling e.timer t h v.flying.1 (next-Fate q e es v t et ft now),
        ),
        Fates-other q p r now p.canceling q.canceling e.timer es (next_other q e es v t et ft now)
            g.same_canceling v.flying.1 fs,
      ),
    )

Fates-aside :
    (q r : TimerQueue) (now : TimerStamp) (c : List ℕ) (es : List Entry) (o : Option TimerStamp)
    → Fates q r now c es
    → Fates q (record r { armed = o }) now c es
Fates-aside q r now c [] o f = tt
Fates-aside q r now c (e ∷ es) o f = (f.0, Fates-aside q r now c es o f.1)

-- What the timerfd is set to behind a read: the first time that is waited for, if that is valid.
abbrev pub armed_after : Option TimerStamp → List Entry → Option TimerStamp
armed_after armed [] = armed
armed_after armed (e ∷ es) = if valid e.when then some e.when else armed

rearm_runs :
    (q : TimerQueue) (ts : List Entry)
    → IsValid q []
    → ((e : Entry) → has e ts ≡ true → has e q.timers ≡ true)
    → rearm q ts ≡ some (record q { armed = armed_after q.armed ts })
unfolding rearm has
rearm_runs q [] v sub = refl
rearm_runs q (e ∷ es) v sub =
    let (t, et, xt, ft) = v.tracked e (sub e (ground (arith, same_refl e))) in ground arith

-- Reset on a well-formed queue with expired timers in work runs without an assertion failing. It
-- leaves a well-formed queue with none in work: each of those that repeats waits again, at its time
-- after `now`, and each other one is deleted; the timerfd is set to the first time, if it is valid.
pub reset_lem :
    (q : TimerQueue) (now : TimerStamp) (es : List Entry)
    → IsValid q es
    → (r : TimerQueue) × (reset q es now ≡ some r)
      × IsValid r []
      × Fates q r now q.canceling es
      × (r.armed ≡ armed_after q.armed r.timers)
      × (IsAddressed q.heap → IsAddressed r.heap)
unfolding reset
reset_lem q now es v =
    let (r, run, w, g, fs) = reset_all_lem q now es v in
    (
      record r { armed = armed_after r.armed r.timers },
      rw (run, reset) (rearm_runs r r.timers w (λ e h. h)),
      aside-IsValid (armed_after r.armed r.timers) r.calling r.canceling w,
      Fates-aside q r now q.canceling es (armed_after r.armed r.timers) fs,
      ap (λ a. armed_after a r.timers) g.same_armed,
      g.addressed,
    )
