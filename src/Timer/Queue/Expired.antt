-- ===== src/Timer/Queue/Expired.antt =====
-- TimerQueue::GetExpired of timerfd/timer_queue.cpp.
use algo.Prelude.{
  ℕ, ◌≤◌, ◌≡◌, ◌≢◌, inl, inr, refl, true, false, none, some, List, [], ◌∷◌, ◌++◌, ◌==◌,
  if◌then◌else◌, arith, Option-cases,
}
use algo.Prelude.Int.{ltb_ℤ}
use algo.Timer.Stamp.{TimerStamp}
use algo.Timer.Containers.{Entry, before, has, up_to, from, find, map_erase}
use algo.Timer.Containers.Laws.{Above-has, same_eq, same_refl}
use algo.Timer.Containers.Maps.{
  IsMap, find-map_erase, map_erase-IsMap, length-map_erase, up_to-append-from, has-up_to, has-from,
  has-append,
}
use algo.Timer.Queue.{Timer, Heap, TimerQueue, sentry, erase_expired, get_expired}
use algo.Timer.Queue.Invariant.{IsValid, NotIn, AreOut, entry_of}

-- The queue with other containers.
abbrev holding : TimerQueue → List Entry → List (ℕ × ℕ) → TimerQueue
holding q ts m = record q { timers = ts; active = m }

module _ (q : TimerQueue) (e : Entry) (xs : List Entry) (m : List (ℕ × ℕ))
    (v : IsValid (holding q (e ∷ xs) m) []) (t : Timer) (et : q.heap e.timer ≡ some t)
    (xt : t.expiration ≡ e.when) (ft : find t.sequence m ≡ some e.timer) where
  -- The first entry leaves both containers.
  popped-IsValid : IsValid (holding q xs (map_erase t.sequence m)) []
  unfolding has
  popped-IsValid = record {
    sorted = v.sorted.1;
    keys = map_erase-IsMap t.sequence m v.keys;
    sizes = ground (arith, v.sizes, length-map_erase t.sequence e.timer m ft);
    old = v.old;
    unique = v.unique;
    tracked = λ x hx.
        let (u, eu, xu, fu) = v.tracked x (ground arith) in
        (
          u,
          eu,
          xu,
          ground (
            arith,
            find-map_erase u.sequence t.sequence m v.keys,
            v.unique x.timer e.timer u t,
            Above-has e xs v.sorted.0,
          ),
        );
    backed = λ k b hb.
        let kept : (if t.sequence == k then none else find k m) ≡ some b =
          rw (← find-map_erase k t.sequence m v.keys) hb in
        let (u, eu, su, hu) = v.backed k b (ground arith) in
        (u, eu, su, ground (arith, same_eq (entry_of b u) e));
    flying = tt;
  }

  -- No other entry has its address.
  others : (x : Entry) → has x xs ≡ true → x.timer ≢ e.timer
  unfolding has
  others x hx p =
      let (u, eu, xu, fu) = v.tracked x (ground arith) in ground (arith, Above-has e xs v.sorted.0)

NotIn-of : (a : ℕ) (es : List Entry) → ((x : Entry) → has x es ≡ true → x.timer ≢ a) → NotIn a es
unfolding has
NotIn-of a [] f = tt
NotIn-of a (x ∷ xs) f = (f x (ground (arith, same_refl x)), NotIn-of a xs λ y h. f y (ground arith))

erase_expired-none :
    (h : Heap) (es : List Entry) (m m' : List (ℕ × ℕ)) (j : ℕ)
    → IsMap m
    → find j m ≡ none
    → erase_expired h es m ≡ some m'
    → find j m' ≡ none
unfolding erase_expired
erase_expired-none h [] m m' j d f r = ground arith
erase_expired-none h (e ∷ es) m m' j d f r = elim (Option-cases (h e.timer)) [
  | inl n ↦ absurd (ground arith)
  | inr (t, et) ↦
      erase_expired-none h es (map_erase t.sequence m) m' j (map_erase-IsMap t.sequence m d)
        (ground (arith, find-map_erase j t.sequence m d)) (ground arith)
]

with_out :
    (q : TimerQueue) (out : List Entry) → IsValid q [] → AreOut q.heap q.active out → IsValid q out
with_out q out v f = record {
  sorted = v.sorted;
  keys = v.keys;
  sizes = v.sizes;
  old = v.old;
  unique = v.unique;
  tracked = v.tracked;
  backed = v.backed;
  flying = f;
}

without : (q : TimerQueue) (out : List Entry) → IsValid q out → IsValid q []
without q out v = record {
  sorted = v.sorted;
  keys = v.keys;
  sizes = v.sizes;
  old = v.old;
  unique = v.unique;
  tracked = v.tracked;
  backed = v.backed;
  flying = tt;
}

erase_expired_lem :
    (q : TimerQueue) (es rest : List Entry) (m : List (ℕ × ℕ))
    → IsValid (holding q (es ++ rest) m) []
    → (m' : List (ℕ × ℕ)) × (erase_expired q.heap es m ≡ some m') × IsValid (holding q rest m') es
unfolding erase_expired has
erase_expired_lem q [] rest m v = (m, refl, v)
erase_expired_lem q (e ∷ es) rest m v =
    let (t, et, xt, ft) = v.tracked e (ground (arith, same_refl e)) in
    let w = popped-IsValid q e (es ++ rest) m v t et xt ft in
    let (m', r, w') = erase_expired_lem q es rest (map_erase t.sequence m) w in
    let gone : find t.sequence m' ≡ none =
      erase_expired-none q.heap es (map_erase t.sequence m) m' t.sequence w.keys
        (ground (arith, find-map_erase t.sequence t.sequence m v.keys)) r in
    (
      m',
      ground arith,
      with_out (holding q rest m') (e ∷ es) (without _ es w') (
        (t, et, gone),
        NotIn-of e.timer es (λ x hx.
            others q e (es ++ rest) m v t et xt ft x (ground (arith, has-append x es rest))),
        w'.flying,
      ),
    )

-- Every address on the heap is that of an object: no more than UINTPTR_MAX.
abbrev pub IsAddressed : Heap → Type 0
IsAddressed h = (a : ℕ) (t : Timer) → h a ≡ some t → a ≤ 0xffff_ffff_ffff_ffff

before-sentry :
    (now : TimerStamp) (e : Entry)
    → e.timer ≤ 0xffff_ffff_ffff_ffff
    → before (sentry now) e ≡ true
    → ltb_ℤ now e.when ≡ true
unfolding before
before-sentry now e b h = ground arith

not_before-sentry :
    (now : TimerStamp) (e : Entry) → before (sentry now) e ≡ false → ltb_ℤ now e.when ≡ false
unfolding before
not_before-sentry now e h = ground arith

-- GetExpired on a well-formed queue runs without an assertion failing. It returns the beginning of
-- the queue with exactly the timers whose time is not after `now`; the queue keeps the others, is
-- well-formed, and has the expired ones in work.
pub get_expired_lem :
    (q : TimerQueue) (now : TimerStamp)
    → IsValid q []
    → IsAddressed q.heap
    → (q' : TimerQueue) × (expired : List Entry) × (get_expired q now ≡ some (q', expired))
      × IsValid q' expired
      × (expired ++ q'.timers ≡ q.timers)
      × ((e : Entry) → has e expired ≡ true → ltb_ℤ now e.when ≡ false)
      × ((e : Entry) → has e q'.timers ≡ true → ltb_ℤ now e.when ≡ true)
      × (q'.heap ≡ q.heap)
unfolding get_expired
get_expired_lem q now v addressed =
    let ex = up_to (sentry now) q.timers in
    let rest = from (sentry now) q.timers in
    let split : ex ++ rest ≡ q.timers = up_to-append-from (sentry now) q.timers in
    let start : IsValid (holding q (ex ++ rest) q.active) [] = rw split v in
    let (m', r, w) = erase_expired_lem q ex rest q.active start in
    (
      holding q rest m',
      ex,
      ground (arith, w.sizes),
      w,
      split,
      (λ e h. not_before-sentry now e (has-up_to e (sentry now) q.timers h)),
      (λ e h.
          let (t, et, xt, ft) = v.tracked e (ground (arith, has-append e ex rest)) in
          before-sentry now e (addressed e.timer t et)
            (has-from e (sentry now) q.timers v.sorted h)),
      refl,
    )
