-- ===== src/SharedPool/Stopping.antt =====
-- The end of the workers of the pool of include/threadpool.h, which Destory joins.
use algo.Prelude.{
  ℕ, zero, suc, ◌+◌, ◌*◌, ◌≤◌, ◌<◌, ◌≡◌, ◌⊎◌, inl, inr, refl, sym, ap, subst, ◌∙◌, Option, none,
  some, List, [], ◌∷◌, arith, false, length, get_elem?, set, if◌then◌else◌,
}
use algo.SharedPool.{
  Worker, looping, waiting, taken, running, ran, exited, ThreadPool, wake, worker_step, place,
  destory, AreJoined,
}
use algo.SharedPool.Order.{TakesFront, worker_step-TakesFront}

-- How many steps a worker can still make in a stopped pool.
unfoldable pub remaining : Worker → ℕ
remaining exited = 0
remaining looping = 1
remaining ran = 2
remaining (running t) = 3
remaining (taken t) = 4
remaining waiting = 5

unfoldable pub remaining_all : List Worker → ℕ
unfolding remaining
remaining_all [] = 0
remaining_all (w ∷ ws) = remaining w + remaining_all ws

-- So many steps of workers, in any order.
pub data WorkerSteps : ℕ → ThreadPool → ThreadPool → Type 0 where
  start : {p : ThreadPool} → WorkerSteps 0 p p
  next :
      {n : ℕ} {p q r : ThreadPool} (i : ℕ) (w w' : Worker)
      → get_elem? p.pool i ≡ some w
      → worker_step p w ≡ some (q, w')
      → WorkerSteps n (place q i w') r
      → WorkerSteps (suc n) p r

-- A worker, by its place, that can make a step.
abbrev pub CanStep : ThreadPool → Type 0
CanStep p =
    (i : ℕ) × (w : Worker) × (w' : Worker) × (q : ThreadPool) × (get_elem? p.pool i ≡ some w)
    × (worker_step p w ≡ some (q, w'))

abbrev IsCloser : Worker → Option (ThreadPool × Worker) → Type 0
IsCloser w none = Unit {0}
IsCloser w (some (q, w')) = remaining w' < remaining w

worker_step-IsCloser : (p : ThreadPool) (w : Worker) → p.run ≡ false → IsCloser w (worker_step p w)
unfolding worker_step remaining
worker_step-IsCloser p looping off =
    subst (λ b. IsCloser looping (some (p, if b then waiting else exited))) (sym off) (omega arith)
worker_step-IsCloser p waiting off = elim p.tasks as (λ ts. IsCloser waiting (wake p ts)) [
  | [] ↦
      subst (λ b. IsCloser waiting (if b then none else some (p, exited))) (sym off) (omega arith)
  | t ∷ ts ↦ omega arith
]
worker_step-IsCloser p (taken t) off = omega arith
worker_step-IsCloser p (running t) off = omega arith
worker_step-IsCloser p ran off = omega arith
worker_step-IsCloser p exited off = tt

remaining_all-set :
    (ws : List Worker) (i : ℕ) (w w' : Worker)
    → get_elem? ws i ≡ some w
    → remaining_all (set ws i w') + remaining w ≡ remaining_all ws + remaining w'
unfolding remaining_all
remaining_all-set [] i w w' at = absurd (ground arith)
remaining_all-set (v ∷ ws) zero w w' at =
    let e : v ≡ w = ground arith in omega (arith, ap remaining e)
remaining_all-set (v ∷ ws) (suc i) w w' at = omega (arith, remaining_all-set ws i w w' at)

remaining_bound : (w : Worker) → remaining w ≤ 5
unfolding remaining
remaining_bound looping = omega arith
remaining_bound waiting = omega arith
remaining_bound (taken t) = omega arith
remaining_bound (running t) = omega arith
remaining_bound ran = omega arith
remaining_bound exited = omega arith

remaining_all-length : (ws : List Worker) → remaining_all ws ≤ 5 * length ws
unfolding remaining_all
remaining_all-length [] = omega arith
remaining_all-length (w ∷ ws) = omega (arith, remaining_bound w, remaining_all-length ws)

steps_lem :
    (n : ℕ) (p q : ThreadPool)
    → p.run ≡ false
    → WorkerSteps n p q
    → (n + remaining_all q.pool ≤ remaining_all p.pool) × (q.run ≡ false)
steps_lem n p q off start = (omega arith, off)
steps_lem n p q off (next {n = m} {q = p'} i w w' at e more) =
    let (front, same, run) = subst (TakesFront p) e (worker_step-TakesFront p w) in
    let closer = subst (IsCloser w) e (worker_step-IsCloser p w off) in
    let at' : get_elem? p'.pool i ≡ some w = ap (λ ws. get_elem? ws i) same ∙ at in
    let (count, still) = steps_lem m (place p' i w') q (run ∙ off) more in
    (
      omega (arith, count, closer, remaining_all-set p'.pool i w w' at', ap remaining_all same),
      still,
    )

-- In a stopped pool a worker that has not ended can make a step.
waiting_step :
    (p : ThreadPool) (ts : List ℕ)
    → p.run ≡ false
    → (w' : Worker) × (q : ThreadPool) × (wake p ts ≡ some (q, w'))
waiting_step p [] off = (exited, p, ap (λ b. if b then none else some (p, exited)) off)
waiting_step p (t ∷ ts) off = (taken t, record p { tasks = ts }, refl)

joined_or_step :
    (p : ThreadPool) (ws : List Worker)
    → p.run ≡ false
    → AreJoined ws
      ⊎ ((i : ℕ) × (w : Worker) × (w' : Worker) × (q : ThreadPool) × (get_elem? ws i ≡ some w)
          × (worker_step p w ≡ some (q, w')))
unfolding worker_step
joined_or_step p [] off = inl tt
joined_or_step p (exited ∷ ws) off = elim (joined_or_step p ws off) [
  | inl j ↦ inl j
  | inr (i, w, w', q, at, e) ↦ inr (suc i, w, w', q, at, e)
]
joined_or_step p (looping ∷ ws) off =
    inr (0, looping, (if p.run then waiting else exited), p, refl, refl)
joined_or_step p (waiting ∷ ws) off =
    let (w', q, e) = waiting_step p p.tasks off in inr (0, waiting, w', q, refl, e)
joined_or_step p (taken t ∷ ws) off = inr (0, taken t, running t, _, refl, refl)
joined_or_step p (running t ∷ ws) off = inr (0, running t, ran, _, refl, refl)
joined_or_step p (ran ∷ ws) off = inr (0, ran, looping, _, refl, refl)

-- After Destory the workers make at most five steps for each thread, in whatever order, and as long
-- as not all of them have ended one of them can make a step: where tasks return and no worker
-- misses the notification, each `join` comes back.
pub destory_lem :
    (n : ℕ) (p q : ThreadPool)
    → WorkerSteps n (destory p) q
    → (n ≤ 5 * length p.pool) × (AreJoined q.pool ⊎ CanStep q)
destory_lem n p q s =
    let (count, still) = steps_lem n (destory p) q refl s in
    (omega (arith, count, remaining_all-length p.pool), joined_or_step q q.pool still)
