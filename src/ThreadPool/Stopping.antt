-- ===== src/ThreadPool/Stopping.antt =====
-- The end of the workers of ThreadPool, which the destructor joins
-- (tools/sync_file/epoll_socket/threadpool.h).
use algo.Prelude.{
  ℕ, zero, suc, ◌+◌, ◌*◌, ◌≤◌, ◌<◌, ◌≡◌, ◌⊎◌, refl, sym, ap, subst, ◌∙◌, inl, inr, false, some,
  List, [], ◌∷◌, ◌++◌, append_assoc, arith, length, length-append, get_elem?, set, if◌then◌else◌,
}
use algo.ThreadPool.{
  Node, Worker, looping, waiting, taken, running, ran, exited, ThreadPool, Outcome, moved, blocked,
  undefined, worker_step, took, wake, place, destroyed, fresh_pool,
}
use algo.ThreadPool.Specification.{Event}
use algo.ThreadPool.Operations.{IsIndexed, requests, take_task_lem}
use algo.ThreadPool.Workers.{rests, steps, worker_step-Progress}
use algo.ThreadPool.Runs.{moved-Moves, Steps, Step-Refines, reachable-Refines, destroy}

-- How many steps a worker can still make in a stopped pool, and how many tasks it can take.
unfoldable pub remaining : Worker → ℕ
remaining exited = 0
remaining looping = 1
remaining ran = 2
remaining (running t) = 3
remaining (taken t) = 4
remaining waiting = 5

unfoldable pub takes : Worker → ℕ
takes waiting = 1
takes w = 0

unfoldable pub sum_of : (Worker → ℕ) → List Worker → ℕ
sum_of f [] = 0
sum_of f (w ∷ ws) = f w + sum_of f ws

-- So many steps of workers, in any order.
pub data WorkerSteps : ℕ → ThreadPool → ThreadPool → Type 0 where
  start : {p : ThreadPool} → WorkerSteps 0 p p
  next :
      {n : ℕ} {p q r : ThreadPool} (i : ℕ) (w w' : Worker)
      → get_elem? p.pool i ≡ some w
      → worker_step p w ≡ moved q w'
      → WorkerSteps n (place q i w') r
      → WorkerSteps (suc n) p r

abbrev pub HaveEnded : List Worker → Type 0
HaveEnded [] = Unit
HaveEnded (w ∷ ws) = (w ≡ exited) × HaveEnded ws

-- A worker, by its place, that can make a step.
abbrev pub CanStep : ThreadPool → List Worker → Type 0
CanStep p ws =
    (i : ℕ) × (w : Worker) × (w' : Worker) × (q : ThreadPool) × (get_elem? ws i ≡ some w)
    × (worker_step p w ≡ moved q w')

-- At most `n` of the oldest requests have gone from the queue.
abbrev pub LosesOldest : ℕ → ThreadPool → ThreadPool → Type 0
LosesOldest n p q =
    (rs : List (ℕ × ℕ)) × (requests p.tasks ≡ rs ++ requests q.tasks) × (length rs ≤ n)

-- What a step of a stopped pool's worker leaves of its steps and of the tasks it can take.
abbrev IsCloser : ThreadPool → Worker → Outcome → Type 0
IsCloser p w (moved q w') =
    (remaining w' < remaining w) × ((n : ℕ) × LosesOldest n p q × (n + takes w' ≤ takes w))
IsCloser p w blocked = Unit
IsCloser p w undefined = Unit

waiting-IsCloser :
    (p : ThreadPool) (ts : List Node)
    → p.tasks ≡ ts
    → IsIndexed p
    → p.run ≡ false
    → IsCloser p waiting (wake p ts)
unfolding remaining takes wake
waiting-IsCloser p [] e v off =
    subst (λ b. IsCloser p waiting (if b then blocked else moved p exited)) (sym off)
      (omega arith, (0, ([], refl, omega arith), omega arith))
waiting-IsCloser p (n ∷ ns) e v off =
    let (q, run, v', left, pool, idle, on) = take_task_lem p n ns v e in
    subst (λ o. IsCloser p waiting o) (sym (ap took run))
      (
        omega arith,
        (
          1,
          (
            (n.fd, n.task) ∷ [],
            ap requests e ∙ ap (λ ts. (n.fd, n.task) ∷ requests ts) (sym left),
            omega arith,
          ),
          omega arith,
        ),
      )

worker_step-IsCloser :
    (p : ThreadPool) (w : Worker) → IsIndexed p → p.run ≡ false → IsCloser p w (worker_step p w)
unfolding worker_step remaining takes
worker_step-IsCloser p looping v off =
    subst (λ b. IsCloser p looping (moved p (if b then waiting else exited))) (sym off)
      (omega arith, (0, ([], refl, omega arith), omega arith))
worker_step-IsCloser p waiting v off = waiting-IsCloser p p.tasks refl v off
worker_step-IsCloser p (taken t) v off = (omega arith, (0, ([], refl, omega arith), omega arith))
worker_step-IsCloser p (running t) v off = (omega arith, (0, ([], refl, omega arith), omega arith))
worker_step-IsCloser p ran v off = (omega arith, (0, ([], refl, omega arith), omega arith))
worker_step-IsCloser p exited v off = tt

sum_of-set :
    (f : Worker → ℕ) (ws : List Worker) (i : ℕ) (w w' : Worker)
    → get_elem? ws i ≡ some w
    → sum_of f (set ws i w') + f w ≡ sum_of f ws + f w'
unfolding sum_of
sum_of-set f [] i w w' at = absurd (ground arith)
sum_of-set f (v ∷ ws) zero w w' at = let e : v ≡ w = ground arith in omega (arith, ap f e)
sum_of-set f (v ∷ ws) (suc i) w w' at = omega (arith, sum_of-set f ws i w w' at)

remaining_bound : (w : Worker) → (remaining w ≤ 5) × (takes w ≤ 1)
unfolding remaining takes
remaining_bound looping = (omega arith, omega arith)
remaining_bound waiting = (omega arith, omega arith)
remaining_bound (taken t) = (omega arith, omega arith)
remaining_bound (running t) = (omega arith, omega arith)
remaining_bound ran = (omega arith, omega arith)
remaining_bound exited = (omega arith, omega arith)

sum_bound :
    (ws : List Worker) → (sum_of remaining ws ≤ 5 * length ws) × (sum_of takes ws ≤ length ws)
unfolding sum_of
sum_bound [] = (omega arith, omega arith)
sum_bound (w ∷ ws) =
    (omega (arith, remaining_bound w, sum_bound ws), omega (arith, remaining_bound w, sum_bound ws))

LosesOldest-trans :
    {a b : ℕ} (p q r : ThreadPool) → LosesOldest a p q → LosesOldest b q r → LosesOldest (a + b) p r
LosesOldest-trans p q r (xs, e, le) (ys, f, le') = (
  xs ++ ys,
  e ∙ ap (λ rs. xs ++ rs) f ∙ sym (append_assoc xs ys _),
  omega (arith, length-append xs ys),
)

LosesOldest-mono : {a b : ℕ} (p q : ThreadPool) → a ≤ b → LosesOldest a p q → LosesOldest b p q
LosesOldest-mono p q h (xs, e, le) = (xs, e, omega arith)

steps_lem :
    (n : ℕ) (p q : ThreadPool)
    → IsIndexed p
    → p.run ≡ false
    → WorkerSteps n p q
    → (n + sum_of remaining q.pool ≤ sum_of remaining p.pool)
      × LosesOldest (sum_of takes p.pool) p q
      × IsIndexed q
      × (q.run ≡ false)
steps_lem n p q v off start = (omega arith, ([], refl, omega arith), v, off)
steps_lem n p q v off (next {n = m} {q = p'} i w w' at e more) =
    let moves = moved-Moves p p' w w' v e in
    let (closer, (lost, oldest, fewer)) =
      subst (λ o. IsCloser p w o) e (worker_step-IsCloser p w v off) in
    let at' : get_elem? p'.pool i ≡ some w = ap (λ ws. get_elem? ws i) moves.same_pool ∙ at in
    let v' : IsIndexed (place p' i w') = record {
      listed = moves.indexed.listed;
      distinct = moves.indexed.distinct;
    } in
    let (count, rest, vq, still) = steps_lem m (place p' i w') q v' (moves.same_run ∙ off) more in
    let steps_left = sum_of-set remaining p'.pool i w w' at' in
    let tasks_left = sum_of-set takes p'.pool i w w' at' in
    (
      omega (arith, count, closer, steps_left, ap (sum_of remaining) moves.same_pool),
      LosesOldest-mono p q (omega (arith, fewer, tasks_left, ap (sum_of takes) moves.same_pool))
          (LosesOldest-trans p p' q oldest rest),
      vq,
      still,
    )

ended_or_step :
    (p : ThreadPool) (ws : List Worker) → IsIndexed p → p.run ≡ false → HaveEnded ws ⊎ CanStep p ws
ended_or_step p [] v off = inl tt
ended_or_step p (w ∷ ws) v off = elim (worker_step-Progress p w v) [
  | steps q w' run m ↦ inr (0, w, w', q, refl, run)
  | rests rest (inr (at_wait, on, none_left)) ↦ absurd (ground arith)
  | rests rest (inl ended) ↦ elim (ended_or_step p ws v off) [
    | inl all ↦ inl (ended, all)
    | inr (i, v', w', q, at, e) ↦ inr (suc i, v', w', q, at, e)
  ]
]

-- Once a pool that a fresh one has become is destroyed, its workers make at most five steps for
-- each thread, in whatever order; they take at most one more task for each thread, the oldest of
-- the queue, and the others stay in it; and as long as not all workers have ended one of them can
-- make a step.
pub destroyed_lem :
    {es : List Event} (n : ℕ) (p q : ThreadPool)
    → Steps fresh_pool es p
    → WorkerSteps n (destroyed p) q
    → (n ≤ 5 * length p.pool)
      × LosesOldest (length p.pool) p q
      × (HaveEnded q.pool ⊎ CanStep q q.pool)
destroyed_lem n p q history s =
    let v = (Step-Refines (reachable-Refines history).valid destroy).valid.indexed in
    let (count, lost, vq, off) = steps_lem n (destroyed p) q v refl s in
    let bound = sum_bound p.pool in
    (
      omega (arith, count, bound),
      LosesOldest-mono p q (omega (arith, bound)) lost,
      ended_or_step q q.pool vq off,
    )
