-- ===== src/ThreadPool/Workers.antt =====
-- The worker threads of ThreadPool (tools/sync_file/epoll_socket/threadpool.h): their number,
-- the idle count, and their steps.
use algo.Prelude.{
  ℕ, zero, suc, ◌+◌, ◌≤◌, ◌≡◌, ◌⊎◌, refl, sym, ap, ◌∙◌, inl, inr, min, Bool, true, false, some,
  List, [], ◌∷◌, ◌++◌, arith, ltb, length, length-append, get_elem?, set, tests, Bool-cases,
}
use algo.Prelude.Int.{ℤ, pos, ◌+ℤ◌, ◌-ℤ◌, int_laws, pos_part, neg_part}
use algo.ThreadPool.{
  Node, Worker, looping, waiting, taken, running, ran, exited, ThreadPool, add_thread, moved,
  blocked, worker_step, took, wake,
}
use algo.ThreadPool.Specification.{Event, started, replay_all}
use algo.ThreadPool.Operations.{IsIndexed, requests, take_task_lem}

-- Whether `_idlThrNum` counts the worker as busy.
abbrev pub weight : Worker → ℕ
weight looping = 0
weight waiting = 0
weight (taken t) = 0
weight (running t) = 1
weight ran = 1
weight exited = 0

abbrev pub busy : List Worker → ℕ
busy [] = 0
busy (w ∷ ws) = weight w + busy ws

pub busy-set :
    (ws : List Worker) (i : ℕ) (w w' : Worker)
    → get_elem? ws i ≡ some w
    → busy (set ws i w') + weight w ≡ busy ws + weight w'
busy-set [] i w w' h = absurd (ground arith)
busy-set (v ∷ ws) zero w w' h = let e : v ≡ w = ground arith in rw (e) (omega arith)
busy-set (v ∷ ws) (suc i) w w' h = omega (arith, busy-set ws i w w' h)

busy-append : (ws : List Worker) → busy (ws ++ looping ∷ []) ≡ busy ws
busy-append [] = refl
busy-append (w ∷ ws) = omega (arith, busy-append ws)

-- idle + m = idle' + m', for two counts.
abbrev pub Balanced : ℤ → ℕ → ℤ → ℕ → Type 0
Balanced idle m idle' m' = pos_part idle + m + neg_part idle' ≡ pos_part idle' + m' + neg_part idle

-- `_idlThrNum` is the number of workers that are not busy, and there are at most sixteen.
pub record IsCounted (p : ThreadPool) : Type 0 where
  pub counted : Balanced p.idle (busy p.pool) (pos (length p.pool)) 0
  pub bounded : length p.pool ≤ 16

abbrev pub Added : ThreadPool → ℕ → ThreadPool → Type 0
Added p size q =
    IsCounted q
    × (length q.pool ≡ min 16 (length p.pool + size))
    × (q.tasks ≡ p.tasks)
    × (q.fd_task_map ≡ p.fd_task_map)
    × (q.run ≡ p.run)

-- addThread starts the threads asked for, up to sixteen in all, each idle, and leaves the
-- queue alone.
pub add_thread_lem : (p : ThreadPool) (size : ℕ) → IsCounted p → Added p size (add_thread p size)
unfolding add_thread
add_thread_lem p zero c = (c, omega (arith, c.bounded), refl, refl, refl)
add_thread_lem p (suc size) c = elim (Bool-cases (ltb (length p.pool) 16)) [
  | inl room ↦
      let longer = length-append p.pool (looping ∷ []) in
      let more = record p { pool = p.pool ++ looping ∷ []; idle = p.idle +ℤ pos 1 } in
      let (c', size', tasks, listed, on) = add_thread_lem more size (record {
        counted = omega (int_laws, c.counted, busy-append p.pool, longer);
        bounded = omega (tests, longer, room);
      }) in
      rw (room) (c', omega (arith, size', longer), tasks, listed, on)
  | inr full ↦
      let long : 16 ≤ length p.pool = ground arith in
      rw (full) (c, omega (arith, long, c.bounded), refl, refl, refl)
]

-- What a task's start shows of a worker that has moved.
abbrev pub seen : Worker → List Event
seen looping = []
seen waiting = []
seen (taken t) = started t ∷ []
seen (running t) = []
seen ran = []
seen exited = []

pub record Moves (p : ThreadPool) (w : Worker) (q : ThreadPool) (w' : Worker) : Type 0 where
  pub indexed : IsIndexed q
  pub same_pool : q.pool ≡ p.pool
  pub same_run : q.run ≡ p.run
  pub balance : Balanced q.idle (weight w') p.idle (weight w)
  pub served : replay_all (seen w') (requests p.tasks) ≡ some (requests q.tasks)

-- A worker rests only at its end, or when the queue of a running pool is empty; its other steps
-- are defined.
pub data Progress (p : ThreadPool) (w : Worker) : Type 0 where
  rests :
      worker_step p w ≡ blocked
      → (w ≡ exited) ⊎ ((w ≡ waiting) × (p.run ≡ true) × (p.tasks ≡ []))
      → Progress p w
  steps :
      (q : ThreadPool) (w' : Worker) → worker_step p w ≡ moved q w' → Moves p w q w' → Progress p w

quiet :
    (p : ThreadPool) (w w' : Worker) (idle : ℤ)
    → IsIndexed p
    → seen w' ≡ []
    → Balanced idle (weight w') p.idle (weight w)
    → Moves p w (record p { idle = idle }) w'
quiet p w w' idle v none_seen balance = record {
  indexed = record { listed = v.listed; distinct = v.distinct };
  same_pool = refl;
  same_run = refl;
  balance = balance;
  served = rw (none_seen) refl;
}

oldest_starts :
    (fd task : ℕ) (rs : List (ℕ × ℕ)) → replay_all (started task ∷ []) ((fd, task) ∷ rs) ≡ some rs
oldest_starts fd task rs = ground arith

waiting-Progress :
    (p : ThreadPool) (ts : List Node) → p.tasks ≡ ts → IsIndexed p → Progress p waiting
unfolding worker_step
waiting-Progress p [] e v = elim (Bool-cases p.run) [
  | inl on ↦ rests (rw (e, on) refl) (inr (refl, on, e))
  | inr off ↦ steps p exited (rw (e, off) refl) (quiet p waiting exited p.idle v refl (omega arith))
]
waiting-Progress p (n ∷ ns) e v =
    let (q, run, v', left, pool, idle, on) = take_task_lem p n ns v e in
    steps q (taken n.task) (ap (wake p) e ∙ ap took run) (record {
      indexed = v';
      same_pool = pool;
      same_run = on;
      balance = omega (arith, ap pos_part idle, ap neg_part idle);
      served =
          ap (λ ts. replay_all (started n.task ∷ []) (requests ts)) e
          ∙ oldest_starts n.fd n.task (requests ns)
          ∙ ap (λ ts. some (requests ts)) (sym left);
    })

looping-Progress : (p : ThreadPool) (b : Bool) → p.run ≡ b → IsIndexed p → Progress p looping
unfolding worker_step
looping-Progress p true e v =
    steps p waiting (rw (e) refl) (quiet p looping waiting p.idle v refl (omega arith))
looping-Progress p false e v =
    steps p exited (rw (e) refl) (quiet p looping exited p.idle v refl (omega arith))

-- Whatever a worker does next is defined; it rests only at its end or at the empty queue of a
-- running pool, and else it keeps the queue's order and the idle count.
pub worker_step-Progress : (p : ThreadPool) (w : Worker) → IsIndexed p → Progress p w
unfolding worker_step
worker_step-Progress p looping v = looping-Progress p p.run refl v
worker_step-Progress p waiting v = waiting-Progress p p.tasks refl v
worker_step-Progress p (taken t) v =
    let idle = p.idle -ℤ pos 1 in
    steps (record p { idle = idle }) (running t) refl
      (quiet p (taken t) (running t) idle v refl (omega int_laws))
worker_step-Progress p (running t) v =
    steps p ran refl (quiet p (running t) ran p.idle v refl (omega arith))
worker_step-Progress p ran v =
    let idle = p.idle +ℤ pos 1 in
    steps (record p { idle = idle }) looping refl (quiet p ran looping idle v refl (omega int_laws))
worker_step-Progress p exited v = rests refl (inl refl)
