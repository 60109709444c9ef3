-- ===== src/SharedPool.antt =====
-- ThreadPool of include/threadpool.h, the one pool of a program. A task is a number.
pub mod Order
pub mod Stopping
mod Examples
use algo.Prelude.{
  ℕ, zero, suc, Bool, true, false, Option, none, some, List, [], ◌∷◌, ◌++◌, if◌then◌else◌, ltb,
  length, set,
}
use algo.Prelude.Int.{ℤ, pos, ◌+ℤ◌, ◌-ℤ◌}

-- Where a worker thread stands: at `while (run_)`, at the wait, behind the lock with its task, in
-- the task, behind it, or at its end.
pub data Worker : Type 0 where
  looping waiting : Worker
  taken running : ℕ → Worker
  ran exited : Worker

pub record ThreadPool : Type 0 where
  pub pool : List Worker
  pub tasks : List ℕ
  pub run : Bool
  pub idl_thr_num : ℤ

-- The pool that GetInstance makes.
abbrev pub get_instance : ThreadPool
get_instance = record { pool = []; tasks = []; run = true; idl_thr_num = pos 0 }

-- none stands for the `runtime_error`.
unfoldable pub add_task : ThreadPool → ℕ → Option ThreadPool
add_task p task = if p.run then some (record p { tasks = p.tasks ++ task ∷ [] }) else none

-- The increment of `idlThrNum_` behind each thread is atomic and commutes with the workers' own, so
-- it is taken with the thread.
unfoldable pub init_thread_size : ThreadPool → ℕ → ThreadPool
init_thread_size p zero = p
init_thread_size p (suc size) =
    let more = record p { pool = p.pool ++ looping ∷ []; idl_thr_num = p.idl_thr_num +ℤ pos 1 } in
    let rest = init_thread_size more size in if ltb (length p.pool) 16 then rest else p

-- The wait and what follows it under the lock; none if the worker goes on waiting.
abbrev pub wake : ThreadPool → List ℕ → Option (ThreadPool × Worker)
wake p [] = if p.run then none else some (p, exited)
wake p (t ∷ ts) = some (record p { tasks = ts }, taken t)

-- The next step of a worker thread.
unfoldable pub worker_step : ThreadPool → Worker → Option (ThreadPool × Worker)
worker_step p looping = some (p, if p.run then waiting else exited)
worker_step p waiting = wake p p.tasks
worker_step p (taken t) = some (record p { idl_thr_num = p.idl_thr_num -ℤ pos 1 }, running t)
worker_step p (running t) = some (p, ran)
worker_step p ran = some (record p { idl_thr_num = p.idl_thr_num +ℤ pos 1 }, looping)
worker_step p exited = none

-- A worker, by its place in `pool_`, moves to a new point of its code.
abbrev pub place : ThreadPool → ℕ → Worker → ThreadPool
place p i w = record p { pool = set p.pool i w }

-- Destory up to its loop of `join`, and when a `join` returns.
abbrev pub destory : ThreadPool → ThreadPool
destory p = record p { run = false }

abbrev pub AreJoined : List Worker → Type 0
AreJoined [] = Unit {0}
AreJoined (exited ∷ ws) = AreJoined ws
AreJoined (w ∷ ws) = ⊥

-- IdlCount, ThrCount and TaskCount.
abbrev pub idl_count : ThreadPool → ℤ
idl_count p = p.idl_thr_num

abbrev pub thr_count : ThreadPool → ℕ
thr_count p = length p.pool

abbrev pub task_count : ThreadPool → ℕ
task_count p = length p.tasks
