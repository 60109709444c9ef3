-- ===== src/ThreadPool.antt =====
-- ThreadPool of tools/sync_file/epoll_socket/threadpool.h. A task is a number, and so is the
-- address of a list node, which is what an iterator holds. An operation on a pool returns none
-- where the program throws or has undefined behaviour.
pub mod Specification
pub mod Index
pub mod Operations
pub mod Workers
pub mod Runs
pub mod Stopping
mod Examples
use algo.Prelude.{
  ℕ, zero, suc, Bool, true, false, Option, none, some, List, [], ◌∷◌, ◌++◌, ◌==◌, if◌then◌else◌,
  ltb, length, set,
}
use algo.Prelude.Int.{ℤ, pos, ◌+ℤ◌, ◌-ℤ◌}

-- A node of `_tasks`.
pub record Node : Type 0 where
  pub address : ℕ
  pub fd : ℕ
  pub task : ℕ

-- Where a worker thread stands: at `while (_run)`, at the wait, behind the lock with its task,
-- in the task, behind it, or at its end.
pub data Worker : Type 0 where
  looping waiting : Worker
  taken running : ℕ → Worker
  ran exited : Worker

pub record ThreadPool : Type 0 where
  pub pool : List Worker
  pub tasks : List Node
  pub run : Bool
  pub idle : ℤ
  pub fd_task_map : ℕ → Option (List ℕ)

-- A pool as it is constructed.
abbrev pub fresh_pool : ThreadPool
fresh_pool = record { pool = []; tasks = []; run = true; idle = pos 0; fd_task_map = λ fd. none }

-- `fd_task_map[fd]`, which makes a missing list an empty one.
abbrev pub iterators : Option (List ℕ) → List ℕ
iterators none = []
iterators (some is) = is

abbrev pub put : (ℕ → Option (List ℕ)) → ℕ → Option (List ℕ) → ℕ → Option (List ℕ)
put m fd o = λ k. if fd == k then o else m k

-- AddTask, with the address of the new node; none stands for the `runtime_error`.
unfoldable pub add_task : ThreadPool → ℕ → ℕ → ℕ → Option ThreadPool
add_task p address fd task =
    if p.run
    then some (record p {
      tasks = p.tasks ++ record { address = address; fd = fd; task = task } ∷ [];
      fd_task_map = put p.fd_task_map fd (some (iterators (p.fd_task_map fd) ++ address ∷ []));
    })
    else none

-- `_tasks.erase`; an iterator of no node is undefined behaviour.
unfoldable pub erase : ℕ → List Node → Option (List Node)
erase item [] = none
erase item (n ∷ ns) =
    let rest = erase item ns in
    if n.address == item then some ns else elim rest [ none ↦ none | some ms ↦ some (n ∷ ms) ]

unfoldable pub erase_all : List ℕ → List Node → Option (List Node)
unfolding erase
erase_all [] ns = some ns
erase_all (i ∷ is) ns = elim (erase i ns) [ none ↦ none | some ms ↦ erase_all is ms ]

unfoldable pub del_close_fd : ThreadPool → ℕ → Option ThreadPool
unfolding erase_all
del_close_fd p fd = elim (p.fd_task_map fd) [
  | none ↦ some p
  | some items ↦ elim (erase_all items p.tasks) [
    | none ↦ none
    | some ns ↦ some (record p { tasks = ns; fd_task_map = put p.fd_task_map fd none })
  ]
]

-- The worker threads of addThread. The increment of `_idlThrNum` behind each is atomic and
-- commutes with the workers' own, so it is taken with the thread.
unfoldable pub add_thread : ThreadPool → ℕ → ThreadPool
add_thread p zero = p
add_thread p (suc size) =
    let more = record p { pool = p.pool ++ looping ∷ []; idle = p.idle +ℤ pos 1 } in
    let rest = add_thread more size in if ltb (length p.pool) 16 then rest else p

-- What a worker does under the lock, behind the wait: the front task and the pool without it.
unfoldable pub take_task : ThreadPool → Option (ℕ × ThreadPool)
take_task p = elim p.tasks [
  | [] ↦ none
  | n ∷ ns ↦ elim (iterators (p.fd_task_map n.fd)) [
    | [] ↦ none
    | i ∷ is ↦
        some (n.task, record p { tasks = ns; fd_task_map = put p.fd_task_map n.fd (some is) })
  ]
]

pub data Outcome : Type 0 where
  moved : ThreadPool → Worker → Outcome
  blocked undefined : Outcome

abbrev pub took : Option (ℕ × ThreadPool) → Outcome
took none = undefined
took (some r) = moved r.1 (taken r.0)

-- The wait and what follows it under the lock.
abbrev pub wake : ThreadPool → List Node → Outcome
unfolding take_task
wake p [] = if p.run then blocked else moved p exited
wake p (n ∷ ns) = took (take_task p)

-- The next step of a worker thread.
unfoldable pub worker_step : ThreadPool → Worker → Outcome
unfolding take_task
worker_step p looping = moved p (if p.run then waiting else exited)
worker_step p waiting = wake p p.tasks
worker_step p (taken t) = moved (record p { idle = p.idle -ℤ pos 1 }) (running t)
worker_step p (running t) = moved p ran
worker_step p ran = moved (record p { idle = p.idle +ℤ pos 1 }) looping
worker_step p exited = blocked

-- The beginning of the destructor.
abbrev pub destroyed : ThreadPool → ThreadPool
destroyed p = record p { run = false }

-- A worker, by its place in `_pool`, moves to a new point of its code.
abbrev pub place : ThreadPool → ℕ → Worker → ThreadPool
place p i w = record p { pool = set p.pool i w }
