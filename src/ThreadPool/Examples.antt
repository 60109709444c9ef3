-- ===== src/ThreadPool/Examples.antt =====
-- Tests of ThreadPool (tools/sync_file/epoll_socket/threadpool.h), and its theorems at a pool
-- of two threads with two requests of descriptor 5 and one of descriptor 7.
use algo.Prelude.{◌≤◌, ◌*◌, ◌⊎◌, ◌≡◌, refl, arith, Option, none, some, List, [], ◌∷◌}
use algo.ThreadPool.{
  looping, waiting, taken, running, ThreadPool, fresh_pool, add_task, del_close_fd, add_thread,
  Outcome, moved, worker_step, destroyed, place,
}
use algo.ThreadPool.Specification.{Event, submitted, closed, started}
use algo.ThreadPool.Operations.{requests}
use algo.ThreadPool.Workers.{Progress}
use algo.ThreadPool.Runs.{
  submit, close, grow, work, Steps, start, next, Refines, reachable-Refines, reachable-Progress,
}
use algo.ThreadPool.Stopping.{WorkerSteps, LosesOldest, HaveEnded, CanStep, destroyed_lem}

abbrev two_threads : ThreadPool
unfolding add_thread
two_threads = add_thread fresh_pool 2

abbrev or_fresh : Option ThreadPool → ThreadPool
or_fresh none = fresh_pool
or_fresh (some p) = p

abbrev task_or_fresh : Outcome → ThreadPool
task_or_fresh (moved p w) = p
task_or_fresh o = fresh_pool

abbrev one_task : ThreadPool
unfolding add_thread add_task
one_task = or_fresh (add_task two_threads 100 5 1)

abbrev two_tasks : ThreadPool
unfolding add_thread add_task
two_tasks = or_fresh (add_task one_task 200 7 2)

abbrev three_tasks : ThreadPool
unfolding add_thread add_task
three_tasks = or_fresh (add_task two_tasks 300 5 3)

abbrev at_wait : ThreadPool
unfolding add_thread add_task
at_wait = place three_tasks 0 waiting

abbrev first_taken : ThreadPool
unfolding add_thread add_task worker_step
first_taken = place (task_or_fresh (worker_step at_wait waiting)) 0 (taken 1)

abbrev only_7 : ThreadPool
unfolding add_thread add_task worker_step del_close_fd
only_7 = or_fresh (del_close_fd first_taken 5)

abbrev history : List Event
history = submitted 5 1 ∷ submitted 7 2 ∷ submitted 5 3 ∷ started 1 ∷ closed 5 ∷ []

history_run : Steps fresh_pool history only_7
unfolding add_thread add_task worker_step del_close_fd
history_run = next {q = two_threads} (grow 2) (
    next {q = one_task} (submit 100 5 1 tt refl) (
      next {q = two_tasks} (submit 200 7 2 (omega arith, tt) refl) (
        next {q = three_tasks} (submit 300 5 3 (omega arith, (omega arith, tt)) refl) (
          next {q = at_wait} (work 0 looping waiting refl refl) (
            next {q = first_taken} (work 0 waiting (taken 1) refl refl)
              (next {q = only_7} (close 5 refl) start))))))

only_7_requests : requests only_7.tasks ≡ (7, 2) ∷ []
unfolding add_thread add_task worker_step del_close_fd
only_7_requests = refl

-- The first worker goes on with its task, whose descriptor has been closed.
reachable-Refines_example : Refines fresh_pool history only_7
reachable-Refines_example = reachable-Refines history_run

reachable-Progress_example : Progress only_7 (taken 1)
unfolding add_thread add_task worker_step del_close_fd
reachable-Progress_example = reachable-Progress 0 (taken 1) history_run refl

abbrev after_end : ThreadPool
unfolding add_thread add_task worker_step del_close_fd
after_end = place (task_or_fresh (worker_step (destroyed only_7) (taken 1))) 0 (running 1)

destroyed_lem_example :
    (1 ≤ 5 * 2)
    × LosesOldest 2 only_7 after_end
    × (HaveEnded after_end.pool ⊎ CanStep after_end after_end.pool)
unfolding add_thread add_task worker_step del_close_fd
destroyed_lem_example =
    destroyed_lem 1 only_7 after_end history_run
      (WorkerSteps.next 0 (taken 1) (running 1) refl refl WorkerSteps.start)
