-- ===== src/SharedPool/Examples.antt =====
-- Runs of the pool of include/threadpool.h, and the theorems at them.
use algo.Prelude.{◌≡◌, ◌≤◌, ◌⊎◌, refl, arith, true, false, [], ◌∷◌, ◌++◌, length, ◌*◌}
use algo.Prelude.Int.{pos, ◌+ℤ◌}
use algo.SharedPool.{
  looping, waiting, taken, exited, ThreadPool, get_instance, add_task, init_thread_size,
  worker_step, destory, AreJoined, idl_count, thr_count, task_count,
}
use algo.SharedPool.Order.{Runs, rest, submit, grow, work, run_lem}
use algo.SharedPool.Stopping.{WorkerSteps, start, next, CanStep, destory_lem}

-- Two threads, tasks 7 and 8, and the second thread with task 7.
abbrev two_threads : ThreadPool
two_threads = record {
  pool = looping ∷ taken 7 ∷ [];
  tasks = 8 ∷ [];
  run = true;
  idl_thr_num = pos 2;
}

two_threads-counts :
    (idl_count two_threads ≡ pos 2) × (thr_count two_threads ≡ 2) × (task_count two_threads ≡ 1)
two_threads-counts = (refl, refl, refl)

two_threads-Runs : Runs get_instance (7 ∷ 8 ∷ []) (7 ∷ []) two_threads
unfolding add_task init_thread_size worker_step ◌+ℤ◌
two_threads-Runs = grow 2 (
    submit 7 refl
      (submit 8 refl (work 1 looping waiting refl refl (work 1 waiting (taken 7) refl refl rest))))

run_lem_example :
    (get_instance.tasks ++ 7 ∷ 8 ∷ [] ≡ (7 ∷ []) ++ two_threads.tasks)
    × (length two_threads.pool ≤ 16)
run_lem_example =
    run_lem get_instance two_threads (7 ∷ 8 ∷ []) (7 ∷ []) two_threads-Runs (omega arith)

-- Stopped, the first thread ends.
abbrev one_ended : ThreadPool
one_ended = record {
  pool = exited ∷ taken 7 ∷ [];
  tasks = 8 ∷ [];
  run = false;
  idl_thr_num = pos 2;
}

one_ended-WorkerSteps : WorkerSteps 1 (destory two_threads) one_ended
unfolding worker_step
one_ended-WorkerSteps = next 0 looping exited refl refl start

destory_lem_example :
    (1 ≤ 5 * length two_threads.pool) × (AreJoined one_ended.pool ⊎ CanStep one_ended)
destory_lem_example = destory_lem 1 two_threads one_ended one_ended-WorkerSteps
