-- ===== src/SharedPool/Order.antt =====
-- Any interleaving of AddTask, InitThreadSize, Destory and the workers of the pool of
-- include/threadpool.h, with the tasks that were submitted and those that a worker took.
use algo.Prelude.{
  ℕ, zero, suc, ◌≤◌, ◌≡◌, refl, sym, ap, subst, ◌∙◌, Option, none, some, List, [], ◌∷◌, ◌++◌, arith,
  true, false, append-nil, append_assoc, length, length-append, length-set, get_elem?,
  if◌then◌else◌,
}
use algo.Prelude.Int.{pos, ◌+ℤ◌}
use algo.SharedPool.{
  Worker, looping, waiting, taken, running, ran, exited, ThreadPool, add_task, init_thread_size,
  wake, worker_step, place, destory,
}

-- What a worker that comes to a new point has just taken.
abbrev pub took : Worker → List ℕ
took (taken t) = t ∷ []
took looping = []
took waiting = []
took (running t) = []
took ran = []
took exited = []

-- A run from one pool to another: the tasks submitted in it, and those taken, in order.
pub data Runs : ThreadPool → List ℕ → List ℕ → ThreadPool → Type 0 where
  rest : {p : ThreadPool} → Runs p [] [] p
  submit :
      {p q r : ThreadPool} {ss ts : List ℕ} (task : ℕ)
      → add_task p task ≡ some q
      → Runs q ss ts r
      → Runs p (task ∷ ss) ts r
  grow :
      {p r : ThreadPool} {ss ts : List ℕ} (size : ℕ)
      → Runs (init_thread_size p size) ss ts r
      → Runs p ss ts r
  work :
      {p q r : ThreadPool} {ss ts : List ℕ} (i : ℕ) (w w' : Worker)
      → get_elem? p.pool i ≡ some w
      → worker_step p w ≡ some (q, w')
      → Runs (place q i w') ss ts r
      → Runs p ss (took w' ++ ts) r
  stop : {p r : ThreadPool} {ss ts : List ℕ} → Runs (destory p) ss ts r → Runs p ss ts r

init_thread_size-tasks : (p : ThreadPool) (size : ℕ) → (init_thread_size p size).tasks ≡ p.tasks
unfolding init_thread_size
init_thread_size-tasks p zero = refl
init_thread_size-tasks p (suc size) =
    let more : ThreadPool = record p {
      pool = p.pool ++ looping ∷ [];
      idl_thr_num = p.idl_thr_num +ℤ pos 1;
    } in
    ground (arith, init_thread_size-tasks more size)

init_thread_size-pool :
    (p : ThreadPool) (size : ℕ) → length p.pool ≤ 16 → length (init_thread_size p size).pool ≤ 16
unfolding init_thread_size
init_thread_size-pool p zero h = h
init_thread_size-pool p (suc size) h =
    let more : ThreadPool = record p {
      pool = p.pool ++ looping ∷ [];
      idl_thr_num = p.idl_thr_num +ℤ pos 1;
    } in
    ground (arith, init_thread_size-pool more size, length-append p.pool (looping ∷ []))

-- A step of a worker takes the front task or none, and it changes no other worker.
abbrev pub TakesFront : ThreadPool → Option (ThreadPool × Worker) → Type 0
TakesFront p none = Unit {0}
TakesFront p (some (q, w)) = (p.tasks ≡ took w ++ q.tasks) × (q.pool ≡ p.pool) × (q.run ≡ p.run)

wake-TakesFront : (p : ThreadPool) (ts : List ℕ) → p.tasks ≡ ts → TakesFront p (wake p ts)
wake-TakesFront p [] e = elim p.run as (λ b. TakesFront p (if b then none else some (p, exited))) [
  | true ↦ tt
  | false ↦ (refl, refl, refl)
]
wake-TakesFront p (t ∷ ts) e = (e, refl, refl)

pub worker_step-TakesFront : (p : ThreadPool) (w : Worker) → TakesFront p (worker_step p w)
unfolding worker_step
worker_step-TakesFront p looping =
    elim p.run as (λ b. TakesFront p (some (p, if b then waiting else exited))) [
      | true ↦ (refl, refl, refl)
      | false ↦ (refl, refl, refl)
    ]
worker_step-TakesFront p waiting = wake-TakesFront p p.tasks refl
worker_step-TakesFront p (taken t) = (refl, refl, refl)
worker_step-TakesFront p (running t) = (refl, refl, refl)
worker_step-TakesFront p ran = (refl, refl, refl)
worker_step-TakesFront p exited = tt

add_task-tasks :
    (p q : ThreadPool) (task : ℕ)
    → add_task p task ≡ some q
    → (q.tasks ≡ p.tasks ++ task ∷ []) × (q.pool ≡ p.pool)
unfolding add_task
add_task-tasks p q task e = (ground arith, ground arith)

-- In any run from any pool, the tasks that were there and those submitted are, in this order, the
-- tasks that workers took and those that are left; and a pool of at most 16 threads stays one.
pub run_lem :
    (p q : ThreadPool) (ss ts : List ℕ)
    → Runs p ss ts q
    → length p.pool ≤ 16
    → (p.tasks ++ ss ≡ ts ++ q.tasks) × (length q.pool ≤ 16)
run_lem p q ss ts rest h = (append-nil p.tasks, h)
run_lem p q ss ts (submit {q = p'} {ss = ss'} task e r) h =
    let (added, same) = add_task-tasks p p' task e in
    let (order, few) = run_lem p' q ss' ts r (omega (arith, ap length same, h)) in
    (sym (append_assoc p.tasks (task ∷ []) ss') ∙ ap (λ us. us ++ ss') (sym added) ∙ order, few)
run_lem p q ss ts (grow size r) h =
    let (order, few) =
      run_lem (init_thread_size p size) q ss ts r (init_thread_size-pool p size h) in
    (ap (λ us. us ++ ss) (sym (init_thread_size-tasks p size)) ∙ order, few)
run_lem p q ss ts (work {q = p'} {ts = ts'} i w w' at e r) h =
    let (front, same, run) = subst (TakesFront p) e (worker_step-TakesFront p w) in
    let (order, few) =
      run_lem (place p' i w') q ss ts' r
        (omega (arith, ap length same, length-set p'.pool i w', h)) in
    (
      ap (λ us. us ++ ss) front
          ∙ append_assoc (took w') p'.tasks ss
          ∙ ap (λ us. took w' ++ us) order
          ∙ sym (append_assoc (took w') ts' q.tasks),
      few,
    )
run_lem p q ss ts (stop r) h = run_lem (destory p) q ss ts r h
