-- ===== src/ThreadPool/Runs.antt =====
-- Runs of ThreadPool (tools/sync_file/epoll_socket/threadpool.h): any interleaving of AddTask,
-- delCloseFD, addThread, the destructor's beginning and the steps of the workers. A critical
-- section under `_lock` is one step.
use algo.Prelude.{
  ℕ, ◌≡◌, refl, sym, ap, ◌∙◌, inl, inr, subst, some, List, [], ◌∷◌, ◌++◌, arith, length, length-set,
  get_elem?, Bool-cases, Option-cases,
}
use algo.Prelude.Int.{pos_part, neg_part}
use algo.ThreadPool.{
  iterators, Worker, exited, ThreadPool, fresh_pool, add_task, del_close_fd, add_thread, Outcome,
  moved, blocked, undefined, worker_step, destroyed, place,
}
use algo.ThreadPool.Specification.{Event, submitted, closed, replay, replay_all}
use algo.ThreadPool.Index.{NotAt, addresses_of, AreDistinct}
use algo.ThreadPool.Operations.{IsIndexed, requests, add_task_lem, del_close_fd_lem}
use algo.ThreadPool.Workers.{
  busy, busy-set, IsCounted, add_thread_lem, seen, Moves, Progress, rests, steps,
  worker_step-Progress,
}

-- A step, with what its users see of it. A new node has an address that no node has.
pub data Step : ThreadPool → List Event → ThreadPool → Type 0 where
  submit :
      {p q : ThreadPool} (address fd task : ℕ)
      → NotAt address p.tasks
      → add_task p address fd task ≡ some q
      → Step p (submitted fd task ∷ []) q
  close : {p q : ThreadPool} (fd : ℕ) → del_close_fd p fd ≡ some q → Step p (closed fd ∷ []) q
  grow : {p : ThreadPool} (size : ℕ) → Step p [] (add_thread p size)
  work :
      {p q : ThreadPool} (i : ℕ) (w w' : Worker)
      → get_elem? p.pool i ≡ some w
      → worker_step p w ≡ moved q w'
      → Step p (seen w') (place q i w')
  destroy : {p : ThreadPool} → Step p [] (destroyed p)

pub data Steps : ThreadPool → List Event → ThreadPool → Type 0 where
  start : {p : ThreadPool} → Steps p [] p
  next :
      {p q r : ThreadPool} {es fs : List Event} → Step p es q → Steps q fs r → Steps p (es ++ fs) r

pub record IsValid (p : ThreadPool) : Type 0 where
  pub indexed : IsIndexed p
  pub counts : IsCounted p

-- A step keeps the invariant, and what is seen of it is a step of the queue of requests.
pub record Refines (p : ThreadPool) (es : List Event) (q : ThreadPool) : Type 0 where
  pub valid : IsValid q
  pub replays : replay_all es (requests p.tasks) ≡ some (requests q.tasks)

abbrev pool_of : ThreadPool → Outcome → ThreadPool
pool_of d (moved q w) = q
pool_of d blocked = d
pool_of d undefined = d

abbrev worker_of : Outcome → Worker
worker_of (moved q w) = w
worker_of blocked = exited
worker_of undefined = exited

abbrev WasMoved : Outcome → Type 0
WasMoved (moved q w) = Unit {0}
WasMoved blocked = ⊥
WasMoved undefined = ⊥

pub moved-Moves :
    (p q : ThreadPool) (w w' : Worker) → IsIndexed p → worker_step p w ≡ moved q w' → Moves p w q w'
moved-Moves p q w w' v run = elim (worker_step-Progress p w v) [
  | rests rest why ↦ absurd (subst WasMoved (sym run ∙ rest) tt)
  | steps q' v' run' m ↦ subst (λ o. Moves p w (pool_of p o) (worker_of o)) (sym run' ∙ run) m
]

pub some_eq : {p q : ThreadPool} → some p ≡ some q → p ≡ q
some_eq e = ground arith

place-IsValid :
    (p q : ThreadPool) (i : ℕ) (w w' : Worker)
    → IsCounted p
    → get_elem? p.pool i ≡ some w
    → Moves p w q w'
    → IsValid (place q i w')
place-IsValid p q i w w' c at m =
    let at' : get_elem? q.pool i ≡ some w = rw (m.same_pool) at in
    let size = ap length m.same_pool in
    let same = ap busy m.same_pool in
    record {
      indexed = record { listed = m.indexed.listed; distinct = m.indexed.distinct };
      counts = record {
        counted = omega (
          arith,
          busy-set q.pool i w w' at',
          same,
          m.balance,
          c.counted,
          size,
          length-set q.pool i w',
        );
        bounded = omega (arith, c.bounded, size, length-set q.pool i w');
      };
    }

same-IsCounted : (p q : ThreadPool) → q.pool ≡ p.pool → q.idle ≡ p.idle → IsCounted p → IsCounted q
same-IsCounted p q pool idle c =
    let size = ap length pool in
    record {
      counted = omega (arith, c.counted, size, ap busy pool, ap pos_part idle, ap neg_part idle);
      bounded = omega (arith, c.bounded, size);
    }

submit-Refines :
    (p q : ThreadPool) (address fd task : ℕ)
    → IsValid p
    → NotAt address p.tasks
    → add_task p address fd task ≡ some q
    → Refines p (submitted fd task ∷ []) q
unfolding add_task
submit-Refines p q address fd task v free run = elim (Bool-cases p.run) [
  | inl on ↦
      let (q', run', v', more, pool, idle, same_run) =
        add_task_lem p address fd task v.indexed free on in
      subst (Refines p (submitted fd task ∷ [])) (some_eq (sym run' ∙ run)) (record {
        valid = record { indexed = v'; counts = same-IsCounted p q' pool idle v.counts };
        replays = ap some (sym more);
      })
  | inr off ↦ ground arith
]

close-Refines :
    (p q : ThreadPool) (fd : ℕ)
    → IsValid p
    → del_close_fd p fd ≡ some q
    → Refines p (closed fd ∷ []) q
close-Refines p q fd v run =
    let (q', run', v', kept, pool, idle, on) = del_close_fd_lem p fd v.indexed in
    subst (Refines p (closed fd ∷ [])) (some_eq (sym run' ∙ run)) (record {
      valid = record { indexed = v'; counts = same-IsCounted p q' pool idle v.counts };
      replays = ap some (sym kept);
    })

grow-Refines : (p : ThreadPool) (size : ℕ) → IsValid p → Refines p [] (add_thread p size)
grow-Refines p size v =
    let (c, length', tasks, listed, on) = add_thread_lem p size v.counts in
    record {
      valid = record {
        indexed = record {
          listed = λ fd.
              ap (λ m. iterators (m fd)) listed
              ∙ v.indexed.listed fd
              ∙ ap (addresses_of fd) (sym tasks);
          distinct = subst AreDistinct (sym tasks) v.indexed.distinct;
        };
        counts = c;
      };
      replays = ap (λ ts. some (requests ts)) (sym tasks);
    }

-- Every step of a well-formed pool leaves it well-formed, and replays on the queue of requests.
pub Step-Refines : {p q : ThreadPool} {es : List Event} → IsValid p → Step p es q → Refines p es q
Step-Refines {p = p} v (submit {q = q} address fd task free run) =
    submit-Refines p q address fd task v free run
Step-Refines {p = p} v (close {q = q} fd run) = close-Refines p q fd v run
Step-Refines {p = p} v (grow size) = grow-Refines p size v
Step-Refines {p = p} v (work {q = q} i w w' at run) =
    let m = moved-Moves p q w w' v.indexed run in
    record { valid = place-IsValid p q i w w' v.counts at m; replays = m.served }
Step-Refines {p = p} v destroy = record {
  valid = record {
    indexed = record { listed = v.indexed.listed; distinct = v.indexed.distinct };
    counts = record { counted = v.counts.counted; bounded = v.counts.bounded };
  };
  replays = refl;
}

replay_all-append :
    (es fs : List Event) (rs ss : List (ℕ × ℕ))
    → replay_all es rs ≡ some ss
    → replay_all (es ++ fs) rs ≡ replay_all fs ss
replay_all-append [] fs rs ss h = ap (replay_all fs) (ground arith)
replay_all-append (e ∷ es) fs rs ss h = elim (Option-cases (replay e rs)) [
  | inl stuck ↦ ground arith
  | inr (rs', went) ↦
      let rest : replay_all es rs' ≡ some ss = ground arith in
      ground (arith, replay_all-append es fs rs' ss rest)
]

pub Steps-Refines : {p q : ThreadPool} {es : List Event} → IsValid p → Steps p es q → Refines p es q
Steps-Refines v start = record { valid = v; replays = refl }
Steps-Refines {p = p} v (next {q = q} {r = r} {es = es} {fs = fs} s ss) =
    let first = Step-Refines v s in
    let rest = Steps-Refines first.valid ss in
    record {
      valid = rest.valid;
      replays =
          replay_all-append es fs (requests p.tasks) (requests q.tasks) first.replays
          ∙ rest.replays;
    }

fresh_pool-IsValid : IsValid fresh_pool
fresh_pool-IsValid = record {
  indexed = record { listed = λ fd. refl; distinct = tt };
  counts = record { counted = refl; bounded = omega arith };
}

-- Whatever a fresh pool has been through, its map lists each descriptor's nodes in the queue's
-- order, it has at most sixteen threads of which the idle count tells the ones that run no task,
-- and its queue is what the submissions, the closed descriptors and the starts of tasks make of
-- an empty queue: tasks start in the order of submission, and delCloseFD removes those of its
-- descriptor that have not started, and no others.
pub reachable-Refines :
    {p : ThreadPool} {es : List Event} → Steps fresh_pool es p → Refines fresh_pool es p
reachable-Refines s = Steps-Refines fresh_pool-IsValid s

-- No worker of a reachable pool runs into undefined behaviour, and one rests only when it has
-- ended, or in a running pool without tasks.
pub reachable-Progress :
    {p : ThreadPool} {es : List Event} (i : ℕ) (w : Worker)
    → Steps fresh_pool es p
    → get_elem? p.pool i ≡ some w
    → Progress p w
reachable-Progress {p = p} i w s at = worker_step-Progress p w (reachable-Refines s).valid.indexed
