-- ===== src/ThreadPool/Operations.antt =====
-- What AddTask, delCloseFD and the worker's pop do to `_tasks` and `fd_task_map` of ThreadPool
-- (tools/sync_file/epoll_socket/threadpool.h).
use algo.Prelude.{
  ℕ, ◌≡◌, refl, sym, ap, ◌∙◌, inl, inr, true, none, some, List, [], ◌∷◌, ◌++◌, arith, append-nil,
  subst, ==_refl, Option-cases,
}
use algo.ThreadPool.{Node, ThreadPool, iterators, put, add_task, del_close_fd, take_task}
use algo.ThreadPool.Specification.{keep}
use algo.ThreadPool.Index.{
  addresses_of, without, NotAt, AreDistinct, addresses_of-append, AreDistinct-append,
  AreDistinct-without, erase_all-addresses_of, addresses_of-without, addresses_of-without_ne,
}

-- `fd_task_map` lists, for each descriptor, the addresses of its nodes in the queue's order, and
-- no address stands for two nodes.
pub record IsIndexed (p : ThreadPool) : Type 0 where
  pub listed : (fd : ℕ) → iterators (p.fd_task_map fd) ≡ addresses_of fd p.tasks
  pub distinct : AreDistinct p.tasks

-- The queue as the callers see it.
abbrev pub requests : List Node → List (ℕ × ℕ)
requests [] = []
requests (n ∷ ns) = (n.fd, n.task) ∷ requests ns

requests-append :
    (ns : List Node) (n : Node) → requests (ns ++ n ∷ []) ≡ requests ns ++ (n.fd, n.task) ∷ []
requests-append [] n = refl
requests-append (m ∷ ns) n = ap (◌∷◌ (m.fd, m.task)) (requests-append ns n)

requests-without : (fd : ℕ) (ns : List Node) → requests (without fd ns) ≡ keep fd (requests ns)
requests-without fd [] = refl
requests-without fd (n ∷ ns) = ground (arith, requests-without fd ns)

-- AddTask on a running pool puts the request at the end of the queue.
pub add_task_lem :
    (p : ThreadPool) (address fd task : ℕ)
    → IsIndexed p
    → NotAt address p.tasks
    → p.run ≡ true
    → (q : ThreadPool) × (add_task p address fd task ≡ some q)
      × IsIndexed q
      × (requests q.tasks ≡ requests p.tasks ++ (fd, task) ∷ [])
      × (q.pool ≡ p.pool)
      × (q.idle ≡ p.idle)
      × (q.run ≡ p.run)
unfolding add_task
add_task_lem p address fd task v free on =
    let n : Node = record { address = address; fd = fd; task = task } in
    (
      record p {
        tasks = p.tasks ++ n ∷ [];
        fd_task_map = put p.fd_task_map fd (some (iterators (p.fd_task_map fd) ++ address ∷ []));
      },
      ground arith,
      record {
        listed = λ k. ground (
          arith,
          addresses_of-append k p.tasks n,
          append-nil (addresses_of k p.tasks),
          v.listed k,
          v.listed fd,
        );
        distinct = AreDistinct-append p.tasks n v.distinct free;
      },
      requests-append p.tasks n,
      refl,
      refl,
      refl,
    )

-- A descriptor that the map misses has no node.
unlisted : (fd : ℕ) (ns : List Node) → addresses_of fd ns ≡ [] → without fd ns ≡ ns
unlisted fd [] h = refl
unlisted fd (n ∷ ns) h = ground (arith, unlisted fd ns)

-- delCloseFD removes the tasks of the descriptor and leaves the others in their order.
pub del_close_fd_lem :
    (p : ThreadPool) (fd : ℕ)
    → IsIndexed p
    → (q : ThreadPool) × (del_close_fd p fd ≡ some q)
      × IsIndexed q
      × (requests q.tasks ≡ keep fd (requests p.tasks))
      × (q.pool ≡ p.pool)
      × (q.idle ≡ p.idle)
      × (q.run ≡ p.run)
unfolding del_close_fd
del_close_fd_lem p fd v = elim (Option-cases (p.fd_task_map fd)) [
  | inl missing ↦
      let clear : addresses_of fd p.tasks ≡ [] = ground (arith, v.listed fd) in
      (
        p,
        ground arith,
        v,
        sym (ap requests (unlisted fd p.tasks clear)) ∙ requests-without fd p.tasks,
        refl,
        refl,
        refl,
      )
  | inr (items, found) ↦
      let all : items ≡ addresses_of fd p.tasks = ground (arith, v.listed fd) in
      (
        record p { tasks = without fd p.tasks; fd_task_map = put p.fd_task_map fd none },
        ground (arith, erase_all-addresses_of fd p.tasks v.distinct),
        record {
          listed = λ k. ground (
            arith,
            addresses_of-without fd p.tasks,
            addresses_of-without_ne fd k p.tasks,
            v.listed k,
          );
          distinct = AreDistinct-without fd p.tasks v.distinct;
        },
        requests-without fd p.tasks,
        refl,
        refl,
        refl,
      )
]

-- The worker's pop takes the oldest request.
pub take_task_lem :
    (p : ThreadPool) (n : Node) (ns : List Node)
    → IsIndexed p
    → p.tasks ≡ n ∷ ns
    → (q : ThreadPool) × (take_task p ≡ some (n.task, q))
      × IsIndexed q
      × (q.tasks ≡ ns)
      × (q.pool ≡ p.pool)
      × (q.idle ≡ p.idle)
      × (q.run ≡ p.run)
unfolding take_task
take_task_lem p n ns v e =
    let front : iterators (p.fd_task_map n.fd) ≡ n.address ∷ addresses_of n.fd ns =
      v.listed n.fd ∙ ap (addresses_of n.fd) e ∙ ground (arith, ==_refl n.fd) in
    let d : AreDistinct (n ∷ ns) = subst AreDistinct e v.distinct in
    (
      record p { tasks = ns; fd_task_map = put p.fd_task_map n.fd (some (addresses_of n.fd ns)) },
      ground arith,
      record {
        listed = λ k. let at_k = v.listed k ∙ ap (addresses_of k) e in ground (arith, at_k);
        distinct = d.1;
      },
      refl,
      refl,
      refl,
      refl,
    )
