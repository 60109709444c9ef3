-- ===== src/SyncFile/Server/Serving.antt =====
-- The invariant of ServerImpl (tools/sync_file/epoll_socket/server.cpp) with its thread pool.
use algo.Prelude.{
  ℕ, ◌≡◌, ◌⊎◌, inl, inr, refl, ◌∙◌, subst, arith, Bool, true, false, Option, none, some, List, [],
  ◌∷◌, ◌++◌, ◌==◌, ◌||◌, Bool-cases, get_elem?, ==_refl,
}
use algo.SyncFile.Effects.{Conn, Run, done, waiting, undefined}
use algo.SyncFile.Server.{
  ServerImpl, Reported, accept_client, recv_cmd, is_positive, queue_task, close_client, with_conn,
  client_event, begin_pass, end_pass, handle_pass, remove, put_conn, capture,
}
use algo.ThreadPool.{
  Worker, looping, waiting, taken, running, ran, exited, ThreadPool, worker_step, moved, place,
}
use algo.ThreadPool.Specification.{Event, submitted, closed, keep, replay_all}
use algo.ThreadPool.Index.{NotAt}
use algo.ThreadPool.Operations.{requests, add_task_lem, del_close_fd_lem}
use algo.ThreadPool.Workers.{seen}
use algo.ThreadPool.Runs
use algo.ThreadPool.Runs.{Step-Refines, submit, close, work, moved-Moves}

abbrev pub mem : ℕ → List ℕ → Bool
mem fd [] = false
mem fd (x ∷ xs) = (x == fd) || mem fd xs

-- Each request is of a descriptor in the list.
abbrev pub AreOf : List ℕ → List (ℕ × ℕ) → Type 0
AreOf fds [] = Unit {0}
AreOf fds (r ∷ rs) = (mem r.0 fds ≡ true) × AreOf fds rs

-- The pool runs and is well-formed, and what it has queued is of clients that epoll watches.
pub record IsServing (s : ServerImpl) : Type 0 where
  pub pool_valid : Runs.IsValid s.pool
  pub running : s.pool.run ≡ true
  pub watched : AreOf s.interest (requests s.pool.tasks)

AreOf-cons : (fds : List ℕ) (fd : ℕ) (rs : List (ℕ × ℕ)) → AreOf fds rs → AreOf (fd ∷ fds) rs
AreOf-cons fds fd [] h = tt
AreOf-cons fds fd (r ∷ rs) h = (ground (arith, h.0), AreOf-cons fds fd rs h.1)

AreOf-append :
    (fds : List ℕ) (rs : List (ℕ × ℕ)) (fd task : ℕ)
    → AreOf fds rs
    → mem fd fds ≡ true
    → AreOf fds (rs ++ (fd, task) ∷ [])
AreOf-append fds [] fd task h m = (m, tt)
AreOf-append fds (r ∷ rs) fd task h m = (h.0, AreOf-append fds rs fd task h.1 m)

mem-remove :
    (k fd : ℕ) (fds : List ℕ) → (fd == k) ≡ false → mem k fds ≡ true → mem k (remove fd fds) ≡ true
mem-remove k fd [] ne h = h
mem-remove k fd (x ∷ xs) ne h = ground (arith, mem-remove k fd xs ne)

AreOf-keep :
    (fds : List ℕ) (fd : ℕ) (rs : List (ℕ × ℕ)) → AreOf fds rs → AreOf (remove fd fds) (keep fd rs)
AreOf-keep fds fd [] h = tt
AreOf-keep fds fd (r ∷ rs) h = elim (Bool-cases (r.0 == fd)) [
  | inl e ↦ rw (e) (AreOf-keep fds fd rs h.1)
  | inr e ↦ rw (e) (mem-remove r.0 fd fds (ground arith) h.0, AreOf-keep fds fd rs h.1)
]

from_some : {rs ss : List (ℕ × ℕ)} → some rs ≡ some ss → rs ≡ ss
from_some e = ground arith

AreOf-seen :
    (fds : List ℕ) (w : Worker) (rs ss : List (ℕ × ℕ))
    → replay_all (seen w) rs ≡ some ss
    → AreOf fds rs
    → AreOf fds ss
AreOf-seen fds looping rs ss e h = subst (AreOf fds) (from_some e) h
AreOf-seen fds waiting rs ss e h = subst (AreOf fds) (from_some e) h
AreOf-seen fds (taken t) [] ss e h = absurd (ground arith)
AreOf-seen fds (taken t) (r ∷ rs) ss e h =
    let rest : rs ≡ ss = ground arith in subst (AreOf fds) rest h.1
AreOf-seen fds (running t) rs ss e h = subst (AreOf fds) (from_some e) h
AreOf-seen fds ran rs ss e h = subst (AreOf fds) (from_some e) h
AreOf-seen fds exited rs ss e h = subst (AreOf fds) (from_some e) h

-- What a pass may do to a server: it does not come back or overruns its buffer only as RecvBuff
-- does, and else it leaves the server serving.
pub data Passes (s : ServerImpl) (fd : ℕ) (r : Run ServerImpl) : Type 0 where
  stalls : r ≡ waiting → recv_cmd (s.conns fd) ≡ waiting → Passes s fd r
  overruns : r ≡ undefined → recv_cmd (s.conns fd) ≡ undefined → Passes s fd r
  serves : (s' : ServerImpl) → r ≡ done s' → IsServing s' → Passes s fd r

-- The pool of a server, changed in a step.
pool-IsServing :
    (s s' : ServerImpl) (es : List Event)
    → Runs.Refines s.pool es s'.pool
    → s'.pool.run ≡ true
    → ((ss : List (ℕ × ℕ)) → replay_all es (requests s.pool.tasks) ≡ some ss → AreOf s'.interest ss)
    → IsServing s'
pool-IsServing s s' es step on h = record {
  pool_valid = step.valid;
  running = on;
  watched = h (requests s'.pool.tasks) step.replays;
}

pub queue_task-IsServing :
    (s : ServerImpl) (address fd : ℕ) (r : ℕ × List ℕ)
    → IsServing s
    → NotAt address s.pool.tasks
    → mem fd s.interest ≡ true
    → (s' : ServerImpl) × (queue_task s address fd r ≡ done s')
      × IsServing s'
      × (requests s'.pool.tasks ≡ requests s.pool.tasks ++ (fd, s.passes) ∷ [])
      × (s'.frame ≡ some (record { number = s.passes; cmd = r.1; len = r.0 }))
      × (s'.conns ≡ s.conns)
      × (s'.captured s.passes ≡ some fd)
      × (s'.passes ≡ s.passes)
queue_task-IsServing s address fd r v free m =
    let (q, run, i, more, pool, idle, on) =
      add_task_lem s.pool address fd s.passes v.pool_valid.indexed free v.running in
    let step = Step-Refines v.pool_valid (submit address fd s.passes free run) in
    let s' = record s {
      pool = q;
      frame = some (record { number = s.passes; cmd = r.1; len = r.0 });
      captured = capture s.captured s.passes fd;
    } in
    (
      s',
      rw (run, queue_task, close_client) refl,
      pool-IsServing s s' (submitted fd s.passes ∷ []) step (on ∙ v.running) (λ ss e.
          subst (AreOf s.interest) (from_some e)
            (AreOf-append s.interest (requests s.pool.tasks) fd s.passes v.watched m)),
      more,
      refl,
      refl,
      rw (==_refl s.passes) refl,
      refl,
    )

pub close_client-IsServing :
    (s : ServerImpl) (fd : ℕ)
    → IsServing s
    → (s' : ServerImpl) × (close_client s fd ≡ done s')
      × IsServing s'
      × (requests s'.pool.tasks ≡ keep fd (requests s.pool.tasks))
      × (s'.serv_sock ≡ s.serv_sock)
close_client-IsServing s fd v =
    let (q, run, i, kept, pool, idle, on) = del_close_fd_lem s.pool fd v.pool_valid.indexed in
    let step = Step-Refines v.pool_valid (close fd run) in
    let s' = record s {
      interest = remove fd s.interest;
      conns = put_conn s.conns fd none;
      pool = q;
    } in
    (
      s',
      rw (run, queue_task, close_client) refl,
      pool-IsServing s s' (closed fd ∷ []) step (on ∙ v.running) (λ ss e.
          subst (AreOf (remove fd s.interest)) (from_some e)
            (AreOf-keep s.interest fd (requests s.pool.tasks) v.watched)),
      kept,
      refl,
    )

pub with_conn-IsServing :
    (s : ServerImpl) (fd : ℕ) (conn : Option Conn) → IsServing s → IsServing (with_conn s fd conn)
with_conn-IsServing s fd conn v = record {
  pool_valid = v.pool_valid;
  running = v.running;
  watched = v.watched;
}

pub end_pass-IsServing : (s : ServerImpl) → IsServing s → IsServing (end_pass s)
end_pass-IsServing s v = record {
  pool_valid = v.pool_valid;
  running = v.running;
  watched = v.watched;
}

pub accept_client-IsServing :
    (s : ServerImpl) (o : Option (ℕ × Conn)) → IsServing s → IsServing (accept_client s o)
unfolding accept_client
accept_client-IsServing s none v = v
accept_client-IsServing s (some (fd, conn)) v = record {
  pool_valid = v.pool_valid;
  running = v.running;
  watched = AreOf-cons s.interest fd (requests s.pool.tasks) v.watched;
}

client_event-Passes :
    (s : ServerImpl) (address fd : ℕ) (r : Run ((ℕ × List ℕ) × Option Conn))
    → recv_cmd (s.conns fd) ≡ r
    → IsServing s
    → NotAt address s.pool.tasks
    → mem fd s.interest ≡ true
    → Passes s fd (client_event s address fd)
unfolding client_event
client_event-Passes s address fd (done (r, conn)) e v free m =
    let s1 = with_conn s fd conn in
    let v1 = with_conn-IsServing s fd conn v in
    elim (Bool-cases (is_positive r.0)) [
      | inl command ↦
          let (s', run, v', more, var, conns, kept, number) =
            queue_task-IsServing s1 address fd r v1 free m in
          serves s' (rw (e, command, client_event) run) v'
      | inr gone ↦
          let (s', run, v', kept, same) = close_client-IsServing s1 fd v1 in
          serves s' (rw (e, gone, client_event) run) v'
    ]
client_event-Passes s address fd waiting e v free m = stalls (rw (e, client_event) refl) e
client_event-Passes s address fd undefined e v free m = overruns (rw (e, client_event) refl) e

begin_pass-Passes :
    (s : ServerImpl) (address : ℕ) (ev : Reported)
    → IsServing s
    → NotAt address s.pool.tasks
    → (ev.fd ≡ s.serv_sock) ⊎ (mem ev.fd s.interest ≡ true)
    → Passes s ev.fd (begin_pass s address ev)
unfolding begin_pass
begin_pass-Passes s address ev v free known = elim (Bool-cases (ev.fd == s.serv_sock)) [
  | inl e ↦
      serves (accept_client s ev.accepted) (rw (e) refl) (accept_client-IsServing s ev.accepted v)
  | inr e ↦ elim (Bool-cases ev.readable) [
    | inl r ↦
        rw (e, r)
          (client_event-Passes s address ev.fd (recv_cmd (s.conns ev.fd)) refl v free
            (ground arith))
    | inr r ↦ serves s (rw (e, r) refl) v
  ]
]

-- A pass over an event of the listening socket or of a watched client, whatever it is: it comes
-- back unless RecvBuff does not, it is defined unless RecvBuff overruns `cmd` (AddTask does not
-- throw, and delCloseFD erases through valid iterators), and then what the pool has queued is of
-- clients that epoll watches.
pub handle_pass-Passes :
    (s : ServerImpl) (address : ℕ) (ev : Reported)
    → IsServing s
    → NotAt address s.pool.tasks
    → (ev.fd ≡ s.serv_sock) ⊎ (mem ev.fd s.interest ≡ true)
    → Passes s ev.fd (handle_pass s address ev)
unfolding handle_pass
handle_pass-Passes s address ev v free known = elim (begin_pass-Passes s address ev v free known) [
  | stalls e why ↦ stalls (rw (e, handle_pass) refl) why
  | overruns e why ↦ overruns (rw (e, handle_pass) refl) why
  | serves s' e v' ↦ serves (end_pass s') (rw (e, handle_pass) refl) (end_pass-IsServing s' v')
]

-- Between the passes the workers take tasks.
pub work-IsServing :
    (s : ServerImpl) (i : ℕ) (w w' : Worker) (q : ThreadPool)
    → IsServing s
    → get_elem? s.pool.pool i ≡ some w
    → worker_step s.pool w ≡ moved q w'
    → IsServing (record s { pool = place q i w' })
work-IsServing s i w w' q v at run =
    let step = Step-Refines v.pool_valid (work i w w' at run) in
    let m = moved-Moves s.pool q w w' v.pool_valid.indexed run in
    pool-IsServing s (record s { pool = place q i w' }) (seen w') step (m.same_run ∙ v.running)
      (λ ss e. AreOf-seen s.interest w' (requests s.pool.tasks) ss e v.watched)
