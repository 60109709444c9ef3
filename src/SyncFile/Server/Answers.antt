-- ===== src/SyncFile/Server/Answers.antt =====
-- How ServerImpl (tools/sync_file/epoll_socket/server.cpp) answers a command.
use algo.Prelude.{
  ap, ◌∙◌, ◌⊎◌, inl, inr, Option-cases, Bool, Option, Bool-cases, ==_ne, ℕ, ◌+◌, ◌*◌, ◌≤◌, ◌<◌, ◌≡◌,
  refl, arith, true, false, none, some, List, [], ◌∷◌, ◌++◌, ◌==◌, length, replicate,
  length-replicate, ==_refl,
}
use algo.SyncFile.Effects.{Turn, Run, waiting, Conn, done, undefined, Supplies, Goes}
use algo.SyncFile.Bytes.{overlay}
use algo.SyncFile.Frames.{recv_buff}
use algo.SyncFile.Frames.Laws.{frame, recv_buff_live}
use algo.SyncFile.File.{Disk, Report, parts}
use algo.SyncFile.Sending.{sync_send_file}
use algo.SyncFile.Sending.Laws.{IsSendable, transfer, sync_send_file_live}
use algo.SyncFile.Server.{
  ServerImpl, Frame, Reported, accept_client, queue_task, close_client, after_task, send_to,
  recv_cmd, is_positive, with_conn, client_event, begin_pass, end_pass, run_task,
}
use algo.SyncFile.Server.Serving.{IsServing, mem, queue_task-IsServing, with_conn-IsServing}
use algo.ThreadPool.{add_task, del_close_fd}
use algo.ThreadPool.Index.{NotAt}
use algo.ThreadPool.Operations.{requests}

abbrev pub command_buffer : List ℕ → List ℕ
command_buffer name = overlay name (replicate 256 0)

-- A watched client has sent a command of one frame, and the bytes behind it wait; the turns of its
-- connection are enough for the command and `b` bytes more.
pub record HasCommand (s : ServerImpl) (fd : ℕ) (k : Conn) (name rest : List ℕ) (b c : ℕ)
    : Type 0 where
  pub client : (fd == s.serv_sock) ≡ false
  pub watched : mem fd s.interest ≡ true
  pub conn : s.conns fd ≡ some k
  pub sent : k.incoming ≡ frame name ++ rest
  pub some_name : 0 < length name
  pub short : length name ≤ 256
  pub live : Supplies c k.turns
  pub enough : 8 + length name + b ≤ c

send_to_lem :
    (disk : Disk) (s : ServerImpl) (fd : ℕ) (var : Frame) (k : Conn)
    (r : Run ((Bool × Report) × ServerImpl))
    → s.conns fd ≡ some k
    → after_task s fd (sync_send_file disk var.cmd var.len k) ≡ r
    → send_to disk s fd var ≡ r
unfolding send_to
send_to_lem disk s fd var k r e run = rw (e, send_to) run

run_task_lem :
    (disk : Disk) (s : ServerImpl) (task fd : ℕ) (var : Frame)
    (r : Run ((Bool × Report) × ServerImpl))
    → s.captured task ≡ some fd
    → s.frame ≡ some var
    → var.number ≡ task
    → send_to disk s fd var ≡ r
    → run_task disk s task ≡ r
unfolding run_task
run_task_lem disk s task fd var r kept there e run = rw (kept, there, run_task, e, ==_refl task) run

-- The variables of a server behind the beginning of a pass are those from before, or those of this
-- pass.
abbrev HasFrame : ServerImpl → Run ServerImpl → Type 0
HasFrame s (done s') =
    (s'.frame ≡ s.frame) ⊎ ((f : Frame) × (s'.frame ≡ some f) × (f.number ≡ s.passes))
HasFrame s waiting = Unit
HasFrame s undefined = Unit

queue_task-HasFrame :
    (s : ServerImpl) (address fd : ℕ) (r : ℕ × List ℕ) → HasFrame s (queue_task s address fd r)
queue_task-HasFrame s address fd r = elim (Option-cases (add_task s.pool address fd s.passes)) [
  | inl e ↦ rw (e, queue_task) tt
  | inr (pool, e) ↦ rw (e, queue_task) (inr (_, refl, refl))
]

close_client-HasFrame : (s : ServerImpl) (fd : ℕ) → HasFrame s (close_client s fd)
close_client-HasFrame s fd = elim (Option-cases (del_close_fd s.pool fd)) [
  | inl e ↦ rw (e, close_client) tt
  | inr (pool, e) ↦ rw (e, close_client) (inl refl)
]

client_event-HasFrame :
    (s : ServerImpl) (address fd : ℕ) (r : Run ((ℕ × List ℕ) × Option Conn))
    → recv_cmd (s.conns fd) ≡ r
    → HasFrame s (client_event s address fd)
unfolding client_event
client_event-HasFrame s address fd (done (r, conn)) e = elim (Bool-cases (is_positive r.0)) [
  | inl command ↦
      rw (e, command, client_event) (queue_task-HasFrame (with_conn s fd conn) address fd r)
  | inr gone ↦ rw (e, gone, client_event) (close_client-HasFrame (with_conn s fd conn) fd)
]
client_event-HasFrame s address fd waiting e = rw (e, client_event) tt
client_event-HasFrame s address fd undefined e = rw (e, client_event) tt

accept_client-frame : (s : ServerImpl) (o : Option (ℕ × Conn)) → (accept_client s o).frame ≡ s.frame
unfolding accept_client
accept_client-frame s none = refl
accept_client-frame s (some c) = refl

begin_pass-HasFrame :
    (s : ServerImpl) (address : ℕ) (ev : Reported) → HasFrame s (begin_pass s address ev)
unfolding begin_pass
begin_pass-HasFrame s address ev = elim (Bool-cases (ev.fd == s.serv_sock)) [
  | inl e ↦ rw e (inl (accept_client-frame s ev.accepted))
  | inr e ↦ elim (Bool-cases ev.readable) [
    | inl r ↦ rw (e, r) (client_event-HasFrame s address ev.fd (recv_cmd (s.conns ev.fd)) refl)
    | inr r ↦ rw (e, r) (inl refl)
  ]
]

no_frame :
    (disk : Disk) (s : ServerImpl) (task : ℕ) → s.frame ≡ none → run_task disk s task ≡ undefined
unfolding run_task
no_frame disk s task e = elim (Option-cases (s.captured task)) [
  | inl none_kept ↦ rw (none_kept, run_task) refl
  | inr (fd, kept) ↦ rw (kept, e, run_task) refl
]

other_frame :
    (disk : Disk) (s : ServerImpl) (task : ℕ) (f : Frame)
    → s.frame ≡ some f
    → (f.number == task) ≡ false
    → run_task disk s task ≡ undefined
unfolding run_task
other_frame disk s task f e ne = elim (Option-cases (s.captured task)) [
  | inl none_kept ↦ rw (none_kept, run_task) refl
  | inr (fd, kept) ↦ rw (kept, e, run_task, ne) refl
]

-- If a pass is defined, the task is undefined while it lasts.
abbrev pub IsLate : Disk → ℕ → Run ServerImpl → Type 0
IsLate disk task (done s) = run_task disk s task ≡ undefined
IsLate disk task waiting = Unit
IsLate disk task undefined = Unit

-- A task of a pass that is over: the variables that it refers to are gone.
late_task_lem :
    (disk : Disk) (s : ServerImpl) (task : ℕ) (r : Run ServerImpl)
    → task < s.passes
    → HasFrame s r
    → s.frame ≡ none
    → IsLate disk task r
late_task_lem disk s task (done s') before (inl same) gone = no_frame disk s' task (same ∙ gone)
late_task_lem disk s task (done s') before (inr (f, there, number)) gone =
    other_frame disk s' task f there (==_ne f.number task (omega arith))
late_task_lem disk s task waiting before h gone = tt
late_task_lem disk s task undefined before h gone = tt

module _ (s : ServerImpl) (address fd : ℕ) (k : Conn) (name rest : List ℕ) (b c : ℕ)
    (v : IsServing s) (free : NotAt address s.pool.tasks)
    (h : HasCommand s fd k name rest b c) where
  received : Goes (recv_buff (replicate 256 0)) k b (length name, command_buffer name) rest k.sent
  received =
      let size = length-replicate {A = ℕ} 256 0 in
      recv_buff_live b c {k = k} h.live name rest (replicate 256 0) h.sent h.some_name
        (omega (arith, h.short)) (omega (arith, h.short, size)) (omega (arith, h.enough))

  abbrev left : Conn
  left = record { turns = received.turns; incoming = rest; sent = k.sent }

  command_is_read : recv_cmd (s.conns fd) ≡ done ((length name, command_buffer name), some left)
  unfolding recv_cmd
  command_is_read = rw (h.conn, recv_cmd, received.runs) refl

  name-is_positive : is_positive (length name) ≡ true
  name-is_positive = ground (arith, h.some_name, h.short)

  -- A pass over a command queues one task, under the client's descriptor, behind those there. If
  -- the task runs while the pass lasts, it puts the file named by the command on the connection of
  -- the client that asked, behind what was sent there before, and reports it whole; nothing else of
  -- the server changes. If it has not run by then, it runs into undefined behaviour when the pass is
  -- over, and also while the next pass lasts, whatever that is about, since `cmd` and `len` are gone.
  -- Conditions: the server serves, the command is one frame that fits the 256
  -- bytes and names a file that can be sent, and the connection lives long enough.
  pub command_lem :
      {disk : Disk} {bytes : List ℕ} (address' : ℕ) (ev : Reported)
      → IsSendable disk (command_buffer name) (length name) bytes
      → parts (length bytes) 2048 * 8 + length bytes + 24 ≤ b
      → (s' : ServerImpl) × (ts : List Turn) × (begin_pass s address
            (record { fd = fd; readable = true; accepted = none })
          ≡ done s')
        × (requests s'.pool.tasks ≡ requests s.pool.tasks ++ (fd, s.passes) ∷ [])
        × (run_task disk s' s.passes
            ≡ done (
              (true, record { index = parts (length bytes) 2048; sum = length bytes }),
              with_conn s' fd
                  (some (record { turns = ts; incoming = rest; sent = k.sent ++ transfer bytes })),
            ))
        × (run_task disk (end_pass s') s.passes ≡ undefined)
        × IsLate disk s.passes (begin_pass (end_pass s') address' ev)
  unfolding begin_pass client_event
  command_lem {disk = disk} {bytes = bytes} address' ev sendable le =
      let s1 = with_conn s fd (some left) in
      let (s', run, v', more, var, conns, kept, number) =
        queue_task-IsServing s1 address fd (length name, command_buffer name)
          (with_conn-IsServing s fd (some left) v) free h.watched in
      let g = sync_send_file_live 0 b {k = left} sendable (omega arith) received.live in
      let open_there : s'.conns fd ≡ some left = ap (λ m. m fd) conns ∙ rw (==_refl fd) refl in
      (
        s',
        g.turns,
        rw (h.client, begin_pass, command_is_read, name-is_positive, client_event) run,
        more,
        run_task_lem disk s' s.passes fd _ _ kept var refl
            (send_to_lem disk s' fd _ left _ open_there (ap (after_task s' fd) g.runs)),
        no_frame disk (end_pass s') s.passes refl,
        late_task_lem disk (end_pass s') s.passes _ (omega (arith, number))
            (begin_pass-HasFrame (end_pass s') address' ev) refl,
      )
