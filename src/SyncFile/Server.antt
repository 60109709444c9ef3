-- ===== src/SyncFile/Server.antt =====
-- ServerImpl of tools/sync_file/epoll_socket/server.h and server.cpp: the event loop that reads
-- commands from the clients and gives the answers to the thread pool.
pub mod Serving
pub mod Reuse
pub mod Answers
mod Examples
use algo.Prelude.{
  ℕ, ◌+◌, ◌-◌, ◌^◌, Bool, true, false, not, ◌&&◌, Option, none, some, List, [], ◌∷◌, ◌==◌,
  if◌then◌else◌, ltb, replicate,
}
use algo.SyncFile.Effects.{Conn, Run, M, done, waiting, undefined}
use algo.SyncFile.Frames.{recv_buff}
use algo.SyncFile.File.{Disk, Report}
use algo.SyncFile.Sending.{sync_send_file}
use algo.ThreadPool.{ThreadPool, fresh_pool, add_task, del_close_fd, add_thread}

-- The variables of one pass of the inner loop: its number, `cmd` and `len`.
pub record Frame : Type 0 where
  pub number : ℕ
  pub cmd : List ℕ
  pub len : ℕ

-- `interest` holds the client sockets that epoll watches, `conns` the open ones, and `frame` the
-- variables of the pass that runs. The passes are counted, and a task has the number of the pass
-- that made it; `captured` has the `socket_fd` that it keeps a copy of.
pub record ServerImpl : Type 0 where
  pub serv_sock : ℕ
  pub interest : List ℕ
  pub conns : ℕ → Option Conn
  pub pool : ThreadPool
  pub frame : Option Frame
  pub captured : ℕ → Option ℕ
  pub passes : ℕ

-- The thread pool of InitServer, and the rest of the state for a listening socket that is open.
unfoldable pub init_server : ℕ → ℕ → ServerImpl
unfolding add_thread
init_server serv_sock pool_size = record {
  serv_sock = serv_sock;
  interest = [];
  conns = λ fd. none;
  pool = add_thread fresh_pool pool_size;
  frame = none;
  captured = λ task. none;
  passes = 0;
}

-- An event that epoll_wait reports: its descriptor, whether it has EPOLLIN, and for the listening
-- socket what accept returns, where none stands for -1.
pub record Reported : Type 0 where
  pub fd : ℕ
  pub readable : Bool
  pub accepted : Option (ℕ × Conn)

abbrev pub put_conn : (ℕ → Option Conn) → ℕ → Option Conn → ℕ → Option Conn
put_conn m fd o = λ k. if fd == k then o else m k

abbrev pub capture : (ℕ → Option ℕ) → ℕ → ℕ → ℕ → Option ℕ
capture m task fd = λ k. if task == k then some fd else m k

abbrev pub remove : ℕ → List ℕ → List ℕ
remove fd [] = []
remove fd (x ∷ xs) = let rest = remove fd xs in if x == fd then rest else x ∷ rest

-- The branch of a client that connects; a socket of -1 is refused by epoll_ctl.
unfoldable pub accept_client : ServerImpl → Option (ℕ × Conn) → ServerImpl
accept_client s none = s
accept_client s (some (fd, conn)) = record s {
  interest = fd ∷ s.interest;
  conns = put_conn s.conns fd (some conn);
}

-- RecvBuff into `char cmd[256] = {0}`; on a socket that is not open it reads no length.
unfoldable pub recv_cmd : Option Conn → Run ((ℕ × List ℕ) × Option Conn)
recv_cmd none = done ((0, replicate 256 0), none)
recv_cmd (some conn) = elim (recv_buff (replicate 256 0) conn) [
  | done (r, conn') ↦ done (r, some conn')
  | waiting ↦ waiting
  | undefined ↦ undefined
]

-- `len > 0` of an int64_t.
abbrev pub is_positive : ℕ → Bool
is_positive len = ltb 0 len && ltb len (2 ^ 63)

-- The branch of a command up to the end of AddTask, with the address of the new list node. An
-- exception, which nothing catches, ends the program; it counts as undefined here.
abbrev pub queue_task : ServerImpl → ℕ → ℕ → ℕ × List ℕ → Run ServerImpl
queue_task s address fd r = elim (add_task s.pool address fd s.passes) [
  | none ↦ undefined
  | some pool ↦ done (record s {
    pool = pool;
    frame = some (record { number = s.passes; cmd = r.1; len = r.0 });
    captured = capture s.captured s.passes fd;
  })
]

-- The branch of a client that is gone.
abbrev pub close_client : ServerImpl → ℕ → Run ServerImpl
close_client s fd = elim (del_close_fd s.pool fd) [
  | none ↦ undefined
  | some pool ↦
      done (record s {
        interest = remove fd s.interest;
        conns = put_conn s.conns fd none;
        pool = pool;
      })
]

abbrev pub with_conn : ServerImpl → ℕ → Option Conn → ServerImpl
with_conn s fd conn = record s { conns = put_conn s.conns fd conn }

unfoldable pub client_event : ServerImpl → ℕ → ℕ → Run ServerImpl
unfolding recv_cmd
client_event s address fd = elim (recv_cmd (s.conns fd)) [
  | done (r, conn) ↦
      let s' = with_conn s fd conn in
      if is_positive r.0 then queue_task s' address fd r else close_client s' fd
  | waiting ↦ waiting
  | undefined ↦ undefined
]

-- One pass of the inner loop without its end.
unfoldable pub begin_pass : ServerImpl → ℕ → Reported → Run ServerImpl
unfolding accept_client client_event
begin_pass s address ev =
    if ev.fd == s.serv_sock
    then done (accept_client s ev.accepted)
    else if ev.readable
    then client_event s address ev.fd
    else done s

-- At the end of the pass its variables are gone.
abbrev pub end_pass : ServerImpl → ServerImpl
end_pass s = record s { frame = none; passes = s.passes + 1 }

unfoldable pub handle_pass : ServerImpl → ℕ → Reported → Run ServerImpl
unfolding begin_pass
handle_pass s address ev = elim (begin_pass s address ev) [
  | done s' ↦ done (end_pass s')
  | waiting ↦ waiting
  | undefined ↦ undefined
]

-- The connection of a task as the task has left it.
abbrev pub after_task :
    ServerImpl → ℕ → Run ((Bool × Report) × Conn) → Run ((Bool × Report) × ServerImpl)
after_task s fd (done (r, conn)) = done (r, with_conn s fd (some conn))
after_task s fd waiting = waiting
after_task s fd undefined = undefined

-- SyncSendFile on a socket, which is open as long as the variables of the pass that read from it
-- last.
unfoldable pub send_to : Disk → ServerImpl → ℕ → Frame → Run ((Bool × Report) × ServerImpl)
unfolding sync_send_file
send_to disk s fd frame = elim (s.conns fd) [
  | none ↦ undefined
  | some conn ↦ after_task s fd (sync_send_file disk frame.cmd frame.len conn)
]

-- What a worker does with a task of a client: `[&, socket_fd]` keeps the client's descriptor, and
-- refers to the other variables of the pass that made the task.
unfoldable pub run_task : Disk → ServerImpl → ℕ → Run ((Bool × Report) × ServerImpl)
unfolding send_to
run_task disk s task = elim (s.captured task) [
  | none ↦ undefined
  | some fd ↦ elim s.frame [
    | none ↦ undefined
    | some frame ↦
        let answer = send_to disk s fd frame in if frame.number == task then answer else undefined
  ]
]
