-- ===== src/Echo.antt =====
-- The echo server and client of socket/epoll (server.cpp, client.cpp). Their thread pool
-- (socket/epoll/threadpool.h) is, but for its include guard, that of tools/sync_file. The classes
-- that protoc generates from echo.proto are a parameter.
pub mod Rounds
mod Examples
use algo.Prelude.{
  ℕ, ◌+◌, ◌%◌, ◌^◌, ◌<◌, ◌≡◌, Bool, true, false, Option, none, some, List, [], ◌∷◌, ◌++◌, ◌==◌,
  if◌then◌else◌, ltb, min, length, take, drop,
}
use algo.SyncFile.Effects.{Conn, Run, done, waiting, undefined}
use algo.Sockets.{read, write, ◌>>=◌, bytes_of}
use algo.SyncFile.Bytes.{le_bytes, le_value, overlay}
use algo.ThreadPool.{ThreadPool, fresh_pool, add_task, del_close_fd, add_thread}

-- The messages of echo.proto. An int32 is its 32 bits.
pub record ClientMessage : Type 0 where
  pub client_id : List ℕ
  pub number : ℕ

pub record ServerMessage : Type 0 where
  pub server_id : ℕ
  pub number : ℕ

-- Bytes of ASCII, which are UTF-8 as a field of type string wants it.
abbrev pub AreAscii : List ℕ → Type 0
AreAscii [] = Unit
AreAscii (x ∷ xs) = (x < 128) × AreAscii xs

-- What the generated classes do: a message whose name is text is parsed from what it is serialized
-- to. `memory` is the bytes of an object of the class Server, of which only the number is known.
pub record Protobuf : Type 0 where
  pub serialize : ClientMessage → List ℕ
  pub parse : List ℕ → ClientMessage
  pub parse-serialize :
      (m : ClientMessage) → m.number < 2 ^ 32 → AreAscii m.client_id → parse (serialize m) ≡ m
  pub size : ℕ
  pub memory : ServerMessage → List ℕ
  pub length-memory : (m : ServerMessage) → length (memory m) ≡ size

-- `interest` holds the client sockets that epoll watches, `conns` the open ones, and `sends` what
-- the tasks capture, by their number.
pub record ServerImpl : Type 0 where
  pub serv_sock : ℕ
  pub interest : List ℕ
  pub conns : ℕ → Option Conn
  pub pool : ThreadPool
  pub sends : ℕ → Option (ℕ × ℕ)
  pub made : ℕ

-- InitServer where its system calls succeed.
unfoldable pub init_server : ℕ → ℕ → ServerImpl
unfolding add_thread
init_server serv_sock pool_size = record {
  serv_sock = serv_sock;
  interest = [];
  conns = λ fd. none;
  pool = add_thread fresh_pool pool_size;
  sends = λ number. none;
  made = 0;
}

abbrev pub put {ℓ} : {A : Type ℓ} → (ℕ → Option A) → ℕ → Option A → ℕ → Option A
put m k o = λ j. if k == j then o else m j

abbrev pub remove : ℕ → List ℕ → List ℕ
remove fd [] = []
remove fd (x ∷ xs) = let rest = remove fd xs in if x == fd then rest else x ∷ rest

-- The branch of a client that is gone.
abbrev pub close_client : ServerImpl → ℕ → Run (ServerImpl × Bool)
close_client s fd = elim (del_close_fd s.pool fd) [
  | none ↦ undefined
  | some pool ↦ done (
    record s { interest = remove fd s.interest; conns = put s.conns fd none; pool = pool },
    false,
  )
]

-- The branch of a message, with the address of the new list node. An exception of AddTask, which
-- nothing catches, counts as undefined.
abbrev pub queue_send : ServerImpl → ℕ → ℕ → ℕ → Run (ServerImpl × Bool)
queue_send s address fd number = elim (add_task s.pool address fd s.made) [
  | none ↦ undefined
  | some pool ↦ done (
    record s { pool = pool; sends = put s.sends s.made (some (fd, number)); made = s.made + 1 },
    true,
  )
]

-- What RecvBuff does behind its second `read`; ParseFromArray has no meaning for a length of -1.
abbrev pub after_body : Protobuf → ServerImpl → ℕ → ℕ → Option (List ℕ) → Run (ServerImpl × Bool)
after_body p s address fd none = undefined
after_body p s address fd (some []) = close_client s fd
after_body p s address fd (some (b ∷ bs)) = queue_send s address fd (p.parse (b ∷ bs)).number

-- A connection that is not open gives -1 at both calls. A `data_len` of 2 ^ 31 or more is negative,
-- and so no size of an array.
unfoldable pub recv_buff : Protobuf → ServerImpl → ℕ → ℕ → Run (ServerImpl × Bool)
recv_buff p s address fd = elim (s.conns fd) [
  | none ↦ undefined
  | some c0 ↦ do
    (head, c1) ← read 4 c0
    let data_len = le_value (overlay (bytes_of head) (le_bytes 4 0))
    (body, c2) ← (if ltb data_len (2 ^ 31) then read data_len c1 else undefined)
    after_body p (record s { conns = put s.conns fd (some c2) }) address fd body
]

-- An event that epoll_wait reports: its descriptor, whether it has EPOLLIN, and for the listening
-- socket what accept returns, where none stands for -1.
pub record Reported : Type 0 where
  pub fd : ℕ
  pub readable : Bool
  pub accepted : Option (ℕ × Conn)

abbrev pub accept_client : ServerImpl → Option (ℕ × Conn) → ServerImpl
accept_client s none = s
accept_client s (some (fd, conn)) = record s {
  interest = fd ∷ s.interest;
  conns = put s.conns fd (some conn);
}

-- One pass of the inner loop of ExecEpoll.
unfoldable pub handle_event : Protobuf → ServerImpl → ℕ → Reported → Run ServerImpl
handle_event p s address ev =
    let of_client = recv_buff p s address ev.fd >>= λ r. done r.0 in
    if ev.fd == s.serv_sock
    then done (accept_client s ev.accepted)
    else if ev.readable
    then of_client
    else done s

-- SendBuff, which writes the object itself. A socket that is closed by then takes nothing.
unfoldable pub send_buff : Protobuf → ServerImpl → ℕ → ℕ → Run ServerImpl
send_buff p s fd number = elim (s.conns fd) [
  | none ↦ done s
  | some c ↦ do
    c' ← write (p.memory (record { server_id = fd % 2 ^ 32; number = number })) c
    done (record s { conns = put s.conns fd (some c') })
]

-- What a worker does with a task.
unfoldable pub run_task : Protobuf → ServerImpl → ℕ → Run ServerImpl
run_task p s task = elim (s.sends task) [
  | none ↦ undefined
  | some (fd, number) ↦ send_buff p s fd number
]

-- RecvBuff of the client: what it prints. Bytes that are read into an object which has pointers of
-- its own are undefined behaviour; with none the fields are as the constructor left them.
unfoldable pub recv_reply : Protobuf → Conn → Run (ServerMessage × Conn)
recv_reply p c = do
  (got, c') ← read p.size c
  elim (bytes_of got) [ [] ↦ done (record { server_id = 0; number = 0 }, c') | b ∷ bs ↦ undefined ]

-- The two writes of a round of the client, with its `cli_name` and `index`, an int.
unfoldable pub client_send : Protobuf → List ℕ → ℕ → Conn → Run Conn
client_send p name index c = do
  let bytes = p.serialize (record { client_id = name; number = index % 2 ^ 32 })
  c1 ← write (le_bytes 4 (length bytes)) c
  write bytes c1

-- A round of the loop of the client's SendBuff.
unfoldable pub client_round : Protobuf → List ℕ → ℕ → Conn → Run (ServerMessage × Conn)
unfolding client_send recv_reply
client_round p name index c = client_send p name index c >>= λ c'. recv_reply p c'
