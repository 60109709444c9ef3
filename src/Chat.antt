-- ===== src/Chat.antt =====
-- The chat programs of socket/select (server.cc, client.cc): lines typed at the server go to every
-- client, and lines typed at a client to the server. The server's three threads take turns at its
-- list, a round of each at a time.
pub mod Broadcast
pub mod Lines
mod Examples
use algo.Prelude.{
  ℕ, Bool, true, false, Option, none, some, List, [], ◌∷◌, ◌++◌, ◌==◌, if◌then◌else◌, ltb, length,
  take, replicate,
}
use algo.SyncFile.Effects.{Conn, Run, done, waiting, undefined}
use algo.SyncFile.Bytes.{overlay}
use algo.SyncFile.File.{c_str}
use algo.Sockets.{read, write, ◌>>=◌, bytes_of}

-- `li` holds what accept has returned, where none stands for -1. `conns` holds the sockets, and
-- `shown` what the server has printed of messages.
pub record Server : Type 0 where
  pub li : List (Option ℕ)
  pub conns : ℕ → Option Conn
  pub shown : List ℕ

abbrev pub put_conn : (ℕ → Option Conn) → ℕ → Conn → ℕ → Option Conn
put_conn m fd c = λ k. if fd == k then some c else m k

-- A round of getConn.
abbrev pub get_conn : Server → Option (ℕ × Conn) → Server
get_conn s none = record s { li = s.li ++ none ∷ [] }
get_conn s (some (fd, c)) = record s { li = s.li ++ some fd ∷ []; conns = put_conn s.conns fd c }

-- `fgets` of a line into a buffer that holds something, where the line is what is read of the input,
-- 1023 bytes at most. Without a line the buffer stays as it is.
abbrev pub fgets : Option (List ℕ) → List ℕ → List ℕ
fgets none buf = buf
fgets (some line) buf = overlay (line ++ 0 ∷ []) buf

-- The loop of sendMess; `send` on -1 or on no socket fails, and its result is ignored.
unfoldable pub send_all : (ℕ → Option Conn) → List (Option ℕ) → List ℕ → Run (ℕ → Option Conn)
send_all conns [] buf = done conns
send_all conns (none ∷ li) buf = send_all conns li buf
send_all conns (some fd ∷ li) buf = elim (conns fd) [
  | none ↦ send_all conns li buf
  | some c ↦ write buf c >>= λ c'. send_all (put_conn conns fd c') li buf
]

-- A round of sendMess: it sends all 1024 bytes of `buf`, whose first contents are not known.
unfoldable pub send_mess : Server → Option (List ℕ) → List ℕ → Run Server
send_mess s line garbage =
    send_all s.conns s.li (fgets line garbage) >>= λ m. done (record s { conns = m })

-- What select reports.
pub data Polled : Type 0 where
  failed nothing readable : Polled

-- `printf("%s", buf)`; without a zero byte it reads past the buffer.
abbrev pub print_str : List ℕ → Run (List ℕ)
print_str buf = elim (c_str buf) [ none ↦ undefined | some text ↦ done text ]

-- The branch of a socket that is readable.
unfoldable pub get_message : Server → ℕ → Run Server
get_message s fd = elim (s.conns fd) [
  | none ↦ done s
  | some c ↦ do
    (got, c') ← read 1024 c
    text ← print_str (overlay (bytes_of got) (replicate 1024 0))
    done (record s { conns = put_conn s.conns fd c'; shown = s.shown ++ text })
]

-- One socket of the loop of getData. FD_SET of -1, or of a descriptor from 1024 on, writes outside
-- the set.
unfoldable pub poll_one : Server → Option ℕ → Polled → Run Server
poll_one s none o = undefined
poll_one s (some fd) o =
    let one : Run Server = elim o [
      | failed ↦ done s
      | nothing ↦ done s
      | readable ↦ get_message s fd
    ] in
    if ltb fd 1024 then one else undefined

-- A round of getData, with what select reports for each socket; beyond that it still waits.
unfoldable pub poll_all : Server → List (Option ℕ) → List Polled → Run Server
poll_all s [] os = done s
poll_all s (x ∷ li) [] = waiting
poll_all s (x ∷ li) (o ∷ os) = poll_one s x o >>= λ t. poll_all t li os

abbrev pub get_data : Server → List Polled → Run Server
get_data s os = poll_all s s.li os

-- The client: its socket, and what it has printed of messages.
pub record Client : Type 0 where
  pub conn : Conn
  pub shown : List ℕ

-- The branch of a message of the server, with what the new `recvbuf` holds.
unfoldable pub recv_line : Client → List ℕ → Run Client
recv_line c recvbuf = do
  (got, conn) ← read 1024 c.conn
  text ← print_str (overlay (bytes_of got) recvbuf)
  done (record { conn = conn; shown = c.shown ++ text })

-- The branch of a line of the user, with what the new `sendbuf` holds; `strlen` goes as `printf`.
unfoldable pub send_line : Client → List ℕ → Option (List ℕ) → Run Client
send_line c sendbuf line = do
  text ← print_str (fgets line sendbuf)
  conn ← write text c.conn
  done (record c { conn = conn })

-- A pass of the loop of main, with what select reports: an error, the end of the time, or which of
-- the socket and the input are ready, the input with its line. The Bool is false at the `break`.
pub data Waited : Type 0 where
  failed timeout : Waited
  active : Bool → Option (Option (List ℕ)) → Waited

abbrev pub if_input : Client → List ℕ → Option (Option (List ℕ)) → Run Client
if_input c sendbuf none = done c
if_input c sendbuf (some line) = send_line c sendbuf line

unfoldable pub client_pass : Client → List ℕ → List ℕ → Waited → Run (Client × Bool)
client_pass c recvbuf sendbuf failed = done (c, false)
client_pass c recvbuf sendbuf timeout = done (c, true)
client_pass c recvbuf sendbuf (active sock input) =
    let received = recv_line c recvbuf in
    (if sock then received else done c) >>= λ d. if_input d sendbuf input >>= λ e. done (e, true)
