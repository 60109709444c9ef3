-- ===== src/Chat/Lines.antt =====
-- Lines between the chat programs (socket/select/server.cc, client.cc): what one side prints of what
-- the other has typed.
use algo.Prelude.{
  ℕ, zero, suc, take_all, ◌+◌, ◌≤◌, ◌<◌, ◌≡◌, ◌≢◌, refl, ap, ◌∙◌, arith, some, List, [], ◌∷◌, ◌++◌,
  length, drop, replicate, ==_ne, append-nil, length-append, length-drop, drop_all, min, lt→ltb,
}
use algo.SyncFile.Effects.{Turn, ready, done}
use algo.SyncFile.Bytes.{overlay}
use algo.SyncFile.File.{c_str}
use algo.Sockets.{read, write}
use algo.Sockets.Laws.{read_whole, write_whole, bind_done}
use algo.Chat.{
  Server, put_conn, fgets, get_message, poll_one, readable, Client, recv_line, send_line, print_str,
}
use algo.Chat.Broadcast.{line_in}

-- A line holds no zero byte.
abbrev pub IsText : List ℕ → Type 0
IsText [] = Unit {0}
IsText (b ∷ bs) = (b ≢ 0) × IsText bs

-- A C string ends at its first zero byte.
c_str-append : (line rest : List ℕ) → IsText line → c_str (line ++ 0 ∷ rest) ≡ some line
unfolding c_str
c_str-append [] rest t = refl
c_str-append (b ∷ bs) rest t = rw (==_ne b 0 t.0, c_str-append bs rest t.1) refl

print_line : (line rest : List ℕ) → IsText line → print_str (line ++ 0 ∷ rest) ≡ done line
print_line line rest t = rw (c_str-append line rest t, print_str) refl

-- Zero bytes are left behind a line that is shorter.
zeros_left :
    (line : List ℕ) (n : ℕ)
    → length line < n
    → (rest : List ℕ) × (drop (length line) (replicate n 0) ≡ 0 ∷ rest)
zeros_left [] zero lt = absurd (omega arith)
zeros_left [] (suc n) lt = (replicate n 0, refl)
zeros_left (b ∷ bs) zero lt = absurd (omega arith)
zeros_left (b ∷ bs) (suc n) lt = zeros_left bs n (omega arith)

-- A call of `recv` that meets all that is there.
read_all :
    (n j : ℕ) (ts : List Turn) (xs sent : List ℕ)
    → length xs ≤ n
    → length xs ≤ j
    → read n (record { turns = ready j ∷ ts; incoming = xs; sent = sent })
      ≡ done (some xs, record { turns = ts; incoming = []; sent = sent })
unfolding read
read_all n j ts xs sent le room =
    rw (take_all (min j n) xs (omega arith), drop_all (min j n) xs (omega arith)) refl

-- A full buffer takes the place of all that was there.
buffer_over : (buf old : List ℕ) → length old ≤ length buf → overlay buf old ≡ buf
unfolding overlay
buffer_over buf old le = rw (drop_all (length buf) old le, append-nil buf) refl

-- A client that receives the buffer of a line in one piece prints the line, whatever its own buffer
-- held, and has taken those 1024 bytes of its socket and no more.
pub recv_line_lem :
    (c : Client) (recvbuf line garbage rest : List ℕ) (j : ℕ) (ts : List Turn) (sent : List ℕ)
    → c.conn
      ≡ record { turns = ready j ∷ ts; incoming = fgets (some line) garbage ++ rest; sent = sent }
    → IsText line
    → length line ≤ 1023
    → length garbage ≡ 1024
    → length recvbuf ≡ 1024
    → 1024 ≤ j
    → recv_line c recvbuf
      ≡ done (record {
        conn = record { turns = ts; incoming = rest; sent = sent };
        shown = c.shown ++ line;
      })
unfolding recv_line
recv_line_lem c recvbuf line garbage rest j ts sent at text short full full' room =
    let buf = line ++ 0 ∷ drop (1 + length line) garbage in
    let long : length buf ≡ 1024 = omega (
      arith,
      length-append line (0 ∷ drop (1 + length line) garbage),
      length-drop (1 + length line) garbage,
      full,
      short,
    ) in
    let over : overlay buf recvbuf ≡ buf = buffer_over buf recvbuf (omega (arith, long, full')) in
    rw (at, line_in line garbage)
      (bind_done _ _ _ _ (read_whole 1024 j ts buf rest sent long room) (
        bind_done _ _ _ _
          (ap print_str over ∙ print_line line (drop (1 + length line) garbage) text) refl))

-- A client that sends a line over a socket with room for it sends the line, without its zero byte,
-- whatever its buffer held.
pub send_line_lem :
    (c : Client) (sendbuf line : List ℕ) (j : ℕ) (ts : List Turn) (incoming sent : List ℕ)
    → c.conn ≡ record { turns = ready j ∷ ts; incoming = incoming; sent = sent }
    → IsText line
    → length line ≤ j
    → send_line c sendbuf (some line)
      ≡ done (record {
        conn = record { turns = ts; incoming = incoming; sent = sent ++ line };
        shown = c.shown;
      })
unfolding send_line
send_line_lem c sendbuf line j ts incoming sent at text room =
    bind_done _ _ line _
      (ap print_str (line_in line sendbuf) ∙ print_line line (drop (1 + length line) sendbuf) text)
      (bind_done _ _ _ _ (ap (write line) at ∙ write_whole j ts line incoming sent room) refl)

-- The server has room for 1023 bytes of text and a zero byte.
get_message_lem :
    (s : Server) (fd k : ℕ) (us : List Turn) (line sent : List ℕ)
    → s.conns fd ≡ some (record { turns = ready k ∷ us; incoming = line; sent = sent })
    → IsText line
    → length line ≤ 1023
    → length line ≤ k
    → get_message s fd
      ≡ done (record s {
        conns = put_conn s.conns fd (record { turns = us; incoming = []; sent = sent });
        shown = s.shown ++ line;
      })
unfolding get_message overlay
get_message_lem s fd k us line sent at text short room =
    let (rest, e) = zeros_left line 1024 (omega arith) in
    rw (at, get_message)
      (bind_done _ _ _ _ (read_all 1024 k us line sent (omega arith) room)
        (bind_done _ _ _ _ (ap (λ z. print_str (line ++ z)) e ∙ print_line line rest text) refl))

-- A line of at most 1023 bytes that a user types at a client is printed by the server. Where the
-- socket has room, the client sends the line and nothing else; and the server, whose `select` reports
-- that these bytes are there, prints them as they were typed and leaves nothing behind.
pub typed_lem :
    (c : Client) (sendbuf line : List ℕ) (j : ℕ) (ts : List Turn) (incoming sent : List ℕ)
    (s : Server) (fd k : ℕ) (us : List Turn) (sent' : List ℕ)
    → IsText line
    → length line ≤ 1023
    → c.conn ≡ record { turns = ready j ∷ ts; incoming = incoming; sent = sent }
    → length line ≤ j
    → s.conns fd ≡ some (record { turns = ready k ∷ us; incoming = line; sent = sent' })
    → length line ≤ k
    → fd < 1024
    → (send_line c sendbuf (some line)
        ≡ done (record {
          conn = record { turns = ts; incoming = incoming; sent = sent ++ line };
          shown = c.shown;
        }))
      × (poll_one s (some fd) readable
          ≡ done (record s {
            conns = put_conn s.conns fd (record { turns = us; incoming = []; sent = sent' });
            shown = s.shown ++ line;
          }))
unfolding poll_one
typed_lem c sendbuf line j ts incoming sent s fd k us sent' text short at room at' room' small = (
  send_line_lem c sendbuf line j ts incoming sent at text room,
  rw (lt→ltb fd 1024 small) (get_message_lem s fd k us line sent' at' text short room'),
)
