-- ===== src/Chat/Broadcast.antt =====
-- sendMess of socket/select/server.cc, which sends a line to the list of clients.
use algo.Prelude.{
  ℕ, ◌≤◌, ◌≡◌, ◌≢◌, refl, sym, ap, ◌∙◌, arith, Option, none, some, List, [], ◌∷◌, ◌++◌, length,
  subst, ==_refl, ==_ne, drop, length-drop, ◌+◌, append_assoc, length-append,
}
use algo.SyncFile.Bytes.{overlay}
use algo.SyncFile.Effects.{Turn, ready, Conn, done}
use algo.Sockets.Laws.{write_whole, bind_done}
use algo.Chat.{Server, put_conn, send_all, send_mess, fgets}

abbrev pub Conns : Type 0
Conns = ℕ → Option Conn

abbrev pub NotIn : ℕ → List (Option ℕ) → Type 0
NotIn fd [] = Unit {0}
NotIn fd (none ∷ li) = NotIn fd li
NotIn fd (some k ∷ li) = (k ≢ fd) × NotIn fd li

-- A socket that is open and whose next call meets room for so many bytes.
pub record HasRoom (conns : Conns) (n fd : ℕ) : Type 0 where
  pub room : ℕ
  pub turns : List Turn
  pub incoming : List ℕ
  pub sent : List ℕ
  pub at : conns fd ≡ some (record { turns = ready room ∷ turns; incoming = incoming; sent = sent })
  pub enough : n ≤ room

-- The sockets of the list are different, and each has room.
abbrev pub AreReady : Conns → ℕ → List (Option ℕ) → Type 0
AreReady conns n [] = Unit {0}
AreReady conns n (none ∷ li) = AreReady conns n li
AreReady conns n (some fd ∷ li) = HasRoom conns n fd × NotIn fd li × AreReady conns n li

-- A socket of the list.
pub data In (fd : ℕ) : List (Option ℕ) → Type 0 where
  here : {li : List (Option ℕ)} → In fd (some fd ∷ li)
  there : {x : Option ℕ} {li : List (Option ℕ)} → In fd li → In fd (x ∷ li)

-- What was sent to a socket has grown by some bytes, and what it has to receive is the same.
abbrev pub Gets : Conns → Conns → List ℕ → ℕ → Type 0
Gets conns conns' buf fd =
    (c : Conn) × (c' : Conn) × (conns fd ≡ some c)
    × (conns' fd ≡ some c')
    × (c'.sent ≡ c.sent ++ buf)
    × (c'.incoming ≡ c.incoming)

put_conn-other : (m : Conns) (fd k : ℕ) (c : Conn) → k ≢ fd → put_conn m fd c k ≡ m k
put_conn-other m fd k c ne = rw (==_ne fd k (λ e. ne (sym e))) refl

HasRoom-put_conn :
    (m : Conns) (n fd k : ℕ) (c : Conn) → fd ≢ k → HasRoom m n k → HasRoom (put_conn m fd c) n k
HasRoom-put_conn m n fd k c ne h = record {
  room = h.room;
  turns = h.turns;
  incoming = h.incoming;
  sent = h.sent;
  at = put_conn-other m fd k c (λ e. ne (sym e)) ∙ h.at;
  enough = h.enough;
}

AreReady-put_conn :
    (m : Conns) (n fd : ℕ) (c : Conn) (li : List (Option ℕ))
    → NotIn fd li
    → AreReady m n li
    → AreReady (put_conn m fd c) n li
AreReady-put_conn m n fd c [] out r = tt
AreReady-put_conn m n fd c (none ∷ li) out r = AreReady-put_conn m n fd c li out r
AreReady-put_conn m n fd c (some k ∷ li) out (room, once, r) = (
  HasRoom-put_conn m n fd k c (λ e. out.0 (sym e)) room,
  once,
  AreReady-put_conn m n fd c li out.1 r,
)

In-ne : (fd k : ℕ) (li : List (Option ℕ)) → NotIn k li → In fd li → fd ≢ k
In-ne fd k [] out i = elim i [ ]
In-ne fd k (some fd' ∷ li) out here = out.0
In-ne fd k (none ∷ li) out (there i) = In-ne fd k li out i
In-ne fd k (some x ∷ li) out (there i) = In-ne fd k li out.1 i

-- What the loop has done.
pub record Sends (conns : Conns) (li : List (Option ℕ)) (buf : List ℕ) (conns' : Conns)
    : Type 0 where
  pub to_each : (fd : ℕ) → In fd li → Gets conns conns' buf fd
  pub to_no_other : (fd : ℕ) → NotIn fd li → conns' fd ≡ conns fd

In-none : {fd : ℕ} {li : List (Option ℕ)} → In fd (none ∷ li) → In fd li
In-none (there i) = i

In-none-of-[] : {P : Type 0} (fd : ℕ) → In fd [] → P
In-none-of-[] fd i = elim i [ ]

send_first :
    (conns m m' : Conns) (li : List (Option ℕ)) (buf : List ℕ) (k : ℕ) (c c' : Conn)
    → NotIn k li
    → conns k ≡ some c
    → m k ≡ some c'
    → ((j : ℕ) → j ≢ k → m j ≡ conns j)
    → c'.sent ≡ c.sent ++ buf
    → c'.incoming ≡ c.incoming
    → Sends m li buf m'
    → (fd : ℕ) → In fd (some k ∷ li)
    → Gets conns m' buf fd
send_first conns m m' li buf k c c' once at at' others more same s fd here =
    (c, c', at, s.to_no_other fd once ∙ at', more, same)
send_first conns m m' li buf k c c' once at at' others more same s fd (there i) =
    let (d, d', e, at'', grown, left) = s.to_each fd i in
    (d, d', sym (others fd (In-ne fd k li once i)) ∙ e, at'', grown, left)

send_all-Sends :
    (conns : Conns) (li : List (Option ℕ)) (buf : List ℕ)
    → AreReady conns (length buf) li
    → (conns' : Conns) × (send_all conns li buf ≡ done conns') × Sends conns li buf conns'
unfolding send_all
send_all-Sends conns [] buf r =
    (conns, refl, record { to_each = λ fd i. In-none-of-[] fd i; to_no_other = λ fd n. refl })
send_all-Sends conns (none ∷ li) buf r =
    let (m, run, s) = send_all-Sends conns li buf r in
    (m, run, record { to_each = λ fd i. s.to_each fd (In-none i); to_no_other = s.to_no_other })
send_all-Sends conns (some k ∷ li) buf (h, once, r) =
    let c : Conn = record {
      turns = ready h.room ∷ h.turns;
      incoming = h.incoming;
      sent = h.sent;
    } in
    let c' : Conn = record { turns = h.turns; incoming = h.incoming; sent = h.sent ++ buf } in
    let m = put_conn conns k c' in
    let (m', run, s) =
      send_all-Sends m li buf (AreReady-put_conn conns (length buf) k c' li once r) in
    let wrote = write_whole h.room h.turns buf h.incoming h.sent h.enough in
    (
      m',
      rw (h.at, send_all) (bind_done _ _ _ _ wrote run),
      record {
        to_each =
            send_first conns m m' li buf k c c' once h.at (rw (==_refl k) refl)
              (λ j ne. put_conn-other conns k j c' ne) refl refl s;
        to_no_other =
            λ fd n. s.to_no_other fd n.1 ∙ put_conn-other conns k fd c' (λ e. n.0 (sym e));
      },
    )

pub line_in :
    (line garbage : List ℕ) → fgets (some line) garbage ≡ line ++ 0 ∷ drop (1 + length line) garbage
unfolding overlay
line_in line garbage =
    rw
      (
        append_assoc line (0 ∷ []) (drop (length (line ++ 0 ∷ [])) garbage),
        length-append line (0 ∷ []),
      )
      (ap (λ n. line ++ 0 ∷ drop n garbage) (omega arith))

-- A round of sendMess with a line, where the sockets of the list are different and each has room for
-- the buffer, sends every one of them the 1024 bytes of the buffer, which begin with the line and a
-- zero byte, and changes no other connection, nor the list, nor what the server has printed. A
-- `-1` in the list is passed over.
pub send_mess_lem :
    (s : Server) (line garbage : List ℕ)
    → length garbage ≡ 1024
    → length line ≤ 1023
    → AreReady s.conns 1024 s.li
    → (s' : Server) × (send_mess s (some line) garbage ≡ done s')
      × Sends s.conns s.li (line ++ 0 ∷ drop (1 + length line) garbage) s'.conns
      × (s'.li ≡ s.li)
      × (s'.shown ≡ s.shown)
unfolding send_mess
send_mess_lem s line garbage full short r =
    let buf = line ++ 0 ∷ drop (1 + length line) garbage in
    let long : length buf ≡ 1024 = omega (
      arith,
      length-append line (0 ∷ drop (1 + length line) garbage),
      length-drop (1 + length line) garbage,
      full,
      short,
    ) in
    let (m, run, sends) =
      send_all-Sends s.conns s.li buf (subst (λ n. AreReady s.conns n s.li) (sym long) r) in
    (
      record s { conns = m },
      bind_done _ _ _ _ (ap (λ b. send_all s.conns s.li b) (line_in line garbage) ∙ run) refl,
      sends,
      refl,
      refl,
    )
