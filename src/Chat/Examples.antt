-- ===== src/Chat/Examples.antt =====
-- The chat programs of socket/select on small runs, and the theorems at them.
use algo.Prelude.{
  ℕ, ◌+◌, ◌≡◌, refl, arith, none, some, List, [], ◌∷◌, ◌++◌, length, drop, replicate,
  length-replicate,
}
use algo.SyncFile.Effects.{ready, Conn, done}
use algo.Chat.{Server, get_conn, put_conn, send_mess, poll_one, readable, Client, send_line}
use algo.Chat.Broadcast.{HasRoom, Sends, send_mess_lem}
use algo.Chat.Lines.{IsText, typed_lem}

abbrev idle : List ℕ → Conn
idle incoming = record { turns = ready 2000 ∷ []; incoming = incoming; sent = [] }

-- Two clients have come in, and an accept between them has failed.
abbrev empty : Server
empty = record { li = []; conns = λ fd. none; shown = [] }

abbrev server : Server
server = get_conn (get_conn (get_conn empty (some (4, idle []))) none) (some (5, idle []))

abbrev hello : List ℕ
hello = b'h' ∷ b'i' ∷ 10 ∷ []

hello-IsText : IsText hello
hello-IsText = ((λ e. omega (arith, e)), ((λ e. omega (arith, e)), ((λ e. omega (arith, e)), tt)))

abbrev zeros : List ℕ
zeros = replicate 1024 0

room_at_4 : HasRoom server.conns 1024 4
room_at_4 = record {
  room = 2000;
  turns = [];
  incoming = [];
  sent = [];
  at = refl;
  enough = omega arith;
}

room_at_5 : HasRoom server.conns 1024 5
room_at_5 = record {
  room = 2000;
  turns = [];
  incoming = [];
  sent = [];
  at = refl;
  enough = omega arith;
}

send_mess_lem_example :
    (s : Server) × (send_mess server (some hello) zeros ≡ done s)
    × Sends server.conns
        (some 4 ∷ none ∷ some 5 ∷ [])
        (hello ++ 0 ∷ drop (1 + length hello) zeros)
        s.conns
    × (s.li ≡ some 4 ∷ none ∷ some 5 ∷ [])
    × (s.shown ≡ [])
send_mess_lem_example =
    send_mess_lem server hello zeros (length-replicate {A = ℕ} 1024 0) (omega arith)
      (room_at_4, ((λ e. omega (arith, e)), tt), (room_at_5, tt, tt))

abbrev client : List ℕ → Client
client incoming = record { conn = idle incoming; shown = [] }

abbrev heard : Server
heard = get_conn empty (some (4, idle hello))

typed_lem_example :
    (send_line (client []) zeros (some hello)
      ≡ done (record { conn = record { turns = []; incoming = []; sent = hello }; shown = [] }))
    × (poll_one heard (some 4) readable
        ≡ done (record heard {
          conns = put_conn heard.conns 4 (record { turns = []; incoming = []; sent = [] });
          shown = hello;
        }))
typed_lem_example =
    typed_lem (client []) zeros hello 2000 [] [] [] heard 4 2000 [] [] hello-IsText (omega arith)
      refl (omega arith) refl (omega arith) (omega arith)
