-- ===== src/Echo/Examples.antt =====
-- The echo server and client of socket/epoll on small runs, and the theorems at them. The messages
-- are laid out with four bytes for each number.
use algo.Prelude.{
  ℕ, ◌%◌, ◌^◌, ◌<◌, ◌≡◌, refl, ap, ◌∙◌, arith, true, some, List, [], ◌∷◌, ◌++◌, length, take, drop,
  length-append, take-append, drop-append,
}
use algo.SyncFile.Effects.{Turn, Conn, done, undefined, ready}
use algo.SyncFile.Bytes.{le_bytes, le_value, length-le_bytes, le_value-le_bytes}
use algo.ThreadPool.{add_thread}
use algo.ThreadPool.Operations.{requests}
use algo.ThreadPool.Runs.{reachable-Refines, next, start, grow}
use algo.Echo.{
  ClientMessage, Protobuf, ServerImpl, init_server, accept_client, recv_buff, run_task, client_send,
  client_round,
}
use algo.Echo.Rounds.{message, Queues, recv_buff_lem, echo_lem}

abbrev bytes_of_message : ClientMessage → List ℕ
unfolding le_bytes
bytes_of_message m = le_bytes 4 m.number ++ m.client_id

abbrev parse_bytes : List ℕ → ClientMessage
unfolding le_value
parse_bytes bytes = record { client_id = drop 4 bytes; number = le_value (take 4 bytes) % 2 ^ 32 }

parsed : (m : ClientMessage) → m.number < 2 ^ 32 → parse_bytes (bytes_of_message m) ≡ m
unfolding parse_bytes le_bytes bytes_of_message
parsed m small =
    let four = length-le_bytes 4 m.number in
    let e : le_value (take 4 (le_bytes 4 m.number ++ m.client_id)) % 2 ^ 32 ≡ m.number =
      ap (λ xs. le_value xs % 2 ^ 32) (take-append 4 (le_bytes 4 m.number) m.client_id four)
      ∙ ap (λ n. n % 2 ^ 32) (le_value-le_bytes 4 m.number (omega arith))
      ∙ omega (arith, small) in
    λ i. record { client_id = drop-append 4 (le_bytes 4 m.number) m.client_id four i; number = e i }

abbrev plain : Protobuf
unfolding le_bytes
plain = record {
  serialize = bytes_of_message;
  parse = parse_bytes;
  parse-serialize = λ m small text. parsed m small;
  size = 8;
  memory = λ m. le_bytes 4 m.server_id ++ le_bytes 4 m.number;
  length-memory = λ m. omega (
    arith,
    length-append (le_bytes 4 m.server_id) (le_bytes 4 m.number),
    length-le_bytes 4 m.server_id,
    length-le_bytes 4 m.number,
  );
}

-- Client 5 has sent the number 7 under the name "B", and then one more byte.
abbrev client_conn : Conn
client_conn = record {
  turns = ready 100 ∷ ready 100 ∷ ready 100 ∷ [];
  incoming = message (7 ∷ 0 ∷ 0 ∷ 0 ∷ b'B' ∷ []) ++ 9 ∷ [];
  sent = [];
}

abbrev server : ServerImpl
unfolding init_server add_thread
server = accept_client (init_server 3 4) (some (5, client_conn))

abbrev answer : List ℕ
answer = 5 ∷ 0 ∷ 0 ∷ 0 ∷ 7 ∷ 0 ∷ 0 ∷ 0 ∷ []

abbrev asker : List Turn → List ℕ → Conn
asker turns sent = record { turns = turns; incoming = answer ++ []; sent = sent }

echo_lem_example :
    (t : ServerImpl) × (u : ServerImpl) × (client_send plain
        (b'B' ∷ [])
        7
        (asker (ready 4 ∷ ready 5 ∷ ready 8 ∷ []) [])
      ≡ done (asker (ready 8 ∷ []) (message (7 ∷ 0 ∷ 0 ∷ 0 ∷ b'B' ∷ []))))
    × (recv_buff plain server 100 5 ≡ done (t, true))
    × (requests t.pool.tasks ≡ requests server.pool.tasks ++ (5, 0) ∷ [])
    × (run_task plain t 0 ≡ done u)
    × (u.conns 5 ≡ some (record { turns = []; incoming = 9 ∷ []; sent = answer }))
    × (length answer ≡ 8)
    × (client_round plain (b'B' ∷ []) 7 (asker (ready 4 ∷ ready 5 ∷ ready 8 ∷ []) []) ≡ undefined)
unfolding init_server add_thread le_bytes le_value
echo_lem_example =
    echo_lem plain server 100 5 (b'B' ∷ []) 7 100 100 100 [] (9 ∷ []) [] 4 5 8 [] [] []
      (reachable-Refines (next (grow 4) start)).valid refl tt (omega arith, tt) (omega arith) refl
      (omega arith) (omega arith) (omega arith) (omega arith) (omega arith) (omega arith)
      (omega arith) (omega arith) (omega arith)

-- The same client, whose message comes in two pieces.
abbrev piecemeal_conn : Conn
piecemeal_conn = record {
  turns = ready 4 ∷ ready 2 ∷ [];
  incoming = message (7 ∷ 0 ∷ 0 ∷ 0 ∷ b'B' ∷ []) ++ [];
  sent = [];
}

abbrev piecemeal : ServerImpl
unfolding init_server add_thread
piecemeal = accept_client (init_server 3 4) (some (5, piecemeal_conn))

recv_buff_lem_example :
    (s : ServerImpl) × (recv_buff plain piecemeal 100 5 ≡ done (s, true))
    × Queues piecemeal 5 s 7 (record { turns = []; incoming = 0 ∷ 0 ∷ b'B' ∷ []; sent = [] })
unfolding init_server add_thread plain parse_bytes
recv_buff_lem_example =
    recv_buff_lem plain piecemeal 100 5 (reachable-Refines (next (grow 4) start)).valid refl tt 4 2
      [] (7 ∷ 0 ∷ 0 ∷ 0 ∷ b'B' ∷ []) [] [] refl (omega arith) (omega arith) (omega arith)
      (omega arith)
