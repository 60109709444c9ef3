-- ===== src/Echo/Rounds.antt =====
-- Messages between the echo server and its client (socket/epoll/server.cpp, client.cpp).
use algo.Prelude.{
  ℕ, suc, ◌-◌, ◌%◌, length-append, length-take, ◌+◌, ◌^◌, ◌≤◌, ◌<◌, ◌≡◌, refl, ap, ◌∙◌, arith, true,
  some, List, [], ◌∷◌, ◌++◌, min, length, take, drop, take_all, drop_all, append-nil, append_assoc,
  ==_refl, lt→ltb,
}
use algo.SyncFile.Effects.{Turn, ready, Conn, done, undefined}
use algo.SyncFile.Bytes.{le_bytes, le_value, overlay, length-le_bytes, le_value-le_bytes}
use algo.ThreadPool.Index.{NotAt}
use algo.ThreadPool.Operations.{requests, add_task_lem}
use algo.ThreadPool.Runs
use algo.ThreadPool.Runs.{Step-Refines, submit}
use algo.Sockets.{read}
use algo.Sockets.Laws.{read_whole, read_part, write_whole, bind_done}
use algo.Echo.{
  Protobuf, ClientMessage, ServerMessage, ServerImpl, recv_buff, after_body, queue_send, put,
  send_buff, run_task, recv_reply, client_send, client_round, AreAscii,
}

-- What a client sends for a message.
abbrev pub message : List ℕ → List ℕ
message payload = le_bytes 4 (length payload) ++ payload

-- A length that fits an int is read back.
length_read : (n : ℕ) → n < 2 ^ 31 → le_value (overlay (le_bytes 4 n) (le_bytes 4 0)) ≡ n
unfolding overlay
length_read n h =
    let l4 = length-le_bytes 4 n in
    rw
      (
        l4,
        drop_all 4 (le_bytes 4 0) (omega (arith, length-le_bytes 4 0)),
        append-nil (le_bytes 4 n),
      )
      (le_value-le_bytes 4 n (omega (arith, h)))

after_body-some :
    (p : Protobuf) (s : ServerImpl) (address fd : ℕ) (bytes : List ℕ)
    → 0 < length bytes
    → after_body p s address fd (some bytes) ≡ queue_send s address fd (p.parse bytes).number
after_body-some p s address fd [] h = absurd (omega arith)
after_body-some p s address fd (b ∷ bs) h = refl

-- A task that sends a number is queued for the client, whose connection is left so.
abbrev pub Queues : ServerImpl → ℕ → ServerImpl → ℕ → Conn → Type 0
Queues s fd s' number c =
    (requests s'.pool.tasks ≡ requests s.pool.tasks ++ (fd, s.made) ∷ [])
    × (s'.sends s.made ≡ some (fd, number))
    × (s'.conns fd ≡ some c)
    × Runs.IsValid s'.pool

module _ (p : Protobuf) (s : ServerImpl) (address fd : ℕ) (valid : Runs.IsValid s.pool)
    (running : s.pool.run ≡ true) (free : NotAt address s.pool.tasks) where
  queue_send-Queues :
      (number : ℕ) (c : Conn)
      → (s' : ServerImpl) × (queue_send
            (record s { conns = put s.conns fd (some c) })
            address
            fd
            number
          ≡ done (s', true))
        × Queues s fd s' number c
  queue_send-Queues number c =
      let (q, run, i, more, pool, idle, on) =
        add_task_lem s.pool address fd s.made valid.indexed free running in
      let step = Step-Refines valid (submit address fd s.made free run) in
      (
        record s {
          conns = put s.conns fd (some c);
          pool = q;
          sends = put s.sends s.made (some (fd, number));
          made = s.made + 1;
        },
        rw (run, queue_send) refl,
        (more, rw (==_refl s.made) refl, rw (==_refl fd) refl, step.valid),
      )

  -- If the length of a message arrives in one piece, RecvBuff queues one task, behind those there,
  -- that sends the client the number of what the bytes of one more `read` parse to. The rest of the
  -- message, if that call did not take it whole, is left in front of what follows it.
  pub recv_buff_lem :
      (j k : ℕ) (ts : List Turn) (payload rest sent : List ℕ)
      → s.conns fd
        ≡ some (record {
          turns = ready j ∷ ready k ∷ ts;
          incoming = message payload ++ rest;
          sent = sent;
        })
      → 4 ≤ j
      → 0 < k
      → 0 < length payload
      → length payload < 2 ^ 31
      → let n = min k (length payload) in
        (s' : ServerImpl) × (recv_buff p s address fd ≡ done (s', true))
        × Queues s fd s'
            (p.parse (take n payload)).number
            (record { turns = ts; incoming = drop n payload ++ rest; sent = sent })
  unfolding recv_buff
  recv_buff_lem j k ts payload rest sent at room some_k some_bytes small =
      let n = min k (length payload) in
      let c : Conn = record { turns = ts; incoming = drop n payload ++ rest; sent = sent } in
      let m : length (take n payload) ≡ n = omega (arith, length-take n payload) in
      let (s', run, q) = queue_send-Queues (p.parse (take n payload)).number c in
      (
        s',
        rw
            (
              recv_buff,
              at,
              append_assoc (le_bytes 4 (length payload)) payload rest,
              read_whole 4 j (ready k ∷ ts) (le_bytes 4 (length payload)) (payload ++ rest) sent
                  (length-le_bytes 4 (length payload)) room,
              length_read (length payload) small,
              lt→ltb (length payload) (2 ^ 31) small,
              read_part (length payload) k ts payload rest sent refl,
              after_body-some p (record s { conns = put s.conns fd (some c) }) address fd
                  (take n payload) (omega (arith, m, some_k, some_bytes)),
            )
            run,
        q,
      )

-- A worker sends the bytes of a message object.
run_task_sends :
    (p : Protobuf) (s : ServerImpl) (task fd j : ℕ) (number : ℕ) (ts : List Turn)
    (incoming sent : List ℕ)
    → s.sends task ≡ some (fd, number)
    → s.conns fd ≡ some (record { turns = ready j ∷ ts; incoming = incoming; sent = sent })
    → p.size ≤ j
    → (s' : ServerImpl) × (run_task p s task ≡ done s')
      × (s'.conns fd
          ≡ some (record {
            turns = ts;
            incoming = incoming;
            sent = sent ++ p.memory (record { server_id = fd % 2 ^ 32; number = number });
          }))
unfolding run_task send_buff
run_task_sends p s task fd j number ts incoming sent made at room =
    let reply : ServerMessage = record { server_id = fd % 2 ^ 32; number = number } in
    let c : Conn = record { turns = ts; incoming = incoming; sent = sent ++ p.memory reply } in
    (
      record s { conns = put s.conns fd (some c) },
      rw
          (
            made,
            run_task,
            send_buff,
            at,
            write_whole j ts (p.memory reply) incoming sent
                (omega (arith, p.length-memory reply, room)),
          )
          refl,
      rw (==_refl fd) refl,
    )

-- What the client writes, where its calls have room.
client_send_lem :
    (p : Protobuf) (name : List ℕ) (index i j : ℕ) (ts : List Turn) (incoming sent : List ℕ)
    → let payload = p.serialize (record { client_id = name; number = index % 2 ^ 32 }) in
      4 ≤ i
      → length payload ≤ j
      → client_send p name index
          (record { turns = ready i ∷ ready j ∷ ts; incoming = incoming; sent = sent })
        ≡ done (record { turns = ts; incoming = incoming; sent = sent ++ message payload })
unfolding client_send
client_send_lem p name index i j ts incoming sent room_head room_body =
    let payload = p.serialize (record { client_id = name; number = index % 2 ^ 32 }) in
    let head = le_bytes 4 (length payload) in
    let four = length-le_bytes 4 (length payload) in
    bind_done _ _ _ _
      (write_whole i (ready j ∷ ts) head incoming sent (omega (arith, four, room_head)))
      (write_whole j ts payload incoming (sent ++ head) room_body
        ∙ ap (λ xs. done (record { turns = ts; incoming = incoming; sent = xs }))
            (append_assoc sent head payload))

-- The bytes of an object arrive in the client's object.
recv_reply_lem :
    (p : Protobuf) (k : ℕ) (ts : List Turn) (bytes sent : List ℕ)
    → 0 < k
    → 0 < p.size
    → 0 < length bytes
    → recv_reply p (record { turns = ready k ∷ ts; incoming = bytes; sent = sent }) ≡ undefined
unfolding recv_reply read
recv_reply_lem p k ts [] sent some_room some_size some_bytes = absurd (omega arith)
recv_reply_lem p k ts (b ∷ bs) sent some_room some_size some_bytes =
    let e : min k p.size ≡ suc (min k p.size - 1) = omega arith in rw e refl

-- Where each call of the two programs meets enough room, the name is of ASCII and the number an int.
-- The client writes one message. The server takes that message and nothing behind it and queues one
-- task, and the worker that runs it sends the client as many bytes as an object has, those of an
-- object with the client's descriptor and its number. When these bytes, of which there are some,
-- are there, the client's round runs into undefined behaviour: it reads them over an object.
pub echo_lem :
    (p : Protobuf) (s : ServerImpl) (address fd : ℕ) (name : List ℕ) (index i j k : ℕ)
    (ts : List Turn) (rest sent : List ℕ) (i' j' k' : ℕ) (ts' : List Turn) (rest' sent' : List ℕ)
    → Runs.IsValid s.pool
    → s.pool.run ≡ true
    → NotAt address s.pool.tasks
    → AreAscii name
    → index < 2 ^ 31
    → let payload = p.serialize (record { client_id = name; number = index % 2 ^ 32 }) in
      let reply : ServerMessage = record { server_id = fd % 2 ^ 32; number = index } in
      s.conns fd
        ≡ some (record {
          turns = ready i ∷ ready j ∷ ready k ∷ ts;
          incoming = message payload ++ rest;
          sent = sent;
        })
      → 4 ≤ i
      → length payload ≤ j
      → p.size ≤ k
      → 0 < length payload
      → length payload < 2 ^ 31
      → 4 ≤ i'
      → length payload ≤ j'
      → 0 < k'
      → 0 < p.size
      → (t : ServerImpl) × (u : ServerImpl) × (client_send p name index (record {
        turns = ready i' ∷ ready j' ∷ ready k' ∷ ts';
        incoming = p.memory reply ++ rest';
        sent = sent';
      })
          ≡ done (record {
            turns = ready k' ∷ ts';
            incoming = p.memory reply ++ rest';
            sent = sent' ++ message payload;
          }))
        × (recv_buff p s address fd ≡ done (t, true))
        × (requests t.pool.tasks ≡ requests s.pool.tasks ++ (fd, s.made) ∷ [])
        × (run_task p t s.made ≡ done u)
        × (u.conns fd
            ≡ some (record { turns = ts; incoming = rest; sent = sent ++ p.memory reply }))
        × (length (p.memory reply) ≡ p.size)
        × (client_round p name index (record {
          turns = ready i' ∷ ready j' ∷ ready k' ∷ ts';
          incoming = p.memory reply ++ rest';
          sent = sent';
        })
            ≡ undefined)
unfolding client_round
echo_lem p s address fd name index i j k ts rest sent i' j' k' ts' rest' sent' valid running free
      text int at hi hj hk some_bytes small hi' hj' hk' sized =
    let m : ClientMessage = record { client_id = name; number = index % 2 ^ 32 } in
    let payload = p.serialize m in
    let reply : ServerMessage = record { server_id = fd % 2 ^ 32; number = index } in
    let (t, run, (more, made, conn, valid')) =
      recv_buff_lem p s address fd valid running free i j (ready k ∷ ts) payload rest sent at hi
        (omega (arith, hj, some_bytes)) some_bytes small in
    let n : min j (length payload) ≡ length payload = omega (arith, hj) in
    let parsed : p.parse payload ≡ m = p.parse-serialize m (omega arith) text in
    let same : (p.parse (take (min j (length payload)) payload)).number ≡ index =
      ap (λ x. (p.parse (take x payload)).number) n
      ∙ ap (λ xs. (p.parse xs).number) (take_all (length payload) payload (omega arith))
      ∙ ap (λ (x : ClientMessage). x.number) parsed
      ∙ omega (arith, int) in
    let left : drop (min j (length payload)) payload ++ rest ≡ rest =
      rw (n, drop_all (length payload) payload (omega arith)) refl in
    let made' = made ∙ ap (λ v. some (fd, v)) same in
    let conn' =
      conn ∙ ap (λ xs. some (record { turns = ready k ∷ ts; incoming = xs; sent = sent })) left in
    let (u, ran, conn'') = run_task_sends p t s.made fd k index ts rest sent made' conn' hk in
    let writes =
      client_send_lem p name index i' j' (ready k' ∷ ts') (p.memory reply ++ rest') sent' hi' hj' in
    (
      t,
      u,
      writes,
      run,
      more,
      ran,
      conn'',
      p.length-memory reply,
      bind_done _ _ _ _ writes (
          recv_reply_lem p k' ts' (p.memory reply ++ rest') (sent' ++ message payload) hk' sized
            (omega (arith, length-append (p.memory reply) rest', p.length-memory reply))),
    )
