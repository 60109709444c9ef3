-- ===== src/SyncFile/Socket/Live.antt =====
-- RecvSocket and SendSocket of tools/sync_file/epoll_socket/epoll_socket.cpp on a live connection.
use algo.Prelude.{
  ℕ, zero, suc, ◌+◌, ◌-◌, ◌≤◌, ◌<◌, min, ◌≡◌, refl, ap, List, [], ◌∷◌, ◌++◌, arith, length, take,
  drop, take-append-drop, length-take, length-drop, ◌==◌, ltb, if◌then◌else◌, take-drop, drop-drop,
  lt→ltb, dec_lt, ==_refl, ==_ne,
}
use algo.Prelude.Int.{pos, negsuc}
use algo.SyncFile.Effects.{
  Turn, ready, again, broken, Conn, Run, done, Supplies, Supplies-mono, Goes,
}
use algo.SyncFile.Socket.{
  Received, received_more, recv_loop, after_recv, after_send, Sent, send_loop, recv_socket,
  send_socket,
}

-- The call returned 0 with the next `n` bytes, and turns are left that supply `b` more.
abbrev pub Receives : ℕ → ℕ → List ℕ → Run Received → Type 0
Receives b n incoming r =
    (ts : List Turn) × Supplies b ts
    × (r
        ≡ done (record {
          code = pos 0;
          got = take n incoming;
          turns = ts;
          incoming = drop n incoming;
        }))

recv_round_live :
    (b j n : ℕ) (incoming : List ℕ) (ts : List Turn) (more : Run Received)
    → 0 < j
    → j ≤ n
    → n ≤ length incoming
    → Supplies b ts
    → (j < n → Receives b (n - j) (drop j incoming) more)
    → Receives b n incoming (
        if length (take j incoming) == n
        then done
            (record { code = pos 0; got = take j incoming; turns = ts; incoming = drop j incoming })
        else if ltb 0 (length (take j incoming))
        then received_more (take j incoming) more
        else done (record {
          code = negsuc 0;
          got = take j incoming;
          turns = ts;
          incoming = drop j incoming;
        }))
recv_round_live b j n incoming ts more pos_j le enough s k =
    let len : length (take j incoming) ≡ j = omega (arith, length-take j incoming) in
    elim (dec_lt j n) [
      | no whole ↦ let e : j ≡ n = omega arith in (ts, s, rw (len, e, ==_refl n) refl)
      | yes part ↦
          let (ts', s', e) = k part in
          (
            ts',
            s',
            rw (len, ==_ne j n (omega arith), lt→ltb 0 j pos_j, e)
                (rw (
                  take-drop j (n - j) n incoming (omega arith),
                  drop-drop j (n - j) n incoming (omega arith),
                )),
          )
    ]

-- While the connection lives (at least as many turns make progress as bytes are asked for), and
-- the peer has sent `n` bytes, more than none, RecvSocket comes back with 0 and the next `n` bytes,
-- however they are split over the calls.
pub recv_loop_live :
    (ts : List Turn) (incoming : List ℕ) (b c n : ℕ)
    → 0 < n
    → n ≤ length incoming
    → n + b ≤ c
    → Supplies c ts
    → Receives b n incoming (recv_loop ts incoming n)
unfolding recv_loop
recv_loop_live ts incoming b zero n p h le s = absurd (omega arith)
recv_loop_live [] incoming b (suc c) n p h le s = absurd s
recv_loop_live (ready k ∷ ts) incoming b (suc c) n p h le s =
    let j = min k n in
    let len : length (take j incoming) ≡ j = omega (arith, length-take j incoming) in
    recv_round_live b j n incoming ts _ (omega (arith, s.0)) (omega arith) h
      (Supplies-mono b c ts (omega arith) s.1)
      λ part. rw len (
        recv_loop_live ts (drop j incoming) b c (n - j) (omega arith)
          (omega (arith, length-drop j incoming)) (omega (arith, s.0)) s.1)
recv_loop_live (again ∷ ts) incoming b (suc c) n p h le s =
    recv_loop_live ts incoming b (suc c) n p h le s
recv_loop_live (broken ∷ ts) incoming b (suc c) n p h le s = absurd s

-- While the connection lives, SendSocket returns 0 and the socket has taken all of `buf`.
abbrev pub Sends : ℕ → List ℕ → Run Sent → Type 0
Sends b buf r =
    (ts : List Turn) × Supplies b ts × (r ≡ done (record { code = pos 0; taken = buf; turns = ts }))

pub send_loop_live :
    (ts : List Turn) (buf : List ℕ) (b c : ℕ)
    → 0 < length buf
    → length buf + b ≤ c
    → Supplies c ts
    → Sends b buf (send_loop ts buf)
unfolding send_loop
send_loop_live ts buf b zero p le s = absurd (omega arith)
send_loop_live [] buf b (suc c) p le s = absurd s
send_loop_live (ready k ∷ ts) buf b (suc c) p le s =
    let j = min k (length buf) in
    elim (dec_lt j (length buf)) [
      | no whole ↦
          let e : j ≡ length buf = omega arith in
          (ts, Supplies-mono b c ts (omega arith) s.1, rw (e, ==_refl (length buf)) refl)
      | yes part ↦
          let (ts', s', e) =
            send_loop_live ts (drop j buf) b c (omega (arith, length-drop j buf))
              (omega (arith, length-drop j buf, s.0)) s.1 in
          (
            ts',
            s',
            rw (==_ne j (length buf) (omega arith), lt→ltb 0 j (omega (arith, s.0)), e)
                (rw (take-append-drop j buf)),
          )
    ]
send_loop_live (again ∷ ts) buf b (suc c) p le s = send_loop_live ts buf b (suc c) p le s
send_loop_live (broken ∷ ts) buf b (suc c) p le s = absurd s

-- The two functions on a live connection: the result is 0, the receiver has the next `n` bytes,
-- and the sender's bytes are all sent.
module _ (b c : ℕ) {k : Conn} (s : Supplies c k.turns) where
  pub recv_socket_live :
      (n : ℕ)
      → 0 < n
      → n ≤ length k.incoming
      → n + b ≤ c
      → Goes (recv_socket n) k b (pos 0, take n k.incoming) (drop n k.incoming) k.sent
  unfolding recv_socket
  recv_socket_live n p h le =
      let (ts, s', e) = recv_loop_live k.turns k.incoming b c n p h le s in
      record { turns = ts; live = s'; runs = ap (after_recv k) e }

  pub send_socket_live :
      (buf : List ℕ)
      → 0 < length buf
      → length buf + b ≤ c
      → Goes (send_socket buf) k b (pos 0) k.incoming (k.sent ++ buf)
  unfolding send_socket
  send_socket_live buf p le =
      let (ts, s', e) = send_loop_live k.turns buf b c p le s in
      record { turns = ts; live = s'; runs = ap (after_send k) e }
