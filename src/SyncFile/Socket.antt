-- ===== src/SyncFile/Socket.antt =====
-- RecvSocket and SendSocket of EpollSocket, in tools/sync_file/epoll_socket/epoll_socket.cpp.
-- A loop recurs on the turns that its calls meet. The result is the function's `int`.
pub mod Laws
pub mod Live
use algo.Prelude.{ℕ, ◌-◌, min, List, [], ◌∷◌, ◌++◌, ◌==◌, if◌then◌else◌, ltb, length, take, drop}
use algo.Prelude.Int.{ℤ, pos, negsuc}
use algo.SyncFile.Effects.{Turn, ready, again, broken, Conn, Run, done, waiting, undefined, M}

-- What a call of RecvSocket has done: its result, the bytes put into `buf` from its start, and
-- what is left of the connection.
pub record Received : Type 0 where
  pub code : ℤ
  pub got : List ℕ
  pub turns : List Turn
  pub incoming : List ℕ

abbrev pub received_more : List ℕ → Run Received → Run Received
received_more bytes (done r) = done (record r { got = bytes ++ r.got })
received_more bytes waiting = waiting
received_more bytes undefined = undefined

-- The `while (1)`, with `recvRenainNums` as the last argument.
unfoldable pub recv_loop : List Turn → List ℕ → ℕ → Run Received
recv_loop [] incoming remain = waiting
recv_loop (ready k ∷ ts) incoming remain =
    let bytes = take (min k remain) incoming in
    let rest = drop (min k remain) incoming in
    let more = received_more bytes (recv_loop ts rest (remain - length bytes)) in
    if length bytes == remain
    then done (record { code = pos 0; got = bytes; turns = ts; incoming = rest })
    else if ltb 0 (length bytes)
    then more
    else done (record { code = negsuc 0; got = bytes; turns = ts; incoming = rest })
recv_loop (again ∷ ts) incoming remain = recv_loop ts incoming remain
recv_loop (broken ∷ ts) incoming remain =
    done (record { code = negsuc 0; got = []; turns = ts; incoming = incoming })

-- What SendSocket has done: its result, the bytes that the socket took, and the turns left.
pub record Sent : Type 0 where
  pub code : ℤ
  pub taken : List ℕ
  pub turns : List Turn

abbrev pub sent_more : List ℕ → Run Sent → Run Sent
sent_more bytes (done r) = done (record r { taken = bytes ++ r.taken })
sent_more bytes waiting = waiting
sent_more bytes undefined = undefined

-- The `while (1)`, with what is left of `buf` as the last argument.
unfoldable pub send_loop : List Turn → List ℕ → Run Sent
send_loop [] buf = waiting
send_loop (ready k ∷ ts) buf =
    let sent = min k (length buf) in
    let more = sent_more (take sent buf) (send_loop ts (drop sent buf)) in
    if sent == length buf
    then done (record { code = pos 0; taken = buf; turns = ts })
    else if ltb 0 sent
    then more
    else done (record { code = negsuc 0; taken = []; turns = ts })
send_loop (again ∷ ts) buf = send_loop ts buf
send_loop (broken ∷ ts) buf = done (record { code = negsuc 0; taken = []; turns = ts })

abbrev pub after_recv : Conn → Run Received → Run ((ℤ × List ℕ) × Conn)
after_recv c (done r) = done ((r.code, r.got), record c { turns = r.turns; incoming = r.incoming })
after_recv c waiting = waiting
after_recv c undefined = undefined

-- The bytes that arrived go to the start of `buf`: the caller puts them there.
unfoldable pub recv_socket : ℕ → M (ℤ × List ℕ)
recv_socket data_size c = after_recv c (recv_loop c.turns c.incoming data_size)

abbrev pub after_send : Conn → Run Sent → Run (ℤ × Conn)
after_send c (done r) = done (r.code, record c { turns = r.turns; sent = c.sent ++ r.taken })
after_send c waiting = waiting
after_send c undefined = undefined

unfoldable pub send_socket : List ℕ → M ℤ
send_socket buf c = after_send c (send_loop c.turns buf)
