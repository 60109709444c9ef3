-- ===== src/SyncFile/Frames/Laws.antt =====
-- RecvBuff and SendBuff of tools/sync_file/epoll_socket/epoll_socket.cpp on a live connection.
use algo.Prelude.{
  ℕ, ◌+◌, ◌≤◌, ◌<◌, ◌^◌, ◌≡◌, refl, ◌∙◌, ap, true, List, ◌++◌, append_assoc, arith, length, take,
  drop, le→leb, length-take, length-append, take-append, drop-append,
}
use algo.Prelude.Int.{pos}
use algo.SyncFile.Effects.{Conn, Supplies, Goes, Goes->>=, Goes-return, Goes-subst}
use algo.SyncFile.Bytes.{le_bytes, overlay, length-le_bytes, le_value-overlay}
use algo.SyncFile.Socket.{recv_socket}
use algo.SyncFile.Socket.Live.{recv_socket_live, send_socket_live}
use algo.SyncFile.Frames.{store, recv_buff, send_body, send_buff}

-- The bytes of one frame.
unfoldable pub frame : List ℕ → List ℕ
frame body = le_bytes 8 (length body) ++ body

store_live :
    (body buff : List ℕ) {k : Conn} {b : ℕ}
    → Supplies b k.turns
    → length body ≤ length buff
    → Goes (store body buff) k b (overlay body buff) k.incoming k.sent
unfolding store
store_live body buff {k} s h = record { turns = k.turns; live = s; runs = ground arith }

module _ (b c : ℕ) {k : Conn} (s : Supplies c k.turns) where
  send_body_live :
      (buff : List ℕ) (len : ℕ)
      → 0 < len
      → len ≤ length buff
      → len + b ≤ c
      → Goes (send_body buff len) k b (pos 0) k.incoming (k.sent ++ take len buff)
  unfolding send_body
  send_body_live buff len p h le =
      let g =
        send_socket_live b c {k = k} s (take len buff) (omega (arith, length-take len buff))
          (omega (arith, length-take len buff)) in
      record { turns = g.turns; live = g.live; runs = rw (le→leb len (length buff) h) g.runs }

module _ (b c : ℕ) {k : Conn} (s : Supplies c k.turns) where
  -- SendBuff sends one frame and reports success.
  pub send_buff_live :
      (buff : List ℕ) (len : ℕ)
      → 0 < len
      → len ≤ length buff
      → 8 + len + b ≤ c
      → Goes (send_buff buff len) k b true k.incoming (k.sent ++ frame (take len buff))
  unfolding send_buff frame
  send_buff_live buff len p h le =
      let l8 = length-le_bytes 8 len in
      let body : length (take len buff) ≡ len = omega (arith, length-take len buff) in
      rw (body, ← append_assoc)
        (Goes->>= _ _ (send_socket_live (len + b) c s (le_bytes 8 len) (omega arith) (omega arith))
          λ ts s1.
            Goes->>= _ _ (send_body_live b (len + b) s1 buff len p h (omega arith))
              λ us s2. Goes-return true s2)

  -- On a live connection RecvBuff reads back the frame of a body that is not empty and fits the
  -- buffer: it returns the length, the body stands at the start of the buffer, and what follows
  -- the frame is left for the next call.
  pub recv_buff_live :
      (body rest buff : List ℕ)
      → k.incoming ≡ frame body ++ rest
      → 0 < length body
      → length body < 256 ^ 8
      → length body ≤ length buff
      → 8 + length body + b ≤ c
      → Goes (recv_buff buff) k b (length body, overlay body buff) rest k.sent
  unfolding recv_buff frame store
  recv_buff_live body rest buff e p small fits le =
      let len = length body in
      let l8 = length-le_bytes 8 len in
      let e' : k.incoming ≡ le_bytes 8 len ++ (body ++ rest) =
        e ∙ append_assoc (le_bytes 8 len) body rest in
      let head : take 8 k.incoming ≡ le_bytes 8 len =
        rw e' (take-append 8 (le_bytes 8 len) (body ++ rest) l8) in
      let tail : drop 8 k.incoming ≡ body ++ rest =
        rw e' (drop-append 8 (le_bytes 8 len) (body ++ rest) l8) in
      let size : 8 + length (body ++ rest) ≤ length k.incoming =
        omega (arith, ap length e', length-append (le_bytes 8 len) (body ++ rest)) in
      Goes->>= (recv_socket 8) _
        (Goes-subst (ap (λ x. (pos 0, x)) head) tail refl
          (recv_socket_live (len + b) c s 8 (omega arith) (omega arith) (omega arith)))
        λ ts s1. rw (le_value-overlay len small) (
          Goes->>= (recv_socket len) _
            (Goes-subst (ap (λ x. (pos 0, x)) (take-append len body rest refl))
              (drop-append len body rest refl) refl
              (recv_socket_live b (len + b) s1 len p (omega (arith, length-append body rest))
                (omega arith)))
            λ us s2.
              Goes->>= (store body buff) _ (store_live body buff s2 fits)
                λ vs s3. Goes-return (len, overlay body buff) s3)

-- A frame crosses: on live connections SendBuff puts a frame on the connection and returns true, and
-- RecvBuff on a connection where that frame has arrived, with `rest` behind it, returns the length,
-- has the `len` bytes at the start of its buffer, whose other bytes it leaves, and leaves `rest` for
-- the next call. Condition: the body is not empty, is inside the sender's buffer, fits the
-- receiver's, and its length fits eight bytes.
pub recv_buff-send_buff :
    (a b c d : ℕ) (from to : Conn) (buff into rest : List ℕ) (len : ℕ)
    → Supplies c from.turns
    → Supplies d to.turns
    → 0 < len
    → len < 256 ^ 8
    → len ≤ length buff
    → len ≤ length into
    → 8 + len + a ≤ c
    → 8 + len + b ≤ d
    → to.incoming ≡ frame (take len buff) ++ rest
    → Goes (send_buff buff len) from a true from.incoming (from.sent ++ frame (take len buff))
      × Goes (recv_buff into) to b (len, overlay (take len buff) into) rest to.sent
recv_buff-send_buff a b c d from to buff into rest len s s' p small inside fits le le' e =
    let size : length (take len buff) ≡ len = omega (arith, length-take len buff) in
    (
      send_buff_live a c s buff len p inside le,
      Goes-subst (ap (λ x. (x, overlay (take len buff) into)) size) refl refl (
          recv_buff_live b d s' (take len buff) rest into e (omega arith) (omega arith)
            (omega arith) (omega arith)),
    )
