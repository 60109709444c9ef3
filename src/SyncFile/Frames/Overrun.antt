-- ===== src/SyncFile/Frames/Overrun.antt =====
-- RecvBuff of tools/sync_file/epoll_socket/epoll_socket.cpp trusts the length that the peer sends.
use algo.Prelude.{
  ℕ, ◌+◌, ◌≤◌, ◌<◌, ◌^◌, ◌≡◌, refl, ◌∙◌, ap, List, ◌++◌, append_assoc, arith, length, take, drop,
  length-append, take-append, drop-append,
}
use algo.Prelude.Int.{pos}
use algo.SyncFile.Effects.{Conn, undefined, Supplies, Goes-subst, >>=-undefined, >>=-undefined_left}
use algo.SyncFile.Bytes.{le_bytes, length-le_bytes, le_value-overlay}
use algo.SyncFile.Socket.{recv_socket}
use algo.SyncFile.Socket.Live.{recv_socket_live}
use algo.SyncFile.Frames.{store, recv_buff}
use algo.SyncFile.Frames.Laws.{frame}

store_overrun :
    (body buff : List ℕ) (k : Conn) → length buff < length body → store body buff k ≡ undefined
unfolding store
store_overrun body buff k h = ground arith

-- On a live connection a frame that is longer than the caller's buffer makes RecvBuff write past
-- the buffer's end, which is undefined behaviour.
pub recv_buff_overrun :
    (body rest buff : List ℕ) (c : ℕ) (k : Conn)
    → k.incoming ≡ frame body ++ rest
    → length buff < length body
    → length body < 256 ^ 8
    → 8 + length body ≤ c
    → Supplies c k.turns
    → recv_buff buff k ≡ undefined
unfolding recv_buff frame
recv_buff_overrun body rest buff c k e long small le s =
    let len = length body in
    let l8 = length-le_bytes 8 len in
    let e' : k.incoming ≡ le_bytes 8 len ++ (body ++ rest) =
      e ∙ append_assoc (le_bytes 8 len) body rest in
    let head : take 8 k.incoming ≡ le_bytes 8 len =
      rw e' (take-append 8 (le_bytes 8 len) (body ++ rest) l8) in
    let tail : drop 8 k.incoming ≡ body ++ rest =
      rw e' (drop-append 8 (le_bytes 8 len) (body ++ rest) l8) in
    let size : 8 + length (body ++ rest) ≤ length k.incoming =
      omega (arith, ap length e', length-append (le_bytes 8 len) (body ++ rest)) in
    >>=-undefined (recv_socket 8) _
      (Goes-subst (ap (λ x. (pos 0, x)) head) tail refl
        (recv_socket_live len c s 8 (omega arith) (omega arith) (omega arith)))
      λ ts s1. rw (le_value-overlay len small) (
        >>=-undefined (recv_socket len) _
          (Goes-subst (ap (λ x. (pos 0, x)) (take-append len body rest refl)) refl refl (
            recv_socket_live 0 len s1 len (omega arith) (omega (arith, length-append body rest))
              (omega arith)))
          λ us s2. >>=-undefined_left (store body buff) _ _ (store_overrun body buff _ long))
