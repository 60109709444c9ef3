-- ===== src/SyncFile/Frames.antt =====
-- RecvBuff and SendBuff of EpollSocket, in tools/sync_file/epoll_socket/epoll_socket.cpp: eight
-- bytes of length, then the bytes.
pub mod Laws
pub mod Overrun
use algo.Prelude.{ℕ, Bool, true, false, ◌&&◌, List, if◌then◌else◌, leb, length, take}
use algo.Prelude.Int.{ℤ, pos, negsuc}
use algo.SyncFile.Effects.{M, Run, undefined, ◌>>=◌, return}
use algo.SyncFile.Bytes.{le_bytes, le_value, overlay}
use algo.SyncFile.Socket.{recv_socket, send_socket}

abbrev nonneg : ℤ → Bool
nonneg (pos n) = true
nonneg (negsuc n) = false

-- Bytes that arrived, put into a buffer: past its end the behaviour is undefined.
unfoldable pub store : List ℕ → List ℕ → M (List ℕ)
store got buff c = if leb (length got) (length buff) then return (overlay got buff) c else undefined

-- The length that is returned is read as its 64 bits, and `buff` is returned as it is left.
unfoldable pub recv_buff : List ℕ → M (ℕ × List ℕ)
unfolding store
recv_buff buff = do
  (ret_len, head) ← recv_socket 8
  let recv_len = le_value (overlay head (le_bytes 8 0))
  (ret_buff, body) ← recv_socket recv_len
  stored ← store body buff
  return (recv_len, stored)

-- The call for the body: from a buffer that is shorter the socket would read past its end.
unfoldable pub send_body : List ℕ → ℕ → M ℤ
send_body buff len c = if leb len (length buff) then send_socket (take len buff) c else undefined

unfoldable pub send_buff : List ℕ → ℕ → M Bool
unfolding send_body
send_buff buff len = do
  ret_len ← send_socket (le_bytes 8 len)
  ret_buff ← send_body buff len
  return (nonneg ret_buff && nonneg ret_len)
