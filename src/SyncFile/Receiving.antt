-- ===== src/SyncFile/Receiving.antt =====
-- SyncRecvFile of tools/sync_file/file_operation/sync_file.cpp.
pub mod Laws
use algo.Prelude.{
  ℕ, zero, suc, ◌+◌, Bool, true, List, [], ◌∷◌, ◌++◌, if◌then◌else◌, ltb, length, take, drop,
  replicate,
}
use algo.SyncFile.Effects.{M, undefined, ◌>>=◌, return}
use algo.SyncFile.Bytes.{le_value, overlay}
use algo.SyncFile.Frames.{recv_buff, send_buff}
use algo.SyncFile.File.{SyncFileTool, Disk, Report, fresh, init_write, write_file, file_parts}

-- The loop over `file_arr`, with the loop's variables as arguments.
unfoldable pub recv_pieces : ℕ → ℕ → SyncFileTool → List ℕ → ℕ → ℕ → M (SyncFileTool × Report)
unfolding write_file
recv_pieces split zero tool buff index sum = return (tool, record { index = index; sum = sum })
recv_pieces split (suc n) tool buff index sum = do
  r ← recv_buff buff
  recv_pieces split n (write_file tool r.1 r.0).0 (replicate split 0) (index + 1) (sum + r.0)

-- "%s.copy" of a name, which is given without its end.
abbrev pub copy_name : List ℕ → List ℕ
copy_name filename = filename ++ (b'.' ∷ b'c' ∷ b'o' ∷ b'p' ∷ b'y' ∷ [])

-- The rest of the function, behind the `sprintf`.
unfoldable pub recv_into : Disk → List ℕ → ℕ → List ℕ → M ((Bool × Report) × SyncFileTool)
unfolding fresh
recv_into disk filename len file_buff = do
  start ← init_write disk fresh file_buff (length (copy_name filename))
  sent ← send_buff filename len
  infos ← recv_buff (replicate 16 0)
  let file_len = le_value (take 8 infos.1)
  let file_split_len = le_value (take 8 (drop 8 infos.1))
  file_arr ← file_parts file_len file_split_len
  finish ← recv_pieces file_split_len file_arr start.0 (replicate file_split_len 0) 0 0
  return ((true, finish.1), finish.0)

-- With the result stand the numbers that the last line prints, and the tool as it is destroyed.
unfoldable pub sync_recv_file : Disk → List ℕ → ℕ → M ((Bool × Report) × SyncFileTool)
unfolding recv_into
sync_recv_file disk filename len c =
    if ltb 256 (length (copy_name filename) + 1)
    then undefined
    else recv_into disk filename len (overlay (copy_name filename ++ 0 ∷ []) (replicate 256 0)) c
