-- ===== src/SyncFile/Sending.antt =====
-- SyncSendFile of tools/sync_file/file_operation/sync_file.cpp.
pub mod Laws
use algo.Prelude.{ℕ, zero, suc, ◌+◌, Bool, true, List, ◌++◌, replicate}
use algo.SyncFile.Effects.{M, ◌>>=◌, return}
use algo.SyncFile.Bytes.{le_bytes}
use algo.SyncFile.Frames.{send_buff}
use algo.SyncFile.File.{
  SyncFileTool, Disk, Report, fresh, init_read, get_file_size, read_file, file_parts,
}

-- The loop over `file_arr`, with the loop's variables as arguments.
unfoldable pub send_pieces : ℕ → ℕ → SyncFileTool → List ℕ → ℕ → ℕ → M (SyncFileTool × Report)
unfolding read_file
send_pieces split zero tool buff index sum = return (tool, record { index = index; sum = sum })
send_pieces split (suc n) tool buff index sum = do
  let r = read_file tool buff split
  sent ← send_buff r.0.0 r.0.1
  send_pieces split n r.1.0 (replicate split 0) (index + 1) (sum + r.0.1)

-- With the result stand the two numbers that the last line prints.
unfoldable pub sync_send_file : Disk → List ℕ → ℕ → M (Bool × Report)
unfolding fresh get_file_size
sync_send_file disk filename len = do
  start ← init_read disk fresh filename len
  let sized = get_file_size start.0
  infos ← send_buff (le_bytes 8 sized.0 ++ le_bytes 8 2048) 16
  file_arr ← file_parts sized.0 2048
  finish ← send_pieces 2048 file_arr sized.1 (replicate 2048 0) 0 0
  return (true, finish.1)
