-- ===== src/SyncFile/RoundTrip.antt =====
-- SyncSendFile and SyncRecvFile of tools/sync_file/file_operation/sync_file.cpp, end to end.
use algo.Prelude.{
  ℕ, ◌+◌, ◌*◌, ◌≤◌, ◌≡◌, ◌∙◌, sym, ap, Bool, List, [], ◌++◌, append-nil, arith, length,
}
use algo.SyncFile.Effects.{Conn, Run, done, waiting, undefined, Supplies}
use algo.SyncFile.File.{Disk, Report, SyncFileTool, Stream, parts}
use algo.SyncFile.Sending.{sync_send_file}
use algo.SyncFile.Sending.Laws.{IsSendable, transfer, sync_send_file_live}
use algo.SyncFile.Receiving.{sync_recv_file}
use algo.SyncFile.Receiving.Laws.{IsReceivable, sync_recv_file_live}

-- What a run that came back has put on the connection.
abbrev pub sent_of : {A : Type 0} → Run (A × Conn) → List ℕ
sent_of (done (a, k)) = k.sent
sent_of waiting = []
sent_of undefined = []

-- The file that the receiver leaves, if its run came back.
abbrev pub file_of : Run (((Bool × Report) × SyncFileTool) × Conn) → Stream
file_of (done ((r, tool), k)) = tool.file_os
file_of waiting = Stream.closed
file_of undefined = Stream.closed

module _ {disk disk' : Disk} {filename filename' : List ℕ} {len len' : ℕ} {bytes : List ℕ}
    (c c' : ℕ) (k k' : Conn) where
  -- A receiver that reads what the sender of a file has sent leaves a copy of the file, byte for
  -- byte, whatever sizes the calls of send and recv are split into. Both connections live, the file
  -- can be sent, and the receiver's copy can be written.
  pub sync_file_roundtrip :
      IsSendable disk filename len bytes
      → IsReceivable disk' filename' len'
      → k.sent ≡ []
      → k'.incoming ≡ sent_of (sync_send_file disk filename len k)
      → parts (length bytes) 2048 * 8 + length bytes + 24 ≤ c
      → parts (length bytes) 2048 * 8 + length bytes + len' + 32 ≤ c'
      → Supplies c k.turns
      → Supplies c' k'.turns
      → file_of (sync_recv_file disk' filename' len' k') ≡ Stream.open_out bytes (length bytes)
  sync_file_roundtrip v w start fed le le' s s' =
      let g = sync_send_file_live 0 c v (omega arith) s in
      let wire : k'.incoming ≡ transfer bytes ++ [] =
        fed
        ∙ ap sent_of g.runs
        ∙ ap (λ x. x ++ transfer bytes) start
        ∙ sym (append-nil (transfer bytes)) in
      let h = sync_recv_file_live bytes [] 0 c' w v.small wire (omega arith) s' in ap file_of h.runs
