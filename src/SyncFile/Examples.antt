-- ===== src/SyncFile/Examples.antt =====
-- tools/sync_file on small inputs: a three-byte file named "a", over a connection whose calls
-- move four bytes at most.
use algo.Prelude.{
  ℕ, ◌≡◌, refl, Bool, true, none, some, List, [], ◌∷◌, ◌++◌, ◌==◌, if◌then◌else◌, arith, replicate,
}
use algo.SyncFile.Effects.{Turn, ready, again, broken, Conn, undefined, Goes}
use algo.SyncFile.Bytes.{le_bytes, le_value, overlay}
use algo.SyncFile.Socket.{recv_loop, send_loop, recv_socket, send_socket}
use algo.SyncFile.Socket.Laws.{Keeps, recv_loop-Keeps, Forwards, send_loop-Forwards}
use algo.SyncFile.Frames.{recv_buff, send_buff}
use algo.SyncFile.Frames.Laws.{frame, recv_buff-send_buff}
use algo.SyncFile.Frames.Overrun.{recv_buff_overrun}
use algo.SyncFile.File.{Disk, Stream, c_str, init_read, init_write, file_parts}
use algo.SyncFile.Sending.{sync_send_file, send_pieces}
use algo.SyncFile.Sending.Laws.{IsSendable}
use algo.SyncFile.Receiving.{sync_recv_file, recv_pieces, copy_name}
use algo.SyncFile.Receiving.Laws.{IsReceivable}
use algo.SyncFile.Client.{Files, transfers, commands, writers, get_files, get_files_live}
use algo.SyncFile.RoundTrip.{sent_of, file_of, sync_file_roundtrip}

abbrev pub name : List ℕ
name = b'a' ∷ []

abbrev pub content : List ℕ
content = 7 ∷ 8 ∷ 9 ∷ []

abbrev is_name : List ℕ → Bool
is_name (x ∷ []) = x == b'a'
is_name _ = Bool.false

abbrev pub disk : Disk
disk = record { contents = λ p. if is_name p then some content else none; writable = λ p. true }

abbrev pub turns : List Turn
turns = again ∷ replicate 50 (ready 4)

abbrev pub sender : Conn
sender = record { turns = turns; incoming = []; sent = [] }

name-IsSendable : IsSendable disk name 1 content
unfolding c_str overlay
name-IsSendable = record {
  path = name;
  name_fits = omega arith;
  name_ends = refl;
  found = refl;
  small = omega arith;
}

name-IsReceivable : IsReceivable disk name 1
unfolding c_str overlay
name-IsReceivable = record {
  path = copy_name name;
  named = omega arith;
  name_len = omega arith;
  name_fits = omega arith;
  name_ends = refl;
  may_write = refl;
}

abbrev receiver : Conn
receiver = record {
  turns = turns;
  incoming = sent_of (sync_send_file disk name 1 sender);
  sent = [];
}

sync_file_roundtrip_example :
    file_of (sync_recv_file disk name 1 receiver) ≡ Stream.open_out content 3
sync_file_roundtrip_example =
    sync_file_roundtrip 50 50 sender receiver name-IsSendable name-IsReceivable refl refl
      (omega arith) (omega arith) (omega arith) (omega arith)

abbrev long_frame : Conn
long_frame = record { turns = turns; incoming = frame content ++ []; sent = [] }

recv_buff_overrun_example : recv_buff (0 ∷ 0 ∷ []) long_frame ≡ undefined
recv_buff_overrun_example =
    recv_buff_overrun content [] (0 ∷ 0 ∷ []) 50 long_frame refl (omega arith) (omega arith)
      (omega arith) (omega arith)

recv_loop-Keeps_example :
    Keeps
      (ready 1 ∷ again ∷ ready 9 ∷ [])
      content
      2
      (recv_loop (ready 1 ∷ again ∷ ready 9 ∷ []) content 2)
recv_loop-Keeps_example = recv_loop-Keeps (ready 1 ∷ again ∷ ready 9 ∷ []) content 2

send_loop-Forwards_example :
    Forwards (ready 1 ∷ broken ∷ []) content (send_loop (ready 1 ∷ broken ∷ []) content)
send_loop-Forwards_example = send_loop-Forwards (ready 1 ∷ broken ∷ []) content

recv_buff-send_buff_example :
    Goes (send_buff content 3) sender 0 true [] (frame content)
    × Goes (recv_buff (0 ∷ 0 ∷ 0 ∷ 0 ∷ [])) long_frame 0 (3, 7 ∷ 8 ∷ 9 ∷ 0 ∷ []) [] []
unfolding overlay
recv_buff-send_buff_example =
    recv_buff-send_buff 0 0 50 50 sender long_frame content (0 ∷ 0 ∷ 0 ∷ 0 ∷ []) [] 3 (omega arith)
      (omega arith) (omega arith) (omega arith) (omega arith) (omega arith) (omega arith)
      (omega arith) refl

-- The transfer, run.
roundtrip_runs : file_of (sync_recv_file disk name 1 receiver) ≡ Stream.open_out content 3
unfolding sync_recv_file init_write send_buff recv_buff recv_socket send_socket recv_loop send_loop
    recv_pieces file_parts le_bytes le_value overlay c_str sync_send_file init_read send_pieces
roundtrip_runs = refl

-- The file twice over one connection.
abbrev two_files : Files
two_files = (name, content) ∷ (name, content) ∷ []

abbrev long_turns : List Turn
long_turns = replicate 100 (ready 4)

get_files_live_example :
    Goes
      (get_files disk (name ∷ name ∷ []))
      (record { turns = long_turns; incoming = transfers two_files ++ []; sent = [] })
      0
      (writers two_files)
      []
      (commands two_files)
get_files_live_example =
    get_files_live disk two_files [] 0 100
      (name-IsReceivable, omega arith, (name-IsReceivable, omega arith, tt)) refl (omega arith)
      (omega arith)
