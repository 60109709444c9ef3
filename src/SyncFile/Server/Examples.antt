-- ===== src/SyncFile/Server/Examples.antt =====
-- The server of tools/sync_file/epoll_socket/server.cpp on a small run: a client at descriptor 5
-- asks for the file "a".
use algo.Prelude.{◌≡◌, refl, inr, arith, true, none, some, List, [], ◌∷◌, ◌++◌}
use algo.SyncFile.Effects.{Turn, ready, Conn, done, undefined}
use algo.SyncFile.Bytes.{overlay}
use algo.SyncFile.Frames.Laws.{frame}
use algo.SyncFile.File.{c_str}
use algo.SyncFile.Sending.Laws.{IsSendable, transfer}
use algo.SyncFile.Examples.{disk, name, content, turns}
use algo.SyncFile.Server.{
  ServerImpl, Reported, init_server, accept_client, begin_pass, end_pass, handle_pass, run_task,
  with_conn,
}
use algo.SyncFile.Server.Serving.{IsServing, Passes, handle_pass-Passes}
use algo.SyncFile.Server.Answers.{command_buffer, HasCommand, IsLate, command_lem}
use algo.ThreadPool.{add_thread}
use algo.ThreadPool.Operations.{requests}
use algo.ThreadPool.Runs.{reachable-Refines, next, start, grow}

-- A client that has sent its command.
abbrev client : Conn
client = record { turns = turns; incoming = frame name ++ []; sent = [] }

abbrev server : ServerImpl
unfolding init_server accept_client add_thread
server = accept_client (init_server 3 4) (some (5, client))

server-IsServing : IsServing server
unfolding init_server accept_client add_thread
server-IsServing = record {
  pool_valid = (reachable-Refines (next (grow 4) start)).valid;
  running = refl;
  watched = tt;
}

abbrev asks : Reported
asks = record { fd = 5; readable = true; accepted = none }

handle_pass-Passes_example : Passes server 5 (handle_pass server 100 asks)
unfolding init_server accept_client add_thread
handle_pass-Passes_example = handle_pass-Passes server 100 asks server-IsServing tt (inr refl)

buffer-IsSendable : IsSendable disk (command_buffer name) 1 content
unfolding c_str overlay
buffer-IsSendable = record {
  path = name;
  name_fits = omega arith;
  name_ends = refl;
  found = refl;
  small = omega arith;
}

client-HasCommand : HasCommand server 5 client name [] 35 50
unfolding init_server accept_client add_thread
client-HasCommand = record {
  client = refl;
  watched = refl;
  conn = refl;
  sent = refl;
  some_name = omega arith;
  short = omega arith;
  live = omega arith;
  enough = omega arith;
}

-- In the next pass a client connects.
abbrev connects : Reported
connects = record { fd = 3; readable = true; accepted = some (6, client) }

command_lem_example :
    (s' : ServerImpl) × (ts : List Turn) × (begin_pass server 100 asks ≡ done s')
    × (requests s'.pool.tasks ≡ (5, 0) ∷ [])
    × (run_task disk s' 0
        ≡ done (
          (true, record { index = 1; sum = 3 }),
          with_conn s' 5 (some (record { turns = ts; incoming = []; sent = transfer content })),
        ))
    × (run_task disk (end_pass s') 0 ≡ undefined)
    × IsLate disk 0 (begin_pass (end_pass s') 200 connects)
unfolding init_server accept_client add_thread
command_lem_example =
    command_lem server 100 5 client name [] 35 50 server-IsServing tt client-HasCommand 200 connects
      buffer-IsSendable (omega arith)

-- A client whose peer has closed the connection.
abbrev quiet_client : Conn
quiet_client = record { turns = ready 0 ∷ ready 0 ∷ []; incoming = []; sent = [] }

abbrev left_server : ServerImpl
unfolding init_server accept_client add_thread
left_server = accept_client (init_server 3 4) (some (5, quiet_client))

abbrev is_gone : Reported
is_gone = record { fd = 5; readable = true; accepted = none }
