-- ===== src/SyncFile/Server/Reuse.antt =====
-- A descriptor of ServerImpl (tools/sync_file/epoll_socket/server.cpp) that is closed and then given
-- to a new client.
