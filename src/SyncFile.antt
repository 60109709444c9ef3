-- ===== src/SyncFile.antt =====
-- tools/sync_file: the framed transfer of files over a stream socket.
pub mod Effects
pub mod Bytes
pub mod RoundTrip
mod Examples
pub mod File
pub mod Sending
pub mod Receiving
pub mod Frames
pub mod Socket
pub mod Server
pub mod Client
