-- ===== src/Daemon.antt =====
-- internal/daemon/protocol.go: the frames between the command line and the daemon, one connection of
-- the server, and the client's call. encoding/json is a parameter; a connection is what its two ends
-- write, as bytes.
pub mod Frames
pub mod Session
