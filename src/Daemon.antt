-- ===== src/Daemon.antt =====
-- internal/daemon: the registry of interrupted transfers, and the receiving side of one.
pub mod Resume
pub mod Receiver
