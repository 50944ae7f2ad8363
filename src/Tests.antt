-- ===== src/Tests.antt =====
-- Concrete runs of the models, on instances of the interfaces that compute.
pub mod Toy
pub mod Crypto
pub mod Sync
pub mod Handshake
pub mod Daemon
pub mod Watch
pub mod Progress
pub mod Yamledit
pub mod Auditlog
pub mod Pipeline
pub mod Extract
pub mod Archive
pub mod Identity
pub mod Scan
