-- ===== src/Syncfs.antt =====
-- internal/syncfs: the live synchronisation of two watched directories.
pub mod Version
pub mod Echo
pub mod Disk
pub mod Event
pub mod Bridge
pub mod Reconcile
pub mod Session
