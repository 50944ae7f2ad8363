-- ===== src/Identity.antt =====
-- internal/identity: the keys that a node trusts.
pub mod Authorized
