-- ===== src/Crypto.antt =====
-- internal/crypto: the Double Ratchet chain and X3DH, over the primitives of Go's crypto packages
-- and golang.org/x/crypto/hkdf, which are a parameter.
pub mod Primitives
pub mod Ratchet
pub mod X3dh
