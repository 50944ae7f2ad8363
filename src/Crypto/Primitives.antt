-- ===== src/Crypto/Primitives.antt =====
-- The cryptographic functions that the program calls and does not implement, and what their
-- documentation promises.
use jsync.Base.{ℕ, ◌≤◌, ◌≡◌, Bool, true, Option, some, Bytes, length}

pub record Primitives : Type 0 where
  -- `hkdf.New(sha256.New, secret, salt, info)`, read to its first `size` bytes
  pub hkdf : Bytes → Bytes → Bytes → ℕ → Option Bytes
  -- `aes.NewCipher` and `cipher.NewGCM` accept this key
  pub gcm_accepts : Bytes → Bool
  -- `Seal` and `Open` of AES-GCM: key, nonce, text, associated data
  pub seal : Bytes → Bytes → Bytes → Bytes → Bytes
  pub unseal : Bytes → Bytes → Bytes → Bytes → Option Bytes
  -- X25519: the public half of a private key, the shared secret, and the parsing of a public key
  pub public_key : Bytes → Bytes
  pub ecdh : Bytes → Bytes → Option Bytes
  pub new_public_key : Bytes → Option Bytes
  -- Ed25519: the public half of a private key, a signature, and its check under a public key
  pub verifying_key : Bytes → Bytes
  pub sign : Bytes → Bytes → Bytes
  pub verify : Bytes → Bytes → Bytes → Bool

pub record IsLawful (P : Primitives) : Type 0 where
  -- HKDF-SHA256 gives up to 255 blocks of 32 bytes
  pub hkdf_total :
      (secret salt info : Bytes) (size : ℕ)
      → size ≤ 8160
      → (out : Bytes) × (P.hkdf secret salt info size ≡ some out) × (length out ≡ size)
  -- AES-256 takes keys of 32 bytes
  pub gcm_accepts_32 : (key : Bytes) → length key ≡ 32 → P.gcm_accepts key ≡ true
  -- what was sealed opens under the same key, nonce and associated data
  pub unseal-seal :
      (key nonce text ad : Bytes) → P.unseal key nonce (P.seal key nonce text ad) ad ≡ some text
  -- both ends of a Diffie-Hellman exchange compute one secret
  pub ecdh_comm : (a b : Bytes) → P.ecdh a (P.public_key b) ≡ P.ecdh b (P.public_key a)
  -- a signature is valid under the public half of the key that made it
  pub verify-sign :
      (priv text : Bytes) → P.verify (P.verifying_key priv) text (P.sign priv text) ≡ true
