-- ===== src/Crypto/Ratchet.antt =====
-- internal/crypto/ratchet/ratchet.go: one direction of a Double Ratchet session.
pub mod Laws
use jsync.Base.{
  ℕ, ◌+◌, ◌%◌, ◌^◌, Bool, true, false, Option, none, some, List, [], Bytes, nat_eq, ◌==◌, codes,
  take, drop, if◌then◌else◌,
}
use jsync.Crypto.Primitives.{Primitives}

pub data RatchetError : Type 0 where
  dh_failed kdf_rk_failed kdf_ck_failed cipher_failed : RatchetError
  -- sequence number given and wanted
  out_of_order : ℕ → ℕ → RatchetError
  decrypt_failed : ℕ → RatchetError

pub data Result (A : Type 0) : Type 0 where
  ok : A → Result A
  err : RatchetError → Result A

infixl 5 ◌>>=◌
abbrev pub ◌>>=◌ : {A B : Type 0} → Result A → (A → Result B) → Result B
ok a >>= f = f a
err e >>= f = err e

abbrev pub root_key_size : ℕ
root_key_size = 32

abbrev pub chain_key_size : ℕ
chain_key_size = 32

abbrev pub cipher_key_size : ℕ
cipher_key_size = 32

abbrev pub nonce_size : ℕ
nonce_size = 12

abbrev pub info_root_key : Bytes
info_root_key = codes "DoubleRatchet-RootKey"

abbrev pub info_chain_key : Bytes
info_chain_key = codes "DoubleRatchet-ChainKey"

-- The current chain key, and the next sequence number (a uint32).
pub record Chain : Type 0 where
  pub key : Bytes
  pub n : ℕ

pub record Step : Type 0 where
  pub next_chain_key : Bytes
  pub cipher_key : Bytes
  pub nonce : Bytes

abbrev pub advance : Chain → Step → Chain
advance c step = record { key = step.next_chain_key; n = (c.n + 1) % 2 ^ 32 }

module _ (P : Primitives) where
  unfoldable pub kdf_rk : Bytes → Bytes → Result (Bytes × Bytes)
  kdf_rk root_key dh_output =
      elim (P.hkdf root_key dh_output info_root_key (root_key_size + chain_key_size)) [
        | none ↦ err kdf_rk_failed
        | some out ↦ ok (take root_key_size out, drop root_key_size out)
      ]

  unfoldable pub kdf_ck : Bytes → Result Step
  kdf_ck chain_key =
      elim (P.hkdf chain_key [] info_chain_key (chain_key_size + cipher_key_size + nonce_size)) [
        | none ↦ err kdf_ck_failed
        | some out ↦ ok (record {
          next_chain_key = take chain_key_size out;
          cipher_key = take cipher_key_size (drop chain_key_size out);
          nonce = drop (chain_key_size + cipher_key_size) out;
        })
      ]

  -- The cipher is its key.
  unfoldable pub new_gcm : Bytes → Result Bytes
  new_gcm cipher_key = if P.gcm_accepts cipher_key then ok cipher_key else err cipher_failed

  unfoldable pub init_chain : Bytes → Bytes → Bytes → Result Chain
  init_chain sk dh_priv dh_pub = elim (P.ecdh dh_priv dh_pub) [
    | none ↦ err dh_failed
    | some dh_out ↦ do (_, ck) ← kdf_rk sk dh_out; ok (record { key = ck; n = 0 })
  ]

  unfoldable pub init_sending : Bytes → Bytes → Bytes → Result Chain
  init_sending = init_chain

  unfoldable pub init_receiving : Bytes → Bytes → Bytes → Result Chain
  init_receiving = init_chain

  -- The first calls of `Encrypt` and of `Decrypt`: the step of the chain and its cipher.
  unfoldable pub next_cipher : Chain → Result (Step × Bytes)
  next_cipher c = do step ← kdf_ck c.key; gcm ← new_gcm step.cipher_key; ok (step, gcm)

  -- The chain after the call, and the ciphertext with its sequence number.
  unfoldable pub encrypt : Chain → Bytes → Bytes → Chain × Result (Bytes × ℕ)
  encrypt c plaintext associated_data = elim (next_cipher c) [
    | err e ↦ (c, err e)
    | ok (step, gcm) ↦ (advance c step, ok (P.seal gcm step.nonce plaintext associated_data, c.n))
  ]

  unfoldable pub decrypt : Chain → Bytes → Bytes → ℕ → Chain × Result Bytes
  decrypt c ciphertext associated_data seq =
      if seq == c.n
      then elim (next_cipher c) [
        | err e ↦ (c, err e)
        | ok (step, gcm) ↦ elim (P.unseal gcm step.nonce ciphertext associated_data) [
          | none ↦ (c, err (decrypt_failed seq))
          | some plaintext ↦ (advance c step, ok plaintext)
        ]
      ]
      else (c, err (out_of_order seq c.n))
