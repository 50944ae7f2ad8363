-- ===== src/Crypto/X3dh/Agreement.antt =====
-- internal/crypto/x3dh/x3dh.go: the two sides of the agreement together.
use jsync.Base.{ℕ, ◌≡◌, refl, Option, none, some, Bytes, nat_eq, arith, Option-cases, inl, inr}
use jsync.Base.Dict
use jsync.Crypto.Primitives.{Primitives, IsLawful}
use jsync.Crypto.Ratchet.{Chain, init_sending, init_receiving}
use jsync.Crypto.Ratchet as Ratchet
use jsync.Crypto.Ratchet.Laws as Laws
use jsync.Crypto.X3dh.{
  Bundle, Store, Random, ok, pick, bundle, consume_otp, >>=-eq-ok, derive_initiator, derive_with,
  add_one_time, Initiated, derive_responder, responder_secret, InitiatorChain,
  derive_initiator_chain, derive_responder_chain, bare_bundle,
}
use jsync.Crypto.X3dh.Pool.{IsWellFormed, lookup-pick}

module _ (P : Primitives) (L : IsLawful P) where
  -- The secret for a known one-time key pair.
  derive_with-secret :
      (a b : Store) (bun : Bundle) (otp : Option Bytes) (random : Random) {i : Initiated}
      → bun.one_time_prekey ≡ (elim otp [ none ↦ none | some priv ↦ some (P.public_key priv) ])
      → derive_with P a bun
          (P.public_key b.identity_dh_priv)
          (P.public_key b.signed.key_pair)
          random
        ≡ ok i
      → responder_secret P b otp (P.public_key a.identity_dh_priv) (P.public_key i.ephemeral_priv)
        ≡ ok i.sk
  unfolding derive_with add_one_time responder_secret
  derive_with-secret a b bun none random {i} e h = ground (
    arith,
    L.ecdh_comm a.identity_dh_priv b.signed.key_pair,
    L.ecdh_comm i.ephemeral_priv b.identity_dh_priv,
    L.ecdh_comm i.ephemeral_priv b.signed.key_pair,
  )
  derive_with-secret a b bun (some priv) random {i} e h = ground (
    arith,
    L.ecdh_comm a.identity_dh_priv b.signed.key_pair,
    L.ecdh_comm i.ephemeral_priv b.identity_dh_priv,
    L.ecdh_comm i.ephemeral_priv b.signed.key_pair,
    L.ecdh_comm i.ephemeral_priv priv,
  )

  derive_with-used :
      (a : Store) (bun : Bundle) (x y : Bytes) (random : Random) {i : Initiated}
      → derive_with P a bun x y random ≡ ok i
      → i.used_otp_id ≡ (elim bun.one_time_prekey [ none ↦ 0 | some _ ↦ bun.one_time_prekey_id ])
  unfolding derive_with add_one_time
  derive_with-used a bun x y random h = ground arith

  -- The responder's side, for a bundle that the store handed out.
  derive_responder-derive_with :
      (order : ℕ) (a b : Store) (random : Random) {i : Initiated}
      → IsWellFormed b
      → let (b', bun) = bundle P order b in
        derive_with P a bun
            (P.public_key b.identity_dh_priv)
            (P.public_key b.signed.key_pair)
            random
          ≡ ok i
        → (derive_responder P b'
            (P.public_key a.identity_dh_priv)
            (P.public_key i.ephemeral_priv)
            i.used_otp_id).1
          ≡ ok i.sk
  unfolding bundle derive_responder
  derive_responder-derive_with order a b random {i} w h = elim (Option-cases (pick order b.otps)) [
    | inl empty ↦
        let h' = rw (empty, bundle) at h in
        let secret = derive_with-secret a b (bare_bundle P b) none random refl h' in
        let used = derive_with-used a (bare_bundle P b) _ _ random h' in
        rw (empty, bundle) (unfold consume_otp in ground arith)
    | inr ((id, otp), found) ↦
        let h' = rw (found, bundle) at h in
        let b' : Store = record b {
          otps = Dict.delete id b.otps;
          pending = Dict.insert id otp b.pending;
        } in
        let bun : Bundle = record (bare_bundle P b) {
          one_time_prekey_id = id;
          one_time_prekey = some (P.public_key otp.key_pair);
        } in
        let secret = derive_with-secret a b' bun (some otp.key_pair) random refl h' in
        let used = derive_with-used a bun _ _ random h' in
        let there = lookup-pick order b.otps {k = id} {otp = otp} w.pool_once found in
        let moved = Dict.lookup-insert_self id otp b.pending in
        let positive = w.pool_ids id in rw (found, bundle) (unfold consume_otp in ground arith)
  ]

  bundle-keys :
      (order : ℕ) (b : Store)
      → let (b', bun) = bundle P order b in
        (b'.signed.key_pair ≡ b.signed.key_pair)
        × (bun.identity_dh_key ≡ some (P.public_key b.identity_dh_priv))
        × (bun.signed_prekey ≡ some (P.public_key b.signed.key_pair))
  unfolding bundle
  bundle-keys order b = (ground arith, ground arith, ground arith)

  derive_initiator_chain-parts :
      (order : ℕ) (a b : Store) (random : Random) {i : InitiatorChain}
      → let bun = (bundle P order b).1 in
        derive_initiator_chain P a bun random ≡ ok i
        → (j : Initiated) × (derive_with P a bun
              (P.public_key b.identity_dh_priv)
              (P.public_key b.signed.key_pair)
              random
            ≡ ok j)
          × (init_sending P j.sk j.ephemeral_priv (P.public_key b.signed.key_pair)
              ≡ Ratchet.ok i.chain)
          × (i.ephemeral_pub ≡ P.public_key j.ephemeral_priv)
          × (i.used_otp_id ≡ j.used_otp_id)
  unfolding derive_initiator_chain derive_initiator
  derive_initiator_chain-parts order a b random {i} h =
      let bun = (bundle P order b).1 in
      let keys = bundle-keys order b in
      let (j, made, h') = >>=-eq-ok (derive_initiator P a bun random) _ h in
      (j, ground arith, ground arith, ground arith, ground arith)

  -- If an initiator derives its sending chain from a bundle of a well-formed store, the store,
  -- told the initiator's identity key, ephemeral key and prekey id, derives the same chain,
  -- with or without a one-time prekey in the bundle.
  pub derive_responder_chain-derive_initiator_chain :
      (order : ℕ) (a b : Store) (random : Random) {i : InitiatorChain}
      → IsWellFormed b
      → derive_initiator_chain P a (bundle P order b).1 random ≡ ok i
      → (derive_responder_chain P
          (bundle P order b).0
          (P.public_key a.identity_dh_priv)
          i.ephemeral_pub
          i.used_otp_id).1
        ≡ ok i.chain
  unfolding derive_responder_chain
  derive_responder_chain-derive_initiator_chain order a b random {i} w h =
      let keys = bundle-keys order b in
      let (j, made, sent, e, u) = derive_initiator_chain-parts order a b random h in
      let secret = derive_responder-derive_with order a b random w made in
      let same = Laws.init_receiving-init_sending P L j.sk j.ephemeral_priv b.signed.key_pair in
      ground arith
