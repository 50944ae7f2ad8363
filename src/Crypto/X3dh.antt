-- ===== src/Crypto/X3dh.antt =====
-- internal/crypto/x3dh: prekeys.go, store.go and x3dh.go. A key pair is its private half.
pub mod Pool
pub mod Once
pub mod Agreement
use jsync.Base.{
  ℕ, zero, suc, ◌≡◌, refl, ◌+◌, ◌%◌, ◌^◌, Bool, true, false, not, Option, none, some, List, [], ◌∷◌,
  ◌++◌, Bytes, nat_eq, ◌==◌, codes, length, replicate, if◌then◌else◌,
}
use jsync.Base.Dict
use jsync.Base.Dict.{Dict}
use jsync.Crypto.Primitives.{Primitives}
use jsync.Crypto.Ratchet.{Chain, init_sending, init_receiving}
use jsync.Crypto.Ratchet as Ratchet

pub data X3dhError : Type 0 where
  generate_failed bundle_incomplete bundle_not_signed dh_failed derive_sk_failed : X3dhError
  prekey_not_found : ℕ → X3dhError
  ratchet_failed : Ratchet.RatchetError → X3dhError

pub data Result (A : Type 0) : Type 0 where
  err : X3dhError → Result A
  ok : A → Result A

infixl 5 ◌>>=◌
abbrev pub ◌>>=◌ : {A B : Type 0} → Result A → (A → Result B) → Result B
err e >>= next = err e
ok x >>= next = next x

-- A chain of steps that succeeded had a first step that did.
pub >>=-eq-ok :
    {A B : Type 0} (first : Result A) (next : A → Result B) {y : B}
    → (first >>= next) ≡ ok y
    → (x : A) × (first ≡ ok x) × (next x ≡ ok y)
>>=-eq-ok (err e) next h = cc
>>=-eq-ok (ok x) next h = (x, refl, h)

pub record SignedPreKey : Type 0 where
  pub key_id : ℕ
  pub key_pair : Bytes
  pub signature : Bytes

pub record OneTimePreKey : Type 0 where
  pub key_id : ℕ
  pub key_pair : Bytes

-- The pointers of Go are options.
pub record Bundle : Type 0 where
  pub identity_key : Bytes
  pub identity_dh_key : Option Bytes
  pub signed_prekey_id : ℕ
  pub signed_prekey : Option Bytes
  pub signed_prekey_signature : Bytes
  pub one_time_prekey_id : ℕ
  pub one_time_prekey : Option Bytes

pub record Store : Type 0 where
  pub identity_pub : Bytes
  pub identity_priv : Bytes
  pub identity_dh_priv : Bytes
  pub signed : SignedPreKey
  pub next_otp_id : ℕ
  pub otps : Dict ℕ OneTimePreKey
  pub pending : Dict ℕ OneTimePreKey

-- Random keys: the result of the i-th `GenerateKey` of a call.
abbrev pub Random : Type 0
Random = ℕ → Option Bytes

abbrev pub of_option : {A : Type 0} → X3dhError → Option A → Result A
of_option e none = err e
of_option e (some a) = ok a

-- The loop of `GenerateOneTimePreKeys`, from round `i`, with the rounds that are left.
unfoldable pub generate_one_time_prekeys : ℕ → ℕ → ℕ → Random → Result (List OneTimePreKey)
generate_one_time_prekeys zero i start_id random = ok []
generate_one_time_prekeys (suc rest) i start_id random = do
  kp ← of_option generate_failed (random i)
  more ← generate_one_time_prekeys rest (i + 1) start_id random
  ok (record { key_id = (start_id + i) % 2 ^ 32; key_pair = kp } ∷ more)

unfoldable pub add_otps : List OneTimePreKey → Dict ℕ OneTimePreKey → Dict ℕ OneTimePreKey
add_otps [] otps = otps
add_otps (otp ∷ more) otps = add_otps more (Dict.insert otp.key_id otp otps)

-- `ReplenishOneTimePreKeys`, and `replenishOTPsLocked` below it. An error leaves the store alone.
unfoldable pub replenish_otps : ℕ → Random → Store → Result Store
replenish_otps count random s = do
  otps ← generate_one_time_prekeys count 0 s.next_otp_id random
  ok (record s { otps = add_otps otps s.otps; next_otp_id = (s.next_otp_id + count) % 2 ^ 32 })

-- The entry at a position, as the loop over a map starts where it likes.
unfoldable pub pick : ℕ → Dict ℕ OneTimePreKey → Option (ℕ × OneTimePreKey)
pick i [] = none
pick zero (e ∷ otps) = some e
pick (suc i) (e ∷ otps) = elim (pick i otps) [ none ↦ some e | some e' ↦ some e' ]

-- The locked part of `deriveResponder`: the one-time key pair that the id names is consumed.
unfoldable pub consume_otp : Store → ℕ → Store × Result (Option Bytes)
consume_otp s used_otp_id =
    if used_otp_id == 0 then (s, ok none) else elim (Dict.lookup used_otp_id s.pending) [
      | none ↦ (s, err (prekey_not_found used_otp_id))
      | some otp ↦
          (record s { pending = Dict.delete used_otp_id s.pending }, ok (some otp.key_pair))
    ]

-- What `DeriveInitiator` returns.
pub record Initiated : Type 0 where
  pub sk : Bytes
  pub ephemeral_priv : Bytes
  pub used_otp_id : ℕ

-- What `DeriveInitiatorChain` returns.
pub record InitiatorChain : Type 0 where
  pub chain : Chain
  pub ephemeral_pub : Bytes
  pub used_otp_id : ℕ

module _ (P : Primitives) where
  unfoldable pub generate_signed_prekey : Bytes → ℕ → Random → Result SignedPreKey
  generate_signed_prekey identity_priv key_id random = do
    kp ← of_option generate_failed (random 0)
    ok (record {
      key_id = key_id;
      key_pair = kp;
      signature = P.sign identity_priv (P.public_key kp);
    })

  unfoldable pub verify_signed_prekey : Bytes → Bytes → Bytes → Bool
  verify_signed_prekey identity_pub signed_prekey_pub sig =
      P.verify identity_pub signed_prekey_pub sig

  unfoldable pub rotate_signed_prekey : Random → Store → Result Store
  rotate_signed_prekey random s = do
    next ← generate_signed_prekey s.identity_priv ((s.signed.key_id + 1) % 2 ^ 32) random
    ok (record s { signed = next })

  -- `NewStore`: the identity key pair first, then the signed prekey, then the pool.
  unfoldable pub new_store : Bytes → Bytes → ℕ → Random → Result Store
  new_store identity_pub identity_priv otp_count random = do
    identity_dh_priv ← of_option generate_failed (random 0)
    signed ← generate_signed_prekey identity_priv 1 (λ i. random (i + 1))
    replenish_otps otp_count (λ i. random (i + 2))
        (record {
          identity_pub = identity_pub;
          identity_priv = identity_priv;
          identity_dh_priv = identity_dh_priv;
          signed = signed;
          next_otp_id = 1;
          otps = [];
          pending = [];
        })

  abbrev pub bare_bundle : Store → Bundle
  bare_bundle s = record {
    identity_key = s.identity_pub;
    identity_dh_key = some (P.public_key s.identity_dh_priv);
    signed_prekey_id = s.signed.key_id;
    signed_prekey = some (P.public_key s.signed.key_pair);
    signed_prekey_signature = s.signed.signature;
    one_time_prekey_id = 0;
    one_time_prekey = none;
  }

  -- `Bundle`. The number stands for the order in which the loop finds the map.
  unfoldable pub bundle : ℕ → Store → Store × Bundle
  bundle order s = elim (pick order s.otps) [
    | none ↦ (s, bare_bundle s)
    | some (id, otp) ↦ (
      record s { otps = Dict.delete id s.otps; pending = Dict.insert id otp s.pending },
      record (bare_bundle s) {
        one_time_prekey_id = id;
        one_time_prekey = some (P.public_key otp.key_pair);
      },
    )
  ]

  unfoldable pub remaining_one_time_prekeys : Store → ℕ
  remaining_one_time_prekeys s = length s.otps

  -- The prefix of 0xFF bytes, and a salt of zeros.
  unfoldable pub derive_sk : Bytes → Result Bytes
  derive_sk dh_outputs =
      of_option derive_sk_failed
        (P.hkdf (replicate 32 255 ++ dh_outputs) (replicate 32 0) (codes "X3DH-Signal") 32)

  abbrev pub dh : Bytes → Bytes → Result Bytes
  dh priv pub_key = of_option dh_failed (P.ecdh priv pub_key)

  -- DH4, if the bundle has a one-time prekey: the material, and the id that was used.
  unfoldable pub add_one_time : Bytes → Bundle → Bytes → Result (Bytes × ℕ)
  add_one_time ephemeral_priv b material = elim b.one_time_prekey [
    | none ↦ ok (material, 0)
    | some otp ↦ do dh4 ← dh ephemeral_priv otp; ok (material ++ dh4, b.one_time_prekey_id)
  ]

  unfoldable pub derive_with : Store → Bundle → Bytes → Bytes → Random → Result Initiated
  derive_with s b identity_dh_key signed_prekey random =
      if verify_signed_prekey b.identity_key signed_prekey b.signed_prekey_signature
      then (do
        ephemeral_priv ← of_option generate_failed (random 0)
        dh1 ← dh s.identity_dh_priv signed_prekey
        dh2 ← dh ephemeral_priv identity_dh_key
        dh3 ← dh ephemeral_priv signed_prekey
        (material, used) ← add_one_time ephemeral_priv b (dh1 ++ dh2 ++ dh3)
        sk ← derive_sk material
        ok (record { sk = sk; ephemeral_priv = ephemeral_priv; used_otp_id = used }))
      else err bundle_not_signed

  unfoldable pub derive_initiator : Store → Bundle → Random → Result Initiated
  derive_initiator s b random = elim b.identity_dh_key [
    | none ↦ err bundle_incomplete
    | some identity_dh_key ↦ elim b.signed_prekey [
      | none ↦ err bundle_incomplete
      | some signed_prekey ↦ derive_with s b identity_dh_key signed_prekey random
    ]
  ]

  unfoldable pub responder_secret : Store → Option Bytes → Bytes → Bytes → Result Bytes
  responder_secret s otp_priv initiator_pub ephemeral_pub = do
    dh1 ← dh s.signed.key_pair initiator_pub
    dh2 ← dh s.identity_dh_priv ephemeral_pub
    dh3 ← dh s.signed.key_pair ephemeral_pub
    material ← elim otp_priv [
      | none ↦ ok (dh1 ++ dh2 ++ dh3)
      | some priv ↦ do dh4 ← dh priv ephemeral_pub; ok ((dh1 ++ dh2 ++ dh3) ++ dh4)
    ]
    derive_sk material

  -- `deriveResponder` without the signed prekey that it also returns, which is `s.signed.key_pair`.
  unfoldable pub derive_responder : Store → Bytes → Bytes → ℕ → Store × Result Bytes
  derive_responder s initiator_pub ephemeral_pub used_otp_id =
      let (s', consumed) = consume_otp s used_otp_id in
      (s', do otp_priv ← consumed; responder_secret s otp_priv initiator_pub ephemeral_pub)

  abbrev pub of_ratchet : {A : Type 0} → Ratchet.Result A → Result A
  of_ratchet (Ratchet.ok a) = ok a
  of_ratchet (Ratchet.err e) = err (ratchet_failed e)

  unfoldable pub derive_initiator_chain : Store → Bundle → Random → Result InitiatorChain
  derive_initiator_chain s b random = do
    i ← derive_initiator s b random
    signed ← of_option bundle_incomplete b.signed_prekey
    chain ← of_ratchet (init_sending P i.sk i.ephemeral_priv signed)
    ok (record {
      chain = chain;
      ephemeral_pub = P.public_key i.ephemeral_priv;
      used_otp_id = i.used_otp_id;
    })

  unfoldable pub derive_responder_chain : Store → Bytes → Bytes → ℕ → Store × Result Chain
  derive_responder_chain s initiator_pub ephemeral_pub used_otp_id =
      let (s', secret) = derive_responder s initiator_pub ephemeral_pub used_otp_id in
      (s', do sk ← secret; of_ratchet (init_receiving P sk s.signed.key_pair ephemeral_pub))

  -- The chain and the secret, from which the caller makes its own sending chain.
  unfoldable pub derive_responder_chains :
      Store → Bytes → Bytes → ℕ → Store × Result (Bytes × Chain)
  derive_responder_chains s initiator_pub ephemeral_pub used_otp_id =
      let (s', secret) = derive_responder s initiator_pub ephemeral_pub used_otp_id in
      (
        s',
        do
          sk ← secret
          inbound ← of_ratchet (init_receiving P sk s.signed.key_pair ephemeral_pub)
          ok (sk, inbound),
      )

-- `AssociatedData`: the initiator's identity key first.
unfoldable pub associated_data : Bytes → Bytes → Bytes
associated_data initiator_identity_key responder_identity_key =
    initiator_identity_key ++ responder_identity_key
