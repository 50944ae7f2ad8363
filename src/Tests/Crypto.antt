-- ===== src/Tests/Crypto.antt =====
-- The ratchet and the key agreement on a small store.
use jsync.Base.{
  ℕ, ◌≡◌, refl, ◌≢◌, none, some, List, [], ◌∷◌, Bytes, arith, ◌⊎◌, replicate, codes, nat_eq,
}
use jsync.Base.Dict
use jsync.Tests.Toy.{primitives, primitives-IsLawful}
use jsync.Crypto.Ratchet
use jsync.Crypto.Ratchet.{
  Chain, RatchetError, out_of_order, encrypt, decrypt, init_sending, init_receiving,
}
use jsync.Crypto.Ratchet.Laws.{
  send_all, receive_all, receive_all-send_all, decrypt-strict, decrypt-twice,
}
use jsync.Crypto.X3dh
use jsync.Crypto.X3dh.{
  OneTimePreKey, InitiatorChain, Store, Random, prekey_not_found, consume_otp, bundle,
  derive_initiator_chain, derive_responder_chain,
}
use jsync.Crypto.X3dh.Pool.{IsWellFormed, bundle-IsWellFormed}
use jsync.Crypto.X3dh.Once.{here, next, consume, consume_otp-Reach, consume_otp-bundle}
use jsync.Crypto.X3dh.Agreement.{derive_responder_chain-derive_initiator_chain}

abbrev texts : List Bytes
texts = codes "one" ∷ [] ∷ codes "three" ∷ []

abbrev chain : Chain
chain = record { key = 7 ∷ 8 ∷ []; n = 0 }

receive_all-send_all_example :
    (c' : Chain) × (messages : List (Bytes × ℕ)) × (send_all primitives (codes "ad") texts chain
      ≡ Ratchet.ok (c', messages))
    × (receive_all primitives (codes "ad") messages chain ≡ Ratchet.ok (c', texts))
receive_all-send_all_example =
    receive_all-send_all primitives primitives-IsLawful (codes "ad") texts chain

decrypt-strict_example :
    ((3 ≢ chain.n)
      → decrypt primitives chain (5 ∷ []) [] 3 ≡ (chain, Ratchet.err (out_of_order 3 0)))
    × ((e : RatchetError)
        → (decrypt primitives chain (5 ∷ []) [] 3).1 ≡ Ratchet.err e
        → (decrypt primitives chain (5 ∷ []) [] 3).0 ≡ chain)
    × ((e : RatchetError)
        → (encrypt primitives chain (5 ∷ []) []).1 ≡ Ratchet.err e
        → (encrypt primitives chain (5 ∷ []) []).0 ≡ chain)
decrypt-strict_example = decrypt-strict primitives chain (5 ∷ []) [] 3

decrypts : (decrypt primitives chain (5 ∷ []) [] 0).1 ≡ Ratchet.ok (5 ∷ [])
unfolding decrypt Ratchet.next_cipher Ratchet.kdf_ck Ratchet.new_gcm
decrypts = refl

decrypt-twice_example :
    let c' = (decrypt primitives chain (5 ∷ []) [] 0).0 in
    decrypt primitives c' (5 ∷ []) [] 0 ≡ (c', Ratchet.err (out_of_order 0 c'.n))
decrypt-twice_example = decrypt-twice primitives chain (5 ∷ []) [] (5 ∷ []) 0 (omega arith) decrypts

abbrev pub otp : OneTimePreKey
otp = record { key_id = 1; key_pair = 4 ∷ 4 ∷ [] }

abbrev pub store : Store
store = record {
  identity_pub = 1 ∷ [];
  identity_priv = 1 ∷ [];
  identity_dh_priv = 2 ∷ [];
  signed = record { key_id = 1; key_pair = 3 ∷ []; signature = [] };
  next_otp_id = 2;
  otps = (1, otp) ∷ [];
  pending = [];
}

store-IsWellFormed : IsWellFormed store
unfolding Dict.lookup
store-IsWellFormed = record {
  pool_once = (refl, tt);
  pool_ids = λ k h. ground (arith, nat_eq.beq_iff 1 k);
  pending_ids = λ k h. absurd (h refl);
  apart = λ k h. refl;
  counter = (omega arith, omega arith);
}

abbrev random : Random
random i = some (9 ∷ i ∷ [])

handed_out-IsWellFormed : IsWellFormed (bundle primitives 0 store).0
handed_out-IsWellFormed = bundle-IsWellFormed primitives 0 store store-IsWellFormed

consumed : (consume_otp (bundle primitives 0 store).0 1).1 ≡ X3dh.ok (some (4 ∷ 4 ∷ []))
unfolding consume_otp bundle Dict.lookup X3dh.pick Dict.insert
consumed = refl

consume_otp-Reach_example :
    let s = (consume_otp (bundle primitives 0 store).0 1).0 in
    (consume_otp (consume_otp s 5).0 1).1 ≡ X3dh.err (prekey_not_found 1)
consume_otp-Reach_example =
    consume_otp-Reach primitives (bundle primitives 0 store).0 1 handed_out-IsWellFormed
      (omega arith) consumed (next here (consume 5 refl))

abbrev initiator_chain : InitiatorChain
initiator_chain = record {
  chain = record { key = replicate 32 32; n = 0 };
  ephemeral_pub = 9 ∷ 0 ∷ [];
  used_otp_id = 1;
}

initiated :
    derive_initiator_chain primitives store (bundle primitives 0 store).1 random
    ≡ X3dh.ok initiator_chain
unfolding derive_initiator_chain bundle X3dh.derive_initiator X3dh.pick X3dh.derive_with
    X3dh.verify_signed_prekey X3dh.add_one_time X3dh.derive_sk init_sending Ratchet.init_chain
    Ratchet.kdf_rk
initiated = refl

derive_responder_chain-derive_initiator_chain_example :
    (derive_responder_chain primitives (bundle primitives 0 store).0 (2 ∷ []) (9 ∷ 0 ∷ []) 1).1
    ≡ X3dh.ok initiator_chain.chain
derive_responder_chain-derive_initiator_chain_example =
    derive_responder_chain-derive_initiator_chain primitives primitives-IsLawful 0 store store
      random store-IsWellFormed initiated

consume_otp-bundle_example :
    let (s', b) = bundle primitives 0 store in
    ((s'.otps ≡ [])
      × (b.one_time_prekey ≡ none)
      × (b.one_time_prekey_id ≡ 0)
      × ((consume_otp s' 0) ≡ (s', X3dh.ok none)))
    ⊎ ((key : OneTimePreKey) × (Dict.lookup b.one_time_prekey_id store.otps ≡ some key)
        × (Dict.lookup b.one_time_prekey_id s'.otps ≡ none)
        × (b.one_time_prekey ≡ some key.key_pair)
        × ((consume_otp s' b.one_time_prekey_id).1 ≡ X3dh.ok (some key.key_pair)))
consume_otp-bundle_example = consume_otp-bundle primitives 0 store store-IsWellFormed
