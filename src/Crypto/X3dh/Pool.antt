-- ===== src/Crypto/X3dh/Pool.antt =====
-- internal/crypto/x3dh/store.go: the well-formed pool of one-time prekeys.
use jsync.Base.{
  ℕ, zero, suc, ◌+◌, ◌%◌, ◌^◌, ◌<◌, ◌≤◌, ◌≡◌, ◌≢◌, ◌⊎◌, inl, inr, none, some, List, [], ◌∷◌, Bytes,
  nat_eq, ◌==◌, ==-refl, arith, Option-cases, Bool-cases,
}
use jsync.Base.Dict
use jsync.Base.Dict.{Dict}
use jsync.Crypto.Primitives.{Primitives}
use jsync.Crypto.X3dh.{
  OneTimePreKey, Store, Random, ok, generate_one_time_prekeys, add_otps, replenish_otps, pick,
  bundle, consume_otp, of_option, >>=-eq-ok,
}

-- The ids of the pool and of the handed-out keys are positive, below the counter, and apart.
pub record IsWellFormed (s : Store) : Type 0 where
  pub pool_once : Dict.NodupKeys s.otps
  pub pool_ids : (k : ℕ) → Dict.lookup k s.otps ≢ none → (0 < k) × (k < s.next_otp_id)
  pub pending_ids : (k : ℕ) → Dict.lookup k s.pending ≢ none → (0 < k) × (k < s.next_otp_id)
  pub apart : (k : ℕ) → Dict.lookup k s.otps ≢ none → Dict.lookup k s.pending ≡ none
  pub counter : (0 < s.next_otp_id) × (s.next_otp_id < 2 ^ 32)

pub lookup-pick :
    (i : ℕ) (otps : Dict ℕ OneTimePreKey) {k : ℕ} {otp : OneTimePreKey}
    → Dict.NodupKeys otps
    → pick i otps ≡ some (k, otp)
    → Dict.lookup k otps ≡ some otp
unfolding pick
lookup-pick i [] u h = cc
lookup-pick zero ((j, v) ∷ otps) {k} {otp} u h =
    ground (arith, Dict.lookup-cons k j v otps, ==-refl k)
lookup-pick (suc i) ((j, v) ∷ otps) {k} {otp} u h = elim (Option-cases (pick i otps)) [
  | inl missing ↦ ground (arith, Dict.lookup-cons k j v otps, ==-refl k)
  | inr ((k', otp'), found) ↦
      let deep = lookup-pick i otps {k = k'} {otp = otp'} u.1 found in
      ground (arith, Dict.lookup-cons k j v otps, nat_eq.beq_iff j k)
]

-- Handing out a bundle keeps the pool well-formed, whichever prekey the map yields.
pub bundle-IsWellFormed :
    (P : Primitives) (order : ℕ) (s : Store) → IsWellFormed s → IsWellFormed (bundle P order s).0
unfolding bundle
bundle-IsWellFormed P order s w = elim (Option-cases (pick order s.otps)) [
  | inl empty ↦ rw (empty, bundle) w
  | inr ((id, otp), found) ↦
      let here = lookup-pick order s.otps {k = id} {otp = otp} w.pool_once found in
      rw (found, bundle)
        (record {
          pool_once = Dict.delete-NodupKeys id s.otps w.pool_once;
          pool_ids = λ k. ground (arith, Dict.lookup-delete id k s.otps, w.pool_ids k);
          pending_ids = λ k. ground (
            arith,
            Dict.lookup-insert id k otp s.pending,
            w.pending_ids k,
            w.pool_ids k,
            nat_eq.beq_iff id k,
          );
          apart = λ k. ground (
            arith,
            Dict.lookup-insert id k otp s.pending,
            Dict.lookup-delete id k s.otps,
            w.apart k,
          );
          counter = w.counter;
        })
]

-- Consuming a prekey keeps the pool well-formed, whether or not the id is known.
pub consume_otp-IsWellFormed :
    (s : Store) (id : ℕ) → IsWellFormed s → IsWellFormed (consume_otp s id).0
unfolding consume_otp
consume_otp-IsWellFormed s id w = elim (Option-cases (Dict.lookup id s.pending)) [
  | inl missing ↦ ground (arith, w)
  | inr (otp, found) ↦
      let dropped = λ (k : ℕ). Dict.lookup-delete id k s.pending in
      let w' : IsWellFormed (record s { pending = Dict.delete id s.pending }) = record {
        pool_once = w.pool_once;
        pool_ids = w.pool_ids;
        pending_ids = λ k. ground (arith, dropped k, w.pending_ids k);
        apart = λ k. ground (arith, dropped k, w.apart k);
        counter = w.counter;
      } in
      elim (Bool-cases (id == 0)) [
        | inl none_used ↦ rw (none_used, consume_otp) w
        | inr used ↦ rw (used, found, consume_otp) w'
      ]
]

abbrev made_key : ℕ → ℕ → Bytes → OneTimePreKey
made_key start i kp = record { key_id = (start + i) % 2 ^ 32; key_pair = kp }

generate-suc :
    (rest i start : ℕ) (random : Random) {made : List OneTimePreKey}
    → generate_one_time_prekeys (suc rest) i start random ≡ ok made
    → (kp : Bytes) × (more : List OneTimePreKey) × (generate_one_time_prekeys rest
          (i + 1)
          start
          random
        ≡ ok more)
      × (made ≡ made_key start i kp ∷ more)
unfolding generate_one_time_prekeys
generate-suc rest i start random h =
    let (kp, _, h') = >>=-eq-ok (of_option _ (random i)) _ h in
    let (more, rec, e) = >>=-eq-ok (generate_one_time_prekeys rest (i + 1) start random) _ h' in
    (kp, more, rec, cc)

-- Keys that are generated have fresh ids: they start at the counter and end below the new one.
pub lookup-add_otps :
    (rest i start : ℕ) (random : Random) (otps : Dict ℕ OneTimePreKey) (k : ℕ)
    (made : List OneTimePreKey)
    → generate_one_time_prekeys rest i start random ≡ ok made
    → start + i + rest < 2 ^ 32
    → Dict.NodupKeys otps
    → Dict.NodupKeys (add_otps made otps)
      × (Dict.lookup k (add_otps made otps) ≢ none
          → (Dict.lookup k otps ≢ none) ⊎ ((start + i ≤ k) × (k < start + i + rest)))
unfolding add_otps
lookup-add_otps zero i start random otps k made h small u =
    unfold generate_one_time_prekeys in ground arith
lookup-add_otps (suc rest) i start random otps k made h small u =
    let (kp, more, made_more, e) = generate-suc rest i start random h in
    let id = (start + i) % 2 ^ 32 in
    let key = made_key start i kp in
    let (u', later) =
      lookup-add_otps rest (i + 1) start random (Dict.insert id key otps) k more made_more
        (omega arith) (Dict.insert-NodupKeys id key otps u) in
    rw e (u', λ m. ground (arith, later m, Dict.lookup-insert id k key otps, nat_eq.beq_iff id k))

pub replenish_otps-made :
    (count : ℕ) (random : Random) (s : Store) {t : Store}
    → replenish_otps count random s ≡ ok t
    → (made : List OneTimePreKey) × (generate_one_time_prekeys count 0 s.next_otp_id random
        ≡ ok made)
      × (t ≡ record s {
        otps = add_otps made s.otps;
        next_otp_id = (s.next_otp_id + count) % 2 ^ 32;
      })
unfolding replenish_otps
replenish_otps-made count random s h =
    let (made, done, e) = >>=-eq-ok (generate_one_time_prekeys count 0 s.next_otp_id random) _ h in
    (made, done, cc)

-- A replenishment keeps the pool well-formed as long as the 32-bit counter does not wrap.
pub replenish_otps-IsWellFormed :
    (count : ℕ) (random : Random) (s t : Store)
    → IsWellFormed s
    → s.next_otp_id + count < 2 ^ 32
    → replenish_otps count random s ≡ ok t
    → IsWellFormed t
replenish_otps-IsWellFormed count random s t w small h =
    let (made, done, e) = replenish_otps-made count random s h in
    let added = λ (k : ℕ).
      lookup-add_otps count 0 s.next_otp_id random s.otps k made done (omega arith) w.pool_once in
    rw e (record {
      pool_once = (added 0).0;
      pool_ids = λ k. ground (arith, (added k).1, w.pool_ids k, w.counter);
      pending_ids = λ k. ground (arith, w.pending_ids k);
      apart = λ k. ground (arith, (added k).1, w.apart k, w.pending_ids k);
      counter = omega (arith, w.counter);
    })
