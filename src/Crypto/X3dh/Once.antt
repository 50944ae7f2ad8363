-- ===== src/Crypto/X3dh/Once.antt =====
-- internal/crypto/x3dh/store.go: the pool of one-time prekeys over any sequence of operations.
use jsync.Base.{
  ℕ, zero, suc, ◌+◌, ◌^◌, Bytes, [], ◌∷◌, ◌⊎◌, ◌<◌, ◌≡◌, refl, Option, none, some, nat_eq, arith,
  Option-cases, inl, inr,
}
use jsync.Base.Dict
use jsync.Base.Dict.{Dict}
use jsync.Crypto.Primitives.{Primitives}
use jsync.Crypto.X3dh.{
  OneTimePreKey, Store, Random, ok, err, prekey_not_found, replenish_otps, pick, bundle,
  consume_otp, >>=-eq-ok, rotate_signed_prekey, generate_signed_prekey,
}
use jsync.Crypto.X3dh.Pool.{
  IsWellFormed, lookup-pick, bundle-IsWellFormed, consume_otp-IsWellFormed, lookup-add_otps,
  replenish_otps-made, replenish_otps-IsWellFormed,
}

-- What the store does with its prekeys between two moments.
pub data Step (P : Primitives) (s : Store) : Store → Type 0 where
  replenish :
      (count : ℕ) (random : Random) {t : Store}
      → s.next_otp_id + count < 2 ^ 32
      → replenish_otps count random s ≡ ok t
      → Step P s t
  rotate : (random : Random) {t : Store} → rotate_signed_prekey P random s ≡ ok t → Step P s t
  hand_out : (order : ℕ) {t : Store} → t ≡ (bundle P order s).0 → Step P s t
  consume : (id : ℕ) {t : Store} → t ≡ (consume_otp s id).0 → Step P s t

pub data Reach (P : Primitives) (s : Store) : Store → Type 0 where
  here : Reach P s s
  next : {t u : Store} → Reach P s t → Step P t u → Reach P s u

-- A prekey that was consumed: in neither map, and with an id that is not given again.
pub record Spent (id : ℕ) (s : Store) : Type 0 where
  pub not_in_pool : Dict.lookup id s.otps ≡ none
  pub not_pending : Dict.lookup id s.pending ≡ none
  pub issued : (0 < id) × (id < s.next_otp_id)

rotate-same :
    (P : Primitives) (random : Random) (s : Store) {t : Store}
    → rotate_signed_prekey P random s ≡ ok t
    → (t.otps ≡ s.otps) × (t.pending ≡ s.pending) × (t.next_otp_id ≡ s.next_otp_id)
unfolding rotate_signed_prekey
rotate-same P random s h =
    let (signed, _, e) = >>=-eq-ok (generate_signed_prekey P s.identity_priv _ random) _ h in
    (cc, cc, cc)

Step-IsWellFormed : (P : Primitives) {s t : Store} → Step P s t → IsWellFormed s → IsWellFormed t
Step-IsWellFormed P {s} {t} (replenish count random small h) w =
    replenish_otps-IsWellFormed count random s t w small h
Step-IsWellFormed P {s} (rotate random h) w =
    let (a, b, c) = rotate-same P random s h in
    record {
      pool_once = rw a w.pool_once;
      pool_ids = rw (a, c) w.pool_ids;
      pending_ids = rw (b, c) w.pending_ids;
      apart = rw (a, b) w.apart;
      counter = rw c w.counter;
    }
Step-IsWellFormed P {s} (hand_out order e) w = rw e (bundle-IsWellFormed P order s w)
Step-IsWellFormed P {s} (consume id e) w = rw e (consume_otp-IsWellFormed s id w)

bundle-Spent :
    (P : Primitives) (id order : ℕ) (s : Store)
    → IsWellFormed s
    → Spent id s
    → Spent id (bundle P order s).0
unfolding bundle
bundle-Spent P id order s w p = elim (Option-cases (pick order s.otps)) [
  | inl empty ↦ rw (empty, bundle) p
  | inr ((k, otp), found) ↦
      let there = lookup-pick order s.otps {k = k} {otp = otp} w.pool_once found in
      let dropped = Dict.lookup-delete k id s.otps in
      let moved = Dict.lookup-insert k id otp s.pending in
      let same = nat_eq.beq_iff k id in
      rw (found, bundle)
        (record { not_in_pool = ground arith; not_pending = ground arith; issued = p.issued })
]

consume_otp-Spent : (id k : ℕ) (s : Store) → Spent id s → Spent id (consume_otp s k).0
unfolding consume_otp
consume_otp-Spent id k s p =
    let dropped = Dict.lookup-delete k id s.pending in
    record { not_in_pool = ground arith; not_pending = ground arith; issued = ground arith }

Step-Spent :
    (P : Primitives) (id : ℕ) {s t : Store} → Step P s t → IsWellFormed s → Spent id s → Spent id t
Step-Spent P id {s} {t} (replenish count random small h) w p =
    let (made, done, e) = replenish_otps-made count random s h in
    let added =
      (lookup-add_otps count 0 s.next_otp_id random s.otps id made done (omega arith)
        w.pool_once).1 in
    rw e (record {
      not_in_pool = ground arith;
      not_pending = p.not_pending;
      issued = omega (arith, p.issued);
    })
Step-Spent P id {s} {t} (rotate random h) w p =
    let (a, b, c) = rotate-same P random s h in
    record {
      not_in_pool = rw a p.not_in_pool;
      not_pending = rw b p.not_pending;
      issued = rw c p.issued;
    }
Step-Spent P id {s} (hand_out order e) w p = rw e (bundle-Spent P id order s w p)
Step-Spent P id {s} (consume id' e) w p = rw e (consume_otp-Spent id id' s p)

Reach-Spent :
    (P : Primitives) (id : ℕ) {s t : Store}
    → Reach P s t
    → IsWellFormed s
    → Spent id s
    → IsWellFormed t × Spent id t
Reach-Spent P id here w p = (w, p)
Reach-Spent P id (next r step) w p =
    let (w', p') = Reach-Spent P id r w p in
    (Step-IsWellFormed P step w', Step-Spent P id step w' p')

consume_otp-cases :
    (s : Store) (id : ℕ) {key : Option Bytes}
    → (consume_otp s id).1 ≡ ok key
    → 0 < id
    → (otp : OneTimePreKey) × (Dict.lookup id s.pending ≡ some otp)
      × ((consume_otp s id).0 ≡ record s { pending = Dict.delete id s.pending })
unfolding consume_otp
consume_otp-cases s id h pos = elim (Option-cases (Dict.lookup id s.pending)) [
  | inl missing ↦ absurd (ground arith)
  | inr (otp, found) ↦ (otp, found, ground arith)
]

-- A one-time prekey that was consumed is refused ever after: whatever the store does next
-- (replenish without a wrap of the counter, rotate, hand out, consume), a second use of its id
-- fails with "not found".
pub consume_otp-Reach :
    (P : Primitives) (s : Store) (id : ℕ) {t : Store} {key : Option Bytes}
    → IsWellFormed s
    → 0 < id
    → (consume_otp s id).1 ≡ ok key
    → Reach P (consume_otp s id).0 t
    → (consume_otp t id).1 ≡ err (prekey_not_found id)
consume_otp-Reach P s id {t} w pos h r =
    let (otp, found, e) = consume_otp-cases s id h pos in
    let spent : Spent id (consume_otp s id).0 = rw e (record {
      not_in_pool = ground (arith, w.apart id);
      not_pending = Dict.lookup-delete_self id s.pending;
      issued = ground (arith, w.pending_ids id);
    }) in
    let (_, p) = Reach-Spent P id r (consume_otp-IsWellFormed s id w) spent in
    unfold consume_otp in ground arith

pick-none : (i : ℕ) (otps : Dict ℕ OneTimePreKey) → pick i otps ≡ none → otps ≡ []
unfolding pick
pick-none i [] h = refl
pick-none zero (e ∷ otps) h = cc
pick-none (suc i) (e ∷ otps) h = absurd (ground arith)

-- A bundle with a one-time prekey takes it out of the pool, and the responder that is told its
-- id finds its key pair; a bundle without one says id zero, for which nothing is consumed.
pub consume_otp-bundle :
    (P : Primitives) (order : ℕ) (s : Store)
    → IsWellFormed s
    → let (s', b) = bundle P order s in
      ((s'.otps ≡ [])
        × (b.one_time_prekey ≡ none)
        × (b.one_time_prekey_id ≡ 0)
        × ((consume_otp s' 0) ≡ (s', ok none)))
      ⊎ ((otp : OneTimePreKey) × (Dict.lookup b.one_time_prekey_id s.otps ≡ some otp)
          × (Dict.lookup b.one_time_prekey_id s'.otps ≡ none)
          × (b.one_time_prekey ≡ some (P.public_key otp.key_pair))
          × ((consume_otp s' b.one_time_prekey_id).1 ≡ ok (some otp.key_pair)))
unfolding bundle
consume_otp-bundle P order s w = elim (Option-cases (pick order s.otps)) [
  | inl empty ↦
      rw (empty, bundle)
        (inl (pick-none order s.otps empty, refl, refl, unfold consume_otp in refl))
  | inr ((id, otp), found) ↦
      let there = lookup-pick order s.otps {k = id} {otp = otp} w.pool_once found in
      let gone = Dict.lookup-delete_self id s.otps in
      let moved = Dict.lookup-insert_self id otp s.pending in
      let positive = w.pool_ids id in
      rw (found, bundle) (inr (otp, there, gone, refl, unfold consume_otp in ground arith))
]
