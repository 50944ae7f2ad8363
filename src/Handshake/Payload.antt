-- ===== src/Handshake/Payload.antt =====
-- internal/handshake/protocol.go: the fields of a request and its signed bytes.
use mathlib.Core.List.{append_assoc}
use jsync.Base.{
  ℕ, ◌/◌, ◌%◌, ◌^◌, ◌<◌, ◌≡◌, refl, sym, ◌∙◌, Bool, true, false, List, [], ◌∷◌, ◌++◌, Bytes, length,
  arith,
}
use jsync.Handshake.{Request, be32, be64, direction_code, flag_byte, prefixed, signed_payload}

cons-parts : {A : Type 0} {x y : A} {xs ys : List A} → x ∷ xs ≡ y ∷ ys → (x ≡ y) × (xs ≡ ys)
cons-parts e = (cc, cc)

be32-parts :
    (n m : ℕ) (x y : Bytes) → be32 n ++ x ≡ be32 m ++ y → (n % 2 ^ 32 ≡ m % 2 ^ 32) × (x ≡ y)
unfolding be32
be32-parts n m x y e =
    let (a, e1) = cons-parts e in
    let (b, e2) = cons-parts e1 in
    let (c, e3) = cons-parts e2 in let (d, e4) = cons-parts e3 in (omega (arith, a, b, c, d), e4)

be64-parts :
    (n m : ℕ) (x y : Bytes)
    → n < 2 ^ 64
    → m < 2 ^ 64
    → be64 n ++ x ≡ be64 m ++ y
    → (n ≡ m) × (x ≡ y)
unfolding be64
be64-parts n m x y hn hm e =
    let (high, e1) = be32-parts (n / 4294967296) (m / 4294967296) (be32 n ++ x) (be32 m ++ y) (
      sym (append_assoc (be32 (n / 4294967296)) (be32 n) x)
      ∙ (e ∙ append_assoc (be32 (m / 4294967296)) (be32 m) y)) in
    let (low, e2) = be32-parts n m x y e1 in (omega (arith, high, low), e2)

append-parts : (a b x y : Bytes) → length a ≡ length b → a ++ x ≡ b ++ y → (a ≡ b) × (x ≡ y)
append-parts [] [] x y h e = (refl, e)
append-parts [] (c ∷ b) x y h e = absurd (omega arith)
append-parts (c ∷ a) [] x y h e = absurd (omega arith)
append-parts (c ∷ a) (d ∷ b) x y h e =
    let (head, tail) = cons-parts e in
    let (rest, after) = append-parts a b x y (omega arith) tail in (cc, after)

prefixed-parts :
    (a b x y : Bytes)
    → length a < 2 ^ 32
    → length b < 2 ^ 32
    → prefixed a x ≡ prefixed b y
    → (a ≡ b) × (x ≡ y)
unfolding prefixed
prefixed-parts a b x y ha hb e =
    let (size, rest) = be32-parts (length a) (length b) (a ++ x) (b ++ y) e in
    append-parts a b x y (omega (arith, size)) rest

flag_byte-parts : (a b : Bool) → flag_byte a ≡ flag_byte b → a ≡ b
flag_byte-parts true true h = refl
flag_byte-parts false false h = refl
flag_byte-parts true false h = absurd (omega arith)
flag_byte-parts false true h = absurd (omega arith)

-- What a request of the protocol fits in: the counts are of the width that they are sent with, and
-- the nonce has its 16 bytes.
pub record Fits (r : Request) : Type 0 where
  pub version : r.protocol_version < 2 ^ 32
  pub time : r.timestamp < 2 ^ 64
  pub nonce : length r.nonce ≡ 16
  pub machine : length r.machine_id < 2 ^ 32
  pub dest : length r.requested_dest_path < 2 ^ 32
  pub direction : direction_code r.requested_direction < 2 ^ 32

-- Two requests with the same signed bytes agree in every signed field, so none of them can be
-- changed under a signature.
pub signed_payload-parts :
    (r q : Request)
    → Fits r
    → Fits q
    → signed_payload r ≡ signed_payload q
    → (r.protocol_version ≡ q.protocol_version)
      × (r.timestamp ≡ q.timestamp)
      × (r.nonce ≡ q.nonce)
      × (r.machine_id ≡ q.machine_id)
      × (r.requested_dest_path ≡ q.requested_dest_path)
      × (direction_code r.requested_direction ≡ direction_code q.requested_direction)
      × (r.requested_encrypt ≡ q.requested_encrypt)
      × (r.public_key ≡ q.public_key)
unfolding signed_payload
signed_payload-parts r q f g e =
    let (version, e1) = be32-parts r.protocol_version q.protocol_version _ _ e in
    let (time, e2) = be64-parts r.timestamp q.timestamp _ _ f.time g.time e1 in
    let (nonce, e3) = append-parts r.nonce q.nonce _ _ (f.nonce ∙ sym g.nonce) e2 in
    let (machine, e4) = prefixed-parts r.machine_id q.machine_id _ _ f.machine g.machine e3 in
    let (dest, e5) =
      prefixed-parts r.requested_dest_path q.requested_dest_path _ _ f.dest g.dest e4 in
    let (direction, e6) =
      be32-parts (direction_code r.requested_direction) (direction_code q.requested_direction) _ _
        e5 in
    let (flag, key) = cons-parts e6 in
    (
      omega (arith, version, f.version, g.version),
      time,
      nonce,
      machine,
      dest,
      omega (arith, direction, f.direction, g.direction),
      flag_byte-parts r.requested_encrypt q.requested_encrypt flag,
      key,
    )
