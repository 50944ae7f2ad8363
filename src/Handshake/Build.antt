-- ===== src/Handshake/Build.antt =====
-- internal/handshake/challenge.go: the request that a client makes, and its way through a responder.
use jsync.Base.{
  ℕ, ◌+◌, subst, ◌≤◌, ◌≡◌, refl, Bool, true, Option, none, some, List, [], Bytes, bytes_eq, nat_eq,
  length, arith,
}
use jsync.Base.Dict
use jsync.Base.Dict.{Dict}
use jsync.Crypto.Primitives
use jsync.Crypto.Primitives.{Primitives}
use jsync.Crypto.X3dh.{Bundle, bundle}
use jsync.Handshake.{
  protocol_version, clock_skew, public_key_size, Direction, Request, signed_payload, ReplayGuard,
  check, skew_of, is_listed, allows, Session, session_ttl, create, ResumedFile, approved,
  verify_request, Responder, approve, handle, resumed_files,
}
use jsync.Handshake.Replay.{lookup-evict_old-none}

pub record Identity : Type 0 where
  pub machine_id : Bytes
  pub public_key : Bytes
  pub private_key : Bytes

module _ (P : Primitives) where
  -- The request of the client, and its signature over the other fields.
  unfoldable pub unsigned_request : Identity → Bytes → Bytes → Direction → Bool → ℕ → Request
  unsigned_request id nonce dest_path direction encrypt now = record {
    protocol_version = protocol_version;
    machine_id = id.machine_id;
    public_key = id.public_key;
    timestamp = now;
    nonce = nonce;
    requested_dest_path = dest_path;
    requested_direction = direction;
    requested_encrypt = encrypt;
    signature = [];
  }

  unfoldable pub sign_request : Identity → Request → Request
  sign_request id req = record req { signature = P.sign id.private_key (signed_payload req) }

  -- `none` is a failing random source.
  unfoldable pub build_request :
      Identity → Option Bytes → Bytes → Direction → Bool → ℕ → Option Request
  build_request id none dest_path direction encrypt now = none
  build_request id (some nonce) dest_path direction encrypt now =
      some (sign_request id (unsigned_request id nonce dest_path direction encrypt now))

  -- The public key of an identity is the one of its private key, of the right size.
  pub record IsGenuine (id : Identity) : Type 0 where
    pub matches : id.public_key ≡ P.verifying_key id.private_key
    pub key_size : length id.public_key ≡ public_key_size

  check-fresh :
      (g : ReplayGuard) (nonce : Bytes) (now : ℕ)
      → Dict.lookup nonce g.seen ≡ none
      → (check g nonce now).1 ≡ none
  unfolding check
  check-fresh g nonce now h = rw (lookup-evict_old-none now nonce g.seen h, check) refl

  -- What a responder answers to a request that passes its checks and its policy.
  handle-accepted :
      (r : Responder P) (req : Request) (sid : Bytes) (order now : ℕ)
      → (verify_request P req r.authorized r.guard now).1 ≡ none
      → allows r.default_params.allowed_dest_paths req.requested_dest_path ≡ true
      → (sess : Session) × (b : Bundle) × (resumed : List ResumedFile) × ((handle P r req
            (some sid)
            order
            now).1
          ≡ approved sess b resumed)
        × (sess.dest_path ≡ req.requested_dest_path)
        × (sess.peer_public_key ≡ req.public_key)
  unfolding handle approve create
  handle-accepted r req sid order now passed inside =
      let guarded : Responder P = record r {
        guard = (verify_request P req r.authorized r.guard now).0;
      } in
      let sess : Session = record {
        id = sid;
        peer_machine_id = req.machine_id;
        peer_public_key = req.public_key;
        params = record (r.default_params) {
          direction = req.requested_direction;
          encrypt = req.requested_encrypt;
        };
        dest_path = req.requested_dest_path;
        created_at = now;
        expires_at = now + session_ttl;
      } in
      (
        sess,
        (bundle P order r.prekeys).1,
        resumed_files P guarded req,
        rw (passed, inside, handle) refl,
        refl,
        refl,
      )

  module _ (L : Primitives.IsLawful P) (id : Identity) (gen : IsGenuine id) where
    verify-sign_request :
        (req : Request)
        → req.public_key ≡ id.public_key
        → let made = sign_request id req in
          P.verify made.public_key (signed_payload made) made.signature ≡ true
    unfolding sign_request signed_payload
    verify-sign_request req e = rw (e, gen.matches) (L.verify-sign id.private_key _)

    verify_request-build :
        (nonce dest : Bytes) (direction : Direction) (encrypt : Bool) (sent now : ℕ)
        → (authorized : List Bytes) (g : ReplayGuard) → is_listed id.public_key authorized ≡ true
        → Dict.lookup nonce g.seen ≡ none
        → skew_of now sent ≤ clock_skew
        → let req = sign_request id (unsigned_request id nonce dest direction encrypt sent) in
          (verify_request P req authorized g now).1 ≡ none
    unfolding verify_request sign_request unsigned_request
    verify_request-build nonce dest direction encrypt sent now authorized g listed fresh close =
        let req = unsigned_request id nonce dest direction encrypt sent in
        let valid = verify-sign_request req refl in
        let seen = check-fresh g nonce now fresh in let size = gen.key_size in ground arith

    -- An identity whose key is listed builds a request for an allowed destination; a responder that
    -- receives it within the clock skew, has not seen its nonce and can draw a session id approves it:
    -- the answer is a session for that destination and that key.
    pub build_request-approved :
        (r : Responder P) (nonce dest sid : Bytes) (direction : Direction) (encrypt : Bool)
        → (sent now order : ℕ) (req : Request)
        → build_request id (some nonce) dest direction encrypt sent ≡ some req
        → is_listed id.public_key r.authorized ≡ true
        → Dict.lookup nonce r.guard.seen ≡ none
        → skew_of now sent ≤ clock_skew
        → allows r.default_params.allowed_dest_paths dest ≡ true
        → (sess : Session) × (b : Bundle) × (resumed : List ResumedFile) × ((handle P r req
              (some sid)
              order
              now).1
            ≡ approved sess b resumed)
          × (sess.dest_path ≡ dest)
          × (sess.peer_public_key ≡ id.public_key)
    unfolding build_request
    build_request-approved r nonce dest sid direction encrypt sent now order req made listed fresh
          close inside =
        let req' = sign_request id (unsigned_request id nonce dest direction encrypt sent) in
        let same : req' ≡ req = cc in
        let passed =
          verify_request-build nonce dest direction encrypt sent now r.authorized r.guard listed
            fresh close in
        subst
          (λ q.
            (sess : Session) × (b : Bundle) × (resumed : List ResumedFile) × ((handle P r q
                (some sid) order now).1
              ≡ approved sess b resumed)
            × (sess.dest_path ≡ dest)
            × (sess.peer_public_key ≡ id.public_key))
          same
          (unfold sign_request unsigned_request in
            handle-accepted r req' sid order now passed inside)
