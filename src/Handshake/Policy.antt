-- ===== src/Handshake/Policy.antt =====
-- internal/handshake/responder.go: the checks of a request and the session that follows.
use mathlib.Core.List.{Memᴰ}
use jsync.Base.{
  ℕ, ◌+◌, ◌≤◌, ◌≡◌, refl, ◌≢◌, ◌↔◌, ◌⊎◌, inl, inr, true, not, ◌&&◌, Option, none, some, List, [],
  ◌∷◌, Bytes, bytes_eq, nat_eq, ◌==◌, length, arith, Bool-cases, Option-cases,
}
use jsync.Base.Dict
use jsync.FilePath.{parse, clean}
use jsync.FilePath.Inside.{Inside, confined_iff}
use jsync.Syncfs.Event.Confined.{Inside-refl}
use jsync.Crypto.Primitives.{Primitives}
use jsync.Crypto.X3dh.{Bundle, bundle}
use jsync.Handshake.{
  ResumedFile, protocol_version, clock_skew, public_key_size, Request, check, skew_of, is_listed,
  path_within_root, any_path_within_root, session_ttl, Session, create, signed_payload, approved,
  verify_request, Responder, allows, approve, handle,
}

path_within_root_iff :
    (root target : Bytes)
    → (path_within_root root target ≡ true) ↔ Inside (parse (clean root)) (parse (clean target))
unfolding path_within_root
path_within_root_iff root target = elim (Bool-cases (clean root == clean target)) [
  | inl e ↦
      let same = bytes_eq.beq_iff (clean root) (clean target) in
      (
        λ h. (let eq : clean root ≡ clean target = ground arith in rw eq (Inside-refl _)),
        λ i. ground arith,
      )
  | inr e ↦ rw e (confined_iff (clean root) (clean target))
]

-- One of the roots, not the empty text, that the target is inside, both cleaned.
pub record InsideSome (roots : List Bytes) (target : Bytes) : Type 0 where
  pub root : Bytes
  pub listed : Memᴰ root roots
  pub nonempty : root ≢ []
  pub inside : Inside (parse (clean root)) (parse (clean target))

any_path_within_root-Inside :
    (roots : List Bytes) (target : Bytes)
    → any_path_within_root roots target ≡ true
    → InsideSome roots target
unfolding any_path_within_root
any_path_within_root-Inside [] target h = absurd (ground arith)
any_path_within_root-Inside (root ∷ roots) target h =
    elim (Bool-cases (not (root == []) && path_within_root root target)) [
      | inl e ↦ record {
        root = root;
        listed = Memᴰ.head refl;
        nonempty = ground (arith, bytes_eq.beq_iff root []);
        inside = (path_within_root_iff root target).0 (ground arith);
      }
      | inr e ↦
          let deeper = any_path_within_root-Inside roots target (ground arith) in
          record {
            root = deeper.root;
            listed = Memᴰ.tail deeper.listed;
            nonempty = deeper.nonempty;
            inside = deeper.inside;
          }
    ]

allows-InsideSome :
    (roots : List Bytes) (target : Bytes)
    → allows roots target ≡ true
    → (roots ≡ []) ⊎ InsideSome roots target
unfolding allows
allows-InsideSome [] target h = inl refl
allows-InsideSome (root ∷ roots) target h =
    inr (any_path_within_root-Inside (root ∷ roots) target h)

module _ (P : Primitives) where
  -- What a responder checked of a request that it approved.
  pub record Checked (r : Responder P) (req : Request) (now : ℕ) : Type 0 where
    pub version : req.protocol_version ≡ protocol_version
    pub in_time : skew_of now req.timestamp ≤ clock_skew
    pub key_size : length req.public_key ≡ public_key_size
    pub signed : P.verify req.public_key (signed_payload req) req.signature ≡ true
    pub fresh : (check r.guard req.nonce now).1 ≡ none
    pub authorized : is_listed req.public_key r.authorized ≡ true

  verify_request-Checked :
      (r : Responder P) (req : Request) (now : ℕ)
      → (verify_request P req r.authorized r.guard now).1 ≡ none
      → Checked r req now
  unfolding verify_request
  verify_request-Checked r req now h = record {
    version = ground arith;
    in_time = ground arith;
    key_size = ground arith;
    signed = ground arith;
    fresh = ground arith;
    authorized = ground arith;
  }

  -- What a session holds that a request asked for and that came to be at a time.
  pub record AsAsked (r : Responder P) (req : Request) (id : Bytes) (now : ℕ) (sess : Session)
      : Type 0 where
    pub drawn : sess.id ≡ id
    pub machine : sess.peer_machine_id ≡ req.machine_id
    pub key : sess.peer_public_key ≡ req.public_key
    pub direction : sess.params.direction ≡ req.requested_direction
    pub encrypt : sess.params.encrypt ≡ req.requested_encrypt
    pub payload : sess.params.max_payload_bytes ≡ r.default_params.max_payload_bytes
    pub roots : sess.params.allowed_dest_paths ≡ r.default_params.allowed_dest_paths
    pub dest : sess.dest_path ≡ req.requested_dest_path
    pub created : sess.created_at ≡ now
    pub expires : sess.expires_at ≡ now + session_ttl

  approve-approved :
      (r r' : Responder P) (req : Request) (id : Option Bytes) (order now : ℕ) (sess : Session)
      {b : Bundle} {resumed : List ResumedFile}
      → approve P r req id order now ≡ (r', approved sess b resumed)
      → ((drawn : Bytes) × (id ≡ some drawn) × AsAsked r req drawn now sess)
        × (r'.sessions.sessions ≡ Dict.insert sess.id sess r.sessions.sessions)
        × ((r'.prekeys, b) ≡ bundle P order r.prekeys)
  unfolding approve create
  approve-approved r r' req none order now sess h = absurd (ground arith)
  approve-approved r r' req (some id) order now sess h = (
    (
      id,
      refl,
      record {
        drawn = ground arith;
        machine = ground arith;
        key = ground arith;
        direction = ground arith;
        encrypt = ground arith;
        payload = ground arith;
        roots = ground arith;
        dest = ground arith;
        created = ground arith;
        expires = ground arith;
      },
    ),
    ground arith,
    ground arith,
  )

  -- An approved request is well signed, in time and not a repetition, its key is authorized and its
  -- destination is inside a root of the policy if there is one; the session has the drawn id, the
  -- machine, key, direction, encryption and destination of the request, the other parameters of the
  -- responder and the time of its making; it is added to the sessions, and the bundle comes out of
  -- the prekey store.
  pub handle-approved :
      (r r' : Responder P) (req : Request) (id : Option Bytes) (order now : ℕ) (sess : Session)
      {b : Bundle} {resumed : List ResumedFile}
      → handle P r req id order now ≡ (r', approved sess b resumed)
      → Checked r req now
        × ((r.default_params.allowed_dest_paths ≡ [])
            ⊎ InsideSome r.default_params.allowed_dest_paths sess.dest_path)
        × ((drawn : Bytes) × (id ≡ some drawn) × AsAsked r req drawn now sess)
        × (r'.sessions.sessions ≡ Dict.insert sess.id sess r.sessions.sessions)
        × ((r'.prekeys, b) ≡ bundle P order r.prekeys)
  unfolding handle
  handle-approved r r' req id order now sess {b} {resumed} h =
      elim (Option-cases (verify_request P req r.authorized r.guard now).1) [
        | inr (e, f) ↦ absurd (ground arith)
        | inl f ↦
            elim (Bool-cases (allows r.default_params.allowed_dest_paths req.requested_dest_path)) [
              | inr g ↦ absurd (ground arith)
              | inl g ↦
                  let r1 = record r { guard = (verify_request P req r.authorized r.guard now).0 } in
                  let made : approve P r1 req id order now ≡ (r', approved sess b resumed) =
                    ground arith in
                  let ((drawn, from, a), registered, keys) =
                    approve-approved r1 r' req id order now sess made in
                  (
                    verify_request-Checked r req now f,
                    rw a.dest (
                        allows-InsideSome r.default_params.allowed_dest_paths
                          req.requested_dest_path g),
                    (
                      drawn,
                      from,
                      record {
                        drawn = a.drawn;
                        machine = a.machine;
                        key = a.key;
                        direction = a.direction;
                        encrypt = a.encrypt;
                        payload = a.payload;
                        roots = a.roots;
                        dest = a.dest;
                        created = a.created;
                        expires = a.expires;
                      },
                    ),
                    registered,
                    keys,
                  )
            ]
      ]
