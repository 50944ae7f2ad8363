-- ===== src/Handshake.antt =====
-- internal/handshake: the signed request, its verification, the sessions, and the responder.
pub mod Replay
pub mod Policy
pub mod Sessions
pub mod Payload
pub mod Build
use jsync.Base.{
  ℕ, ◌+◌, ◌*◌, ◌-◌, ◌/◌, ◌%◌, Bool, true, false, not, ◌&&◌, ◌||◌, Option, none, some, List, [], ◌∷◌,
  ◌++◌, Bytes, bytes_eq, nat_eq, ltb, leb, ◌==◌, length, if◌then◌else◌,
}
use jsync.Base.Dict
use jsync.Base.Dict.{Dict}
use jsync.FilePath.{clean, confined}
use jsync.Crypto.Primitives.{Primitives}
use jsync.Crypto.X3dh.{Bundle, Store, bundle}

abbrev pub protocol_version : ℕ
protocol_version = 2

-- Times and durations in nanoseconds.
abbrev pub second : ℕ
second = 1000000000

abbrev pub clock_skew : ℕ
clock_skew = 5 * second

abbrev pub session_ttl : ℕ
session_ttl = 1800 * second

abbrev pub public_key_size : ℕ
public_key_size = 32

pub data Direction : Type 0 where
  unidirectional bidirectional : Direction
  -- any other number on the wire
  other_direction : ℕ → Direction

pub record Request : Type 0 where
  pub protocol_version : ℕ
  pub machine_id : Bytes
  pub public_key : Bytes
  pub timestamp : ℕ
  pub nonce : Bytes
  pub requested_dest_path : Bytes
  pub requested_direction : Direction
  pub requested_encrypt : Bool
  pub signature : Bytes

-- `binary.BigEndian.AppendUint32` and `AppendUint64`.
unfoldable pub be32 : ℕ → Bytes
be32 n = (n / 16777216) % 256 ∷ (n / 65536) % 256 ∷ (n / 256) % 256 ∷ n % 256 ∷ []

unfoldable pub be64 : ℕ → Bytes
be64 n = be32 (n / 4294967296) ++ be32 n

-- `uint32` of the number of a direction.
unfoldable pub direction_code : Direction → ℕ
direction_code unidirectional = 0
direction_code bidirectional = 1
direction_code (other_direction n) = n

-- A text behind its length.
unfoldable pub prefixed : Bytes → Bytes → Bytes
prefixed text rest = be32 (length text) ++ (text ++ rest)

abbrev pub flag_byte : Bool → ℕ
flag_byte true = 1
flag_byte false = 0

unfoldable pub signed_payload : Request → Bytes
signed_payload r =
    be32 r.protocol_version
    ++ (be64 r.timestamp
        ++ (r.nonce
            ++ prefixed r.machine_id (
                prefixed r.requested_dest_path (
                  be32 (direction_code r.requested_direction)
                  ++ (flag_byte r.requested_encrypt ∷ r.public_key)))))

pub data HandshakeError : Type 0 where
  bad_version skewed bad_signature replayed not_authorized : HandshakeError

-- When each nonce was accepted.
pub record ReplayGuard : Type 0 where
  pub seen : Dict Bytes ℕ

abbrev pub new_replay_guard : ReplayGuard
new_replay_guard = record { seen = [] }

-- The deletion of the old nonces. A time before `seen_at` gives a negative difference, which is
-- not above the skew.
unfoldable pub evict_old : ℕ → Dict Bytes ℕ → Dict Bytes ℕ
evict_old now [] = []
evict_old now ((nonce, seen_at) ∷ seen) =
    let rest = evict_old now seen in
    if ltb clock_skew (now - seen_at) then rest else (nonce, seen_at) ∷ rest

unfoldable pub check : ReplayGuard → Bytes → ℕ → ReplayGuard × Option HandshakeError
check g nonce now =
    let seen = evict_old now g.seen in
    elim (Dict.lookup nonce seen) [
      | some _ ↦ (record { seen = seen }, some replayed)
      | none ↦ (record { seen = Dict.insert nonce now seen }, none)
    ]

-- The distance of two times.
unfoldable pub skew_of : ℕ → ℕ → ℕ
skew_of now timestamp = (now - timestamp) + (timestamp - now)

unfoldable pub is_listed : Bytes → List Bytes → Bool
is_listed key [] = false
is_listed key (k ∷ keys) = (k == key) || is_listed key keys

-- `anyPathWithinRoot` and `pathWithinRoot`.
unfoldable pub path_within_root : Bytes → Bytes → Bool
path_within_root root target =
    if clean root == clean target then true else confined (clean root) (clean target)

unfoldable pub any_path_within_root : List Bytes → Bytes → Bool
any_path_within_root [] target = false
any_path_within_root (root ∷ roots) target =
    (not (root == []) && path_within_root root target) || any_path_within_root roots target

-- No roots is no restriction.
unfoldable pub allows : List Bytes → Bytes → Bool
allows [] target = true
allows (root ∷ roots) target = any_path_within_root (root ∷ roots) target

pub record Params : Type 0 where
  pub max_payload_bytes : ℕ
  pub allowed_dest_paths : List Bytes
  pub direction : Direction
  pub encrypt : Bool

pub record Session : Type 0 where
  pub id : Bytes
  pub peer_machine_id : Bytes
  pub peer_public_key : Bytes
  pub params : Params
  pub dest_path : Bytes
  pub created_at : ℕ
  pub expires_at : ℕ

pub record SessionStore : Type 0 where
  pub sessions : Dict Bytes Session

-- `Create`, with the random id; `none` is a failing random source.
unfoldable pub create :
    SessionStore → Option Bytes → ℕ → Bytes → Bytes → Params → Bytes → SessionStore × Option Session
create s none now peer_machine_id peer_pub params dest_path = (s, none)
create s (some id) now peer_machine_id peer_pub params dest_path =
    let sess : Session = record {
      id = id;
      peer_machine_id = peer_machine_id;
      peer_public_key = peer_pub;
      params = params;
      dest_path = dest_path;
      created_at = now;
      expires_at = now + session_ttl;
    } in
    (record { sessions = Dict.insert id sess s.sessions }, some sess)

unfoldable pub get : SessionStore → Bytes → ℕ → SessionStore × Option Session
get s id now = elim (Dict.lookup id s.sessions) [
  | none ↦ (s, none)
  | some sess ↦
      if ltb sess.expires_at now
      then (record { sessions = Dict.delete id s.sessions }, none)
      else (s, some sess)
]

unfoldable pub close : SessionStore → Bytes → SessionStore
close s id = record { sessions = Dict.delete id s.sessions }

unfoldable pub sweep_entries : ℕ → Dict Bytes Session → Dict Bytes Session × ℕ
sweep_entries now [] = ([], 0)
sweep_entries now ((id, sess) ∷ sessions) =
    let (kept, n) = sweep_entries now sessions in
    if ltb sess.expires_at now then (kept, n + 1) else ((id, sess) ∷ kept, n)

unfoldable pub sweep : SessionStore → ℕ → SessionStore × ℕ
sweep s now = let (kept, n) = sweep_entries now s.sessions in (record { sessions = kept }, n)

pub record ResumedFile : Type 0 where
  pub rel_path : Bytes
  pub content_hash : Bytes

-- What the responder answers: a session with a prekey bundle and what can be resumed, or a reason.
pub data Response : Type 0 where
  approved : Session → Bundle → List ResumedFile → Response
  rejected : HandshakeError → Response
  outside_roots : Bytes → Response
  no_session_id : Response

module _ (P : Primitives) where
  unfoldable pub verify_request :
      Request → List Bytes → ReplayGuard → ℕ → ReplayGuard × Option HandshakeError
  verify_request req authorized guard now =
      if not (req.protocol_version == protocol_version)
      then (guard, some bad_version)
      else if ltb clock_skew (skew_of now req.timestamp)
      then (guard, some skewed)
      else if not (length req.public_key == public_key_size)
      then (guard, some bad_signature)
      else if not (P.verify req.public_key (signed_payload req) req.signature)
      then (guard, some bad_signature)
      else (let (guard', fails) = check guard req.nonce now in
          elim fails [
            | some e ↦ (guard', some e)
            | none ↦
                if is_listed req.public_key authorized
                then (guard', none)
                else (guard', some not_authorized)
          ])

  -- The responder's state and policy.
  pub record Responder : Type 0 where
    pub authorized : List Bytes
    pub sessions : SessionStore
    pub guard : ReplayGuard
    pub default_params : Params
    pub prekeys : Store
    -- `none` is a nil callback
    pub resume_lookup : Option (Bytes → Bytes → List ResumedFile)

  -- Only a one-shot transfer resumes.
  unfoldable pub resumed_files : Responder → Request → List ResumedFile
  resumed_files r req = elim r.resume_lookup [
    | none ↦ []
    | some resume_lookup ↦ elim req.requested_direction [
      | unidirectional ↦ resume_lookup req.public_key req.requested_dest_path
      | _ ↦ []
    ]
  ]

  -- The session of a request that passed, and a bundle out of the prekey store. `order` stands for
  -- the order in which the store's map is found.
  unfoldable pub approve : Responder → Request → Option Bytes → ℕ → ℕ → Responder × Response
  approve r req id order now =
      let params = record (r.default_params) {
        direction = req.requested_direction;
        encrypt = req.requested_encrypt;
      } in
      let (sessions, made) =
        create r.sessions id now req.machine_id req.public_key params req.requested_dest_path in
      elim made [
        | none ↦ (r, no_session_id)
        | some sess ↦
            let (prekeys, b) = bundle P order r.prekeys in
            (
              record r { sessions = sessions; prekeys = prekeys },
              approved sess b (resumed_files r req),
            )
      ]

  unfoldable pub handle : Responder → Request → Option Bytes → ℕ → ℕ → Responder × Response
  handle r req id order now =
      let (guard, fails) = verify_request req r.authorized r.guard now in
      let r' = record r { guard = guard } in
      elim fails [
        | some e ↦ (r', rejected e)
        | none ↦
            if allows r.default_params.allowed_dest_paths req.requested_dest_path
            then approve r' req id order now
            else (r', outside_roots req.requested_dest_path)
      ]
