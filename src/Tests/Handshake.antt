-- ===== src/Tests/Handshake.antt =====
-- A responder with one authorized key and one allowed root.
use jsync.Base.{
  ℕ, ◌+◌, ◌*◌, ◌%◌, ◌^◌, ◌<◌, ◌≤◌, ◌≡◌, refl, ◌⊎◌, ◌↔◌, Bool, true, false, Option, none, some, List,
  [], ◌∷◌, Bytes, arith, bytes_eq, codes, replicate, ltb, if◌then◌else◌,
}
use jsync.Base.Dict
use jsync.FilePath.{parse, confined}
use jsync.FilePath.Inside.{Inside, confined_iff}
use jsync.Tests.Toy.{primitives, primitives-IsLawful}
use jsync.Handshake.Build
use jsync.Handshake.Build.{Identity, IsGenuine, build_request, build_request-approved}
use jsync.Tests.Crypto.{store}
use jsync.Crypto.X3dh.{Bundle, bundle}
use jsync.Handshake
use jsync.Handshake.{
  second, session_ttl, unidirectional, Request, replayed, ReplayGuard, new_replay_guard, check,
  Params, Session, SessionStore, create, get, sweep, direction_code, signed_payload, approved,
  verify_request, Responder, ResumedFile, handle,
}
use jsync.Handshake.Policy.{Checked, AsAsked, InsideSome, handle-approved}
use jsync.Handshake.Replay.{check_all, check-replayed, verify_request-twice}
use jsync.Handshake.Sessions.{get-create, get-sweep}
use jsync.Handshake.Payload.{Fits, signed_payload-parts}

abbrev key : Bytes
key = replicate 32 1

abbrev nonce : Bytes
nonce = replicate 16 2

-- Its clock is three seconds ahead of the responder's.
abbrev request : Request
request = record {
  protocol_version = 2;
  machine_id = codes "laptop";
  public_key = key;
  timestamp = 13 * second;
  nonce = nonce;
  requested_dest_path = codes "/srv/in";
  requested_direction = unidirectional;
  requested_encrypt = true;
  signature = [];
}

request-Fits : Fits request
unfolding direction_code
request-Fits = record {
  version = omega arith;
  time = omega arith;
  nonce = refl;
  machine = omega arith;
  dest = omega arith;
  direction = omega arith;
}

confined_iff_example :
    (confined (codes "/srv") (codes "/srv/a/../b") ≡ true)
    ↔ Inside (parse (codes "/srv")) (parse (codes "/srv/a/../b"))
confined_iff_example = confined_iff (codes "/srv") (codes "/srv/a/../b")

accepted : (check new_replay_guard nonce 100).1 ≡ none
unfolding check Handshake.evict_old Dict.lookup
accepted = refl

check-replayed_example :
    (check
      (check_all
        (check new_replay_guard nonce 100).0
        ((key, 4 * second) ∷ (nonce, 5 * second) ∷ []))
      nonce
      (5 * second)).1
    ≡ some replayed
check-replayed_example =
    check-replayed new_replay_guard nonce 100 (5 * second)
      ((key, 4 * second) ∷ (nonce, 5 * second) ∷ []) accepted (omega arith, (omega arith, tt))
      (omega arith)

abbrev params : Params
params = record {
  max_payload_bytes = 1000;
  allowed_dest_paths = codes "/srv" ∷ [];
  direction = unidirectional;
  encrypt = true;
}

abbrev session : Session
session = record {
  id = codes "id";
  peer_machine_id = codes "laptop";
  peer_public_key = key;
  params = params;
  dest_path = codes "/srv/in";
  created_at = 10 * second;
  expires_at = 1810 * second;
}

abbrev responder : Responder primitives
responder = record {
  authorized = key ∷ [];
  sessions = record { sessions = [] };
  guard = new_replay_guard;
  default_params = params;
  prekeys = store;
  resume_lookup = none;
}

abbrev answered : Responder primitives
answered = record responder {
  sessions = record { sessions = (codes "id", session) ∷ [] };
  guard = record { seen = (nonce, 10 * second) ∷ [] };
  prekeys = (bundle primitives 0 store).0;
}

handled :
    handle primitives responder request (some (codes "id")) 0 (10 * second)
    ≡ (answered, approved session (bundle primitives 0 store).1 [])
unfolding handle verify_request Handshake.skew_of check Dict.lookup Handshake.evict_old
    Handshake.is_listed jsync.Base.list_beq Handshake.allows Handshake.any_path_within_root
    Handshake.path_within_root jsync.FilePath.clean jsync.FilePath.render parse
    jsync.FilePath.is_rooted jsync.FilePath.join_slash jsync.FilePath.push_parts
    jsync.FilePath.split_slash Dict.insert jsync.FilePath.cleaned_beq confined
    jsync.FilePath.escapes jsync.FilePath.extend_first jsync.FilePath.from_stripped
    jsync.FilePath.go_up jsync.FilePath.has_prefix jsync.FilePath.push_part jsync.FilePath.rel
    jsync.FilePath.rel_of jsync.FilePath.same_root jsync.FilePath.strip_common
    jsync.FilePath.target_parts Handshake.approve Handshake.resumed_files create
handled = refl

handle-approved_example :
    Checked primitives responder request (10 * second)
    × ((responder.default_params.allowed_dest_paths ≡ [])
        ⊎ InsideSome responder.default_params.allowed_dest_paths session.dest_path)
    × ((drawn : Bytes) × (some (codes "id") ≡ some drawn)
        × AsAsked primitives responder request drawn (10 * second) session)
    × (answered.sessions.sessions ≡ Dict.insert session.id session responder.sessions.sessions)
    × ((answered.prekeys, (bundle primitives 0 store).1) ≡ bundle primitives 0 store)
handle-approved_example =
    handle-approved primitives responder answered request (some (codes "id")) 0 (10 * second)
      session handled

verified : (verify_request primitives request (key ∷ []) new_replay_guard (10 * second)).1 ≡ none
unfolding verify_request Handshake.skew_of check Dict.lookup Handshake.evict_old Handshake.is_listed
    jsync.Base.list_beq
verified = refl

close : Handshake.skew_of (16 * second) request.timestamp ≤ Handshake.clock_skew
unfolding Handshake.skew_of
close = omega arith

verify_request-twice_example :
    (verify_request primitives request
      (key ∷ [])
      (verify_request primitives request (key ∷ []) new_replay_guard (10 * second)).0
      (16 * second)).1
    ≡ none
verify_request-twice_example =
    verify_request-twice primitives request (key ∷ []) new_replay_guard (10 * second) (16 * second)
      verified (omega arith) close

get-create_example :
    let (t, made) =
      create
        (record { sessions = [] })
        (some (codes "id"))
        5
        (codes "laptop")
        key
        params
        (codes "/srv/in") in
    (get t (codes "id") 7).1 ≡ (if ltb (5 + session_ttl) 7 then none else made)
get-create_example =
    get-create (record { sessions = [] }) (codes "id") (codes "laptop") key (codes "/srv/in") params
      5 7

get-sweep_example :
    (Dict.lookup (codes "id") (sweep answered.sessions (5 * second)).0.sessions
      ≡ (get answered.sessions (codes "id") (5 * second)).1)
    × ((get (sweep answered.sessions (5 * second)).0 (codes "id") (5 * second)).1
        ≡ (get answered.sessions (codes "id") (5 * second)).1)
unfolding Dict.lookup
get-sweep_example = get-sweep answered.sessions (codes "id") (5 * second) (refl, tt)

-- The same request under another signature.
abbrev signed_again : Request
signed_again = record request { signature = 7 ∷ [] }

signed_again-Fits : Fits signed_again
unfolding direction_code
signed_again-Fits = record {
  version = omega arith;
  time = omega arith;
  nonce = refl;
  machine = omega arith;
  dest = omega arith;
  direction = omega arith;
}

signed_payload-parts_example :
    (request.protocol_version ≡ signed_again.protocol_version)
    × (request.timestamp ≡ signed_again.timestamp)
    × (request.nonce ≡ signed_again.nonce)
    × (request.machine_id ≡ signed_again.machine_id)
    × (request.requested_dest_path ≡ signed_again.requested_dest_path)
    × (direction_code request.requested_direction ≡ direction_code signed_again.requested_direction)
    × (request.requested_encrypt ≡ signed_again.requested_encrypt)
    × (request.public_key ≡ signed_again.public_key)
unfolding signed_payload
signed_payload-parts_example =
    signed_payload-parts request signed_again request-Fits signed_again-Fits refl

-- The identity of the client, whose public key is its private key here.
abbrev client : Identity
client = record { machine_id = codes "laptop"; public_key = key; private_key = key }

client-IsGenuine : IsGenuine primitives client
client-IsGenuine = record { matches = refl; key_size = refl }

build_request-approved_example :
    (sess : Session) × (b : Bundle) × (resumed : List ResumedFile) × ((handle primitives responder
        (record request { signature = key })
        (some (codes "id"))
        0
        (10 * second)).1
      ≡ approved sess b resumed)
    × (sess.dest_path ≡ codes "/srv/in")
    × (sess.peer_public_key ≡ client.public_key)
unfolding build_request Build.sign_request Build.unsigned_request Handshake.is_listed
    jsync.Base.list_beq Handshake.skew_of Dict.lookup Handshake.allows
    Handshake.any_path_within_root Handshake.path_within_root jsync.FilePath.clean
    jsync.FilePath.render parse jsync.FilePath.is_rooted jsync.FilePath.join_slash
    jsync.FilePath.push_parts jsync.FilePath.split_slash jsync.FilePath.cleaned_beq confined
    jsync.FilePath.escapes jsync.FilePath.extend_first jsync.FilePath.from_stripped
    jsync.FilePath.go_up jsync.FilePath.has_prefix jsync.FilePath.push_part jsync.FilePath.rel
    jsync.FilePath.rel_of jsync.FilePath.same_root jsync.FilePath.strip_common
    jsync.FilePath.target_parts
build_request-approved_example =
    build_request-approved primitives primitives-IsLawful client client-IsGenuine responder nonce
      (codes "/srv/in") (codes "id") unidirectional true (13 * second) (10 * second) 0
      (record request { signature = key }) refl refl refl (omega arith) refl
