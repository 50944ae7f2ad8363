-- ===== src/Tests/Daemon.antt =====
-- A registry with one parked sandbox.
use mathlib.Core.List.{Memᴰ}
use jsync.Base.{
  ◌≡◌, ◌↔◌, refl, sym, subst, false, none, some, [], ◌∷◌, Bytes, codes, arith, ◌==◌, if◌then◌else◌,
}
use jsync.Base.Dict
use jsync.Base.Dict.{Dict}
use jsync.Daemon.Resume.{
  ResumeKey, ResumeRegistry, key_eq, new_resume_registry, new_resume_key, resume_grace_period, park,
  claim, sweep,
}
use jsync.Handshake.{Session, unidirectional}
use jsync.FilePath.{parse, confined, dir}
use jsync.FilePath.Inside.{Inside, confined_iff}
use jsync.Pipeline.Extract.{stale_path, extract_archive}
use jsync.Pipeline.Extract.Commit.{IsLaidOut}
use jsync.Tests.Extract.{volume, volume-IsLawful, stream}
use jsync.Daemon.Receiver.{Incoming, choose_sandbox, note_completed, receive_session}
use jsync.Daemon.Receiver.Outcome.{Ending, receive_session-Ending}
use jsync.Daemon.Resume.Claims.{claim-claim, unexpired, HasExpired, claim-sweep}

abbrev peer : Bytes
peer = 1 ∷ 2 ∷ []

abbrev sandbox : Bytes
sandbox = codes "/srv/.jsync_tmp_1"

abbrev done : Dict Bytes Bytes
done = (codes "a.txt", codes "ff") ∷ []

abbrev parked : ResumeRegistry
parked = park new_resume_registry peer (codes "/srv/in/") sandbox done resume_grace_period 10

claim-claim_example :
    (claim (claim parked peer (codes "/srv/in") 20).0 peer (codes "/srv/in") 30).1 ≡ (
      if new_resume_key peer (codes "/srv/in") == new_resume_key peer (codes "/srv/in")
      then none
      else (claim parked peer (codes "/srv/in") 30).1)
claim-claim_example = claim-claim parked peer (codes "/srv/in") 20 peer (codes "/srv/in") 30

abbrev parked_key : ResumeKey
parked_key = new_resume_key peer (codes "/srv/in")

claim-sweep_example :
    ((claim (sweep parked 20).0 peer (codes "/srv/in") 30).1
      ≡ (claim parked peer (codes "/srv/in") 30).1)
    × (Dict.lookup parked_key (sweep parked 20).0.entries
        ≡ unexpired 20 (Dict.lookup parked_key parked.entries))
    × (Memᴰ sandbox (sweep parked 20).1 ↔ HasExpired parked.entries 20 sandbox)
unfolding park new_resume_registry Dict.lookup Dict.insert
claim-sweep_example =
    claim-sweep parked 20 peer (codes "/srv/in") 30 parked_key sandbox (refl, tt) (omega arith)

abbrev session : Session
session = record {
  id = codes "1";
  peer_machine_id = codes "laptop";
  peer_public_key = peer;
  params = record {
    max_payload_bytes = 0;
    allowed_dest_paths = [];
    direction = unidirectional;
    encrypt = false;
  };
  dest_path = codes "/srv/in";
  created_at = 0;
  expires_at = 100;
}

-- An archive whose second file is cut short.
abbrev incoming : Incoming
incoming = record {
  stream_failed = none;
  consumer_failed = none;
  archive = some stream;
  receive_failed = some 7;
  total_bytes = 12;
}

outside : (p q : Bytes) → confined p q ≡ false → ¬ Inside (parse p) (parse q)
outside p q h i = let (_, from) = confined_iff p q in let yes = from i in ground arith

chosen :
    choose_sandbox session (claim parked session.peer_public_key session.dest_path 20).1
    ≡ (sandbox, done)
unfolding choose_sandbox claim park new_resume_registry new_resume_key Dict.lookup Dict.insert
    jsync.FilePath.rel jsync.FilePath.rel_of jsync.FilePath.cleaned_beq jsync.FilePath.same_root
    parse jsync.FilePath.is_rooted jsync.Base.list_beq jsync.FilePath.push_parts
    jsync.FilePath.split_slash jsync.FilePath.extend_first jsync.FilePath.push_part
    jsync.FilePath.from_stripped jsync.FilePath.strip_common jsync.FilePath.target_parts
    jsync.FilePath.escapes jsync.FilePath.join_slash jsync.FilePath.go_up jsync.FilePath.has_prefix
    jsync.FilePath.clean jsync.FilePath.render
chosen = refl

laid_out : IsLaidOut sandbox (codes "/srv/in")
unfolding confined jsync.FilePath.rel jsync.FilePath.rel_of jsync.FilePath.cleaned_beq
    jsync.FilePath.same_root parse jsync.FilePath.is_rooted jsync.Base.list_beq
    jsync.FilePath.push_parts jsync.FilePath.split_slash jsync.FilePath.extend_first
    jsync.FilePath.push_part jsync.FilePath.from_stripped jsync.FilePath.strip_common
    jsync.FilePath.target_parts jsync.FilePath.escapes jsync.FilePath.join_slash
    jsync.FilePath.go_up jsync.FilePath.has_prefix jsync.FilePath.clean jsync.FilePath.render
    jsync.FilePath.dir jsync.FilePath.drop_last jsync.FilePath.base jsync.FilePath.last_element
laid_out =
    let dest = codes "/srv/in" in
    let stale = stale_path sandbox dest in
    record {
      sandbox_dest = record { right = outside sandbox dest refl; left = outside dest sandbox refl };
      stale_sandbox = record {
        right = outside stale sandbox refl;
        left = outside sandbox stale refl;
      };
      stale_dest = record { right = outside stale dest refl; left = outside dest stale refl };
      above_dest = outside dest (dir dest) refl;
      above_sandbox = outside sandbox (dir dest) refl;
    }

receive_session-Ending_example :
    let (used, before) =
      choose_sandbox session (claim parked session.peer_public_key session.dest_path 20).1 in
    let (extracted, log, _) =
      extract_archive volume (λ text. text) used incoming.archive (λ c. none) in
    Ending volume
      (λ text. text)
      (λ cause. false)
      session
      used
      (volume.content used extracted)
      (note_completed log.completed before)
      30
      (receive_session volume
        (λ text. text)
        (λ cause. false)
        session
        incoming
        20
        30
        (λ c. none)
        parked)
receive_session-Ending_example =
    receive_session-Ending volume (λ text. text) (λ cause. false) volume-IsLawful session incoming
      20 30 (λ c. none) parked refl refl
      (subst (λ p. IsLaidOut p.0 session.dest_path) (sym chosen) laid_out)
