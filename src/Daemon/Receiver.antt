-- ===== src/Daemon/Receiver.antt =====
-- internal/daemon/receiver.go: the receiving side of one approved session.
-- What the server answers, the archive that arrives and whether a cause means a full disk are arguments.
pub mod Outcome
use jsync.Base.{
  ℕ, ◌+◌, ◌-◌, Bool, true, false, Option, none, some, List, [], ◌∷◌, Bytes, bytes_eq, ltb,
  if◌then◌else◌,
}
use jsync.Base.Dict
use jsync.Base.Dict.{Dict}
use jsync.Handshake.{Session}
use jsync.Pipeline.Extract.{
  sandbox_path, TarStream, ExtractError, Reports, extract_archive, CommitError, commit_sandbox,
  abort_sandbox,
}
use jsync.Pipeline.Extract.Storage.{Volume}
use jsync.Daemon.Resume.{ResumeRegistry, resume_grace_period, park, claim}

-- half a second, in nanoseconds
abbrev pub progress_publish_interval : ℕ
progress_publish_interval = 500000000

-- Why a session failed. A failure of the stream or of the receiving loop is known by a number.
pub data Cause : Type 0 where
  no_stream : ℕ → Cause
  no_consumer : ℕ → Cause
  extract_cause : ExtractError → Cause
  receive_cause : ℕ → Cause
  commit_cause : CommitError → Cause

pub record Status : Type 0 where
  pub session_id : Bytes
  pub completed : Bool
  pub error : Option Cause
  pub final : Bool
  pub bytes_received : ℕ
  pub total_bytes : ℕ

unfoldable pub final_status : Bytes → ℕ → ℕ → Option Cause → Status
final_status session_id bytes_received total_bytes cause = record {
  session_id = session_id;
  completed = elim cause [ none ↦ true | some _ ↦ false ];
  error = cause;
  final = true;
  bytes_received = bytes_received;
  total_bytes = total_bytes;
}

-- A ping goes out when the interval has passed since the last one.
unfoldable pub progress : Bytes → ℕ → ℕ → ℕ → ℕ → ℕ × Option Status
progress session_id bytes_received total_bytes last now =
    let ping : Status = record {
      session_id = session_id;
      completed = false;
      error = none;
      final = false;
      bytes_received = bytes_received;
      total_bytes = total_bytes;
    } in
    if ltb (now - last) progress_publish_interval then (last, none) else (now, some ping)

-- The files that were written whole, the newest report first, onto the map of an earlier attempt.
unfoldable pub note_completed : List (Bytes × Bytes × ℕ) → Dict Bytes Bytes → Dict Bytes Bytes
note_completed [] completed = completed
note_completed ((rel_path, hash, size) ∷ reports) completed =
    Dict.insert rel_path hash (note_completed reports completed)

unfoldable pub sum_sizes : List (Bytes × Bytes × ℕ) → ℕ
sum_sizes [] = 0
sum_sizes ((rel_path, hash, size) ∷ reports) = size + sum_sizes reports

-- The sandbox of an earlier attempt with its files, or a fresh one.
unfoldable pub choose_sandbox :
    Session → Option (Bytes × Dict Bytes Bytes) → Bytes × Dict Bytes Bytes
choose_sandbox sess none = (sandbox_path sess.dest_path sess.id, [])
choose_sandbox sess (some parked) = parked

-- What arrives: the failures of the setup, the archive, how the receiving loop ended, and its announced size.
pub record Incoming : Type 0 where
  pub stream_failed : Option ℕ
  pub consumer_failed : Option ℕ
  pub archive : Option TarStream
  pub receive_failed : Option ℕ
  pub total_bytes : ℕ

-- The error of the extraction counts before that of the receiving loop.
unfoldable pub receive_error : Option ExtractError → Option ℕ → Option Cause
receive_error (some e) received = some (extract_cause e)
receive_error none (some n) = some (receive_cause n)
receive_error none none = none

module _ (V : Volume) (sha256 : Bytes → Bytes) (is_disk_full : Cause → Bool) where
  pub record Result : Type 0 where
    pub state : V.State
    pub registry : ResumeRegistry
    pub status : Status

  -- A full disk is the one failure whose sandbox is not kept.
  unfoldable pub give_up :
      Session → Bytes → Dict Bytes Bytes → ℕ → ℕ → ℕ → Cause → V.State → ResumeRegistry → Result
  give_up sess sandbox completed bytes_received total_bytes now cause s registry =
      let status = final_status sess.id bytes_received total_bytes (some cause) in
      if is_disk_full cause
      then record { state = (abort_sandbox V sandbox s).0; registry = registry; status = status }
      else record {
        state = s;
        registry =
            park registry sess.peer_public_key sess.dest_path sandbox completed resume_grace_period
              now;
        status = status;
      }

  unfoldable pub commit_received :
      Session → Bytes → Dict Bytes Bytes → ℕ → ℕ → ℕ → V.State → ResumeRegistry → Result
  commit_received sess sandbox completed bytes_received total_bytes now s registry =
      let (s', e) = commit_sandbox V sandbox sess.dest_path s in
      elim e [
        | some error ↦
            give_up sess sandbox completed bytes_received total_bytes now (commit_cause error) s'
              registry
        | none ↦ record {
          state = s';
          registry = registry;
          status = final_status sess.id bytes_received total_bytes none;
        }
      ]

  -- The extraction into a chosen sandbox, and what follows it.
  unfoldable pub receive_into :
      Session → Incoming → Bytes → Dict Bytes Bytes → ℕ → V.State → ResumeRegistry → Result
  receive_into sess incoming sandbox before now s registry =
      let (s', log, e) = extract_archive V sha256 sandbox incoming.archive s in
      let completed = note_completed log.completed before in
      let received = sum_sizes log.completed in
      elim (receive_error e incoming.receive_failed) [
        | some cause ↦
            give_up sess sandbox completed received incoming.total_bytes now cause s' registry
        | none ↦
            commit_received sess sandbox completed received incoming.total_bytes now s' registry
      ]

  -- `ReceiveSession`: the claim at its start and what is parked at its end each have their time.
  unfoldable pub receive_session : Session → Incoming → ℕ → ℕ → V.State → ResumeRegistry → Result
  receive_session sess incoming started ended s registry =
      let failed : Cause → Result = λ cause. record {
        state = s;
        registry = registry;
        status = final_status sess.id 0 0 (some cause);
      } in
      let (left, found) = claim registry sess.peer_public_key sess.dest_path started in
      let (sandbox, before) = choose_sandbox sess found in
      elim incoming.stream_failed [
        | some n ↦ failed (no_stream n)
        | none ↦ elim incoming.consumer_failed [
          | some n ↦ failed (no_consumer n)
          | none ↦ receive_into sess incoming sandbox before ended s left
        ]
      ]
