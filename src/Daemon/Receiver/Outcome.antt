-- ===== src/Daemon/Receiver/Outcome.antt =====
-- internal/daemon/receiver.go: what a session leaves for the next attempt.
use jsync.Base.{
  ℕ, ◌+◌, ◌≡◌, refl, ◌∙◌, ◌⊎◌, inl, inr, Bool, true, false, Option, none, some, Bytes, bytes_eq,
  ltb, Bool-cases, Option-cases, if◌then◌else◌, ==-refl,
}
use jsync.Base.Dict.{Dict}
use jsync.Handshake.{Session}
use jsync.Pipeline.Extract.{
  ExtractError, CommitError, create_parent, stat_dest, clear_stale, move_aside, commit_rename,
  clean_up_old, extract_archive, commit_sandbox, abort_sandbox,
}
use jsync.Pipeline.Extract.Commit.{IsLaidOut, untouched, set_aside, Holds, commit_sandbox-Holds}
use jsync.Pipeline.Extract.Storage.{Volume, IsLawful}
use jsync.Daemon.Resume.{ResumeRegistry, key_eq, new_resume_key, resume_grace_period, claim}
use jsync.Daemon.Resume.Claims.{claim-park, claim-claim}
use jsync.Daemon.Receiver.{
  Cause, no_stream, no_consumer, extract_cause, receive_cause, commit_cause, final_status,
  note_completed, sum_sizes, choose_sandbox, Incoming, receive_error, Result, give_up,
  commit_received, receive_into, receive_session,
}

receive_error-cases :
    (e : Option ExtractError) (received : Option ℕ)
    → (receive_error e received ≡ none)
      ⊎ (((error : ExtractError) × (receive_error e received ≡ some (extract_cause error)))
          ⊎ ((n : ℕ) × (receive_error e received ≡ some (receive_cause n))))
unfolding receive_error
receive_error-cases (some error) received = inr (inl (error, refl))
receive_error-cases none (some n) = inr (inr (n, refl))
receive_error-cases none none = inl refl

module _ (V : Volume) (sha256 : Bytes → Bytes) (is_disk_full : Cause → Bool) where
  -- Where the received content is after a failure: in the sandbox, unless the commit failed only in
  -- removing the old copy, when it is at the destination.
  abbrev pub IsLeft : Bytes → Bytes → Option V.Content → Cause → V.State → Type 0
  IsLeft sandbox dest got (commit_cause (clean_up_old cause)) t = V.content dest t ≡ got
  IsLeft sandbox dest got (commit_cause (create_parent cause)) t = V.content sandbox t ≡ got
  IsLeft sandbox dest got (commit_cause (stat_dest cause)) t = V.content sandbox t ≡ got
  IsLeft sandbox dest got (commit_cause (clear_stale cause)) t = V.content sandbox t ≡ got
  IsLeft sandbox dest got (commit_cause (move_aside cause)) t = V.content sandbox t ≡ got
  IsLeft sandbox dest got (commit_cause (commit_rename cause)) t = V.content sandbox t ≡ got
  IsLeft sandbox dest got (extract_cause cause) t = V.content sandbox t ≡ got
  IsLeft sandbox dest got (receive_cause n) t = V.content sandbox t ≡ got
  IsLeft sandbox dest got (no_stream n) t = V.content sandbox t ≡ got
  IsLeft sandbox dest got (no_consumer n) t = V.content sandbox t ≡ got

  -- How a session that got its stream may end: done, with the received content at the destination and
  -- nothing to resume; failed and to be resumed, until the grace period has passed, in the sandbox it
  -- used and with every file it has whole; or failed for want of space, with that sandbox removed and
  -- nothing to resume.
  pub data Ending (sess : Session) (sandbox : Bytes) (got : Option V.Content)
      (whole : Dict Bytes Bytes) (ended : ℕ) (r : Result V sha256 is_disk_full) : Type 0 where
    done :
        r.status.completed ≡ true
        → V.content sess.dest_path r.state ≡ got
        → ((later : ℕ) → (claim r.registry sess.peer_public_key sess.dest_path later).1 ≡ none)
        → Ending sess sandbox got whole ended r
    resumable :
        (cause : Cause)
        → r.status.error ≡ some cause
        → is_disk_full cause ≡ false
        → IsLeft sandbox sess.dest_path got cause r.state
        → ((later : ℕ)
            → (claim r.registry sess.peer_public_key sess.dest_path later).1
              ≡ (if ltb (ended + resume_grace_period) later then none else some (sandbox, whole)))
        → Ending sess sandbox got whole ended r
    out_of_space :
        (cause : Cause) (t : V.State)
        → r.status.error ≡ some cause
        → is_disk_full cause ≡ true
        → IsLeft sandbox sess.dest_path got cause t
        → r.state ≡ (V.remove_all sandbox t).0
        → ((later : ℕ) → (claim r.registry sess.peer_public_key sess.dest_path later).1 ≡ none)
        → Ending sess sandbox got whole ended r

  give_up-Ending :
      (sess : Session) (sandbox : Bytes) (got : Option V.Content) (completed : Dict Bytes Bytes)
      → (received total now : ℕ) (cause : Cause) (s : V.State) (registry : ResumeRegistry)
      → IsLeft sandbox sess.dest_path got cause s
      → ((later : ℕ) → (claim registry sess.peer_public_key sess.dest_path later).1 ≡ none)
      → Ending sess sandbox got completed now
          (give_up V sha256 is_disk_full sess sandbox completed received total now cause s registry)
  unfolding give_up final_status abort_sandbox
  give_up-Ending sess sandbox got completed received total now cause s registry left gone =
      elim (Bool-cases (is_disk_full cause)) [
        | inl full ↦ rw full (out_of_space cause s refl full left refl gone)
        | inr room ↦ rw room (
            resumable cause refl room left (λ later.
              claim-park registry sess.peer_public_key sess.dest_path sandbox completed
                resume_grace_period now sess.peer_public_key sess.dest_path later
              ∙ rw (==-refl (new_resume_key sess.peer_public_key sess.dest_path)) refl))
      ]

  module _ (L : IsLawful V) where
    Holds-IsLeft :
        (sandbox dest : Bytes) (laid : IsLaidOut sandbox dest) (old got : Option V.Content)
        → (error : CommitError) (t : V.State) → Holds V L sandbox dest laid old got (some error) t
        → IsLeft sandbox dest got (commit_cause error) t
    Holds-IsLeft sandbox dest laid old got (clean_up_old cause) t h = h
    Holds-IsLeft sandbox dest laid old got (create_parent cause) t h = h.1
    Holds-IsLeft sandbox dest laid old got (stat_dest cause) t h = h.1
    Holds-IsLeft sandbox dest laid old got (clear_stale cause) t h = h.1
    Holds-IsLeft sandbox dest laid old got (move_aside cause) t h = h.1
    Holds-IsLeft sandbox dest laid old got (commit_rename cause) t (untouched h) = h.1
    Holds-IsLeft sandbox dest laid old got (commit_rename cause) t (set_aside d n) = n

    commit_received-Ending :
        (sess : Session) (sandbox : Bytes) (laid : IsLaidOut sandbox sess.dest_path)
        → (completed : Dict Bytes Bytes) (received total now : ℕ) (s : V.State)
        → (registry : ResumeRegistry)
        → ((later : ℕ) → (claim registry sess.peer_public_key sess.dest_path later).1 ≡ none)
        → Ending sess sandbox (V.content sandbox s) completed now (
            commit_received V sha256 is_disk_full sess sandbox completed received total now s
              registry)
    unfolding commit_received final_status
    commit_received-Ending sess sandbox laid completed received total now s registry gone =
        let held = commit_sandbox-Holds V L sandbox sess.dest_path laid s in
        elim (Option-cases (commit_sandbox V sandbox sess.dest_path s).1) [
          | inl e ↦ rw (e, commit_received) (done refl (rw e at held) gone)
          | inr (error, e) ↦
              rw (e, commit_received)
                (give_up-Ending sess sandbox (V.content sandbox s) completed received total now
                  (commit_cause error) (commit_sandbox V sandbox sess.dest_path s).0 registry
                  (Holds-IsLeft sandbox sess.dest_path laid _ _ error _ (rw e at held)) gone)
        ]

    receive_into-Ending :
        (sess : Session) (incoming : Incoming) (sandbox : Bytes)
        → (laid : IsLaidOut sandbox sess.dest_path) (before : Dict Bytes Bytes) (now : ℕ)
        → (s : V.State) (registry : ResumeRegistry)
        → ((later : ℕ) → (claim registry sess.peer_public_key sess.dest_path later).1 ≡ none)
        → let (extracted, log, _) = extract_archive V sha256 sandbox incoming.archive s in
          Ending sess sandbox
            (V.content sandbox extracted)
            (note_completed log.completed before)
            now
            (receive_into V sha256 is_disk_full sess incoming sandbox before now s registry)
    unfolding receive_into
    receive_into-Ending sess incoming sandbox laid before now s registry gone =
        let (s', log, e) = extract_archive V sha256 sandbox incoming.archive s in
        let completed = note_completed log.completed before in
        let received = sum_sizes log.completed in
        let got = V.content sandbox s' in
        elim (receive_error-cases e incoming.receive_failed) [
          | inl f ↦
              rw (f, receive_into)
                (commit_received-Ending sess sandbox laid completed received incoming.total_bytes
                  now s' registry gone)
          | inr (inl (error, f)) ↦
              rw (f, receive_into)
                (give_up-Ending sess sandbox got completed received incoming.total_bytes now
                  (extract_cause error) s' registry refl gone)
          | inr (inr (n, f)) ↦
              rw (f, receive_into)
                (give_up-Ending sess sandbox got completed received incoming.total_bytes now
                  (receive_cause n) s' registry refl gone)
        ]

    -- A session whose stream and consumer are there, on a lawful volume, works in the sandbox that its
    -- peer left for its destination, if that has not expired, or in a fresh one; it is laid out
    -- apart from the destination. If the session completes, what the sandbox held after the
    -- extraction is at the destination and there is nothing left to resume. If it fails, the same
    -- peer can claim that sandbox for that destination until the grace period has passed, with every
    -- file that it or an earlier attempt received whole, and what the sandbox held is still in it,
    -- or at the destination when the commit failed only in removing the old copy. If the disk is
    -- full the sandbox is removed and there is nothing to resume.
    pub receive_session-Ending :
        (sess : Session) (incoming : Incoming) (started ended : ℕ) (s : V.State)
        → (registry : ResumeRegistry) → incoming.stream_failed ≡ none
        → incoming.consumer_failed ≡ none
        → IsLaidOut
            (choose_sandbox sess (claim registry sess.peer_public_key sess.dest_path started).1).0
            sess.dest_path
        → let (sandbox, before) =
            choose_sandbox sess (claim registry sess.peer_public_key sess.dest_path started).1 in
          let (extracted, log, _) = extract_archive V sha256 sandbox incoming.archive s in
          Ending sess sandbox
            (V.content sandbox extracted)
            (note_completed log.completed before)
            ended
            (receive_session V sha256 is_disk_full sess incoming started ended s registry)
    unfolding receive_session
    receive_session-Ending sess incoming started ended s registry stream consumer laid =
        let (left, found) = claim registry sess.peer_public_key sess.dest_path started in
        let (sandbox, before) = choose_sandbox sess found in
        let gone : (later : ℕ) → (claim left sess.peer_public_key sess.dest_path later).1 ≡ none =
          λ later.
            claim-claim registry sess.peer_public_key sess.dest_path started sess.peer_public_key
              sess.dest_path later
            ∙ rw (==-refl (new_resume_key sess.peer_public_key sess.dest_path)) refl in
        rw (stream, consumer, receive_session)
          (receive_into-Ending sess incoming sandbox laid before ended s left gone)
