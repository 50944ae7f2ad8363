-- ===== src/Syncfs/Bridge/Outbound.antt =====
-- internal/syncfs/bridge.go: what a local change becomes, on this node and on its peer.
use jsync.Base.{
  length, ℕ, ◌≡◌, refl, ap, inl, inr, Bool, true, false, Option, none, some, [], ◌∷◌, Bytes,
  bytes_eq, ◌==◌, arith, Bool-cases, Option-cases,
}
use jsync.FilePath.{join, dir}
use jsync.Crypto.Primitives
use jsync.Crypto.Primitives.{Primitives}
use jsync.Crypto.Ratchet
use jsync.Crypto.Ratchet.Laws.{decrypt-encrypt}
use jsync.Syncfs.Version.{reconcile}
use jsync.Syncfs.Echo.{is_echo, mark_applied}
use jsync.Syncfs.Echo.Laws.{is_echo-mark_applied}
use jsync.Syncfs.Disk.{Disk, IsLawful}
use jsync.Syncfs.Event.{write, Event, safe_path, write_under, apply_write, apply, apply_op}
use jsync.Syncfs.Event.Confined.{Result-cases, safe_path_iff}
use jsync.Syncfs.Bridge.{
  Encryption, modified, LogRecord, out_line, Outcome, published, PublishReply, Node, Effect, quiet,
  publish_logged, seal_and_publish, publish_write, publish_one, apply_marked, apply_event_write,
  apply_event, mark_echo, open_write, settle, handle_write, handle_event,
}

-- The peer can open what this side seals next: both encrypt and the peer's receiving chain is this
-- side's sending chain, or neither encrypts.
abbrev pub Paired : Option Encryption → Option Encryption → Type 0
Paired none none = Unit
Paired (some a) (some b) = (b.recv_chain ≡ a.send_chain) × (b.associated_data ≡ a.associated_data)
Paired _ _ = true ≡ false

Paired-intro :
    {x y : Option Encryption} {a b : Encryption}
    → x ≡ some a
    → y ≡ some b
    → b.recv_chain ≡ a.send_chain
    → b.associated_data ≡ a.associated_data
    → Paired x y
Paired-intro e f p q = rw (e, f) (p, q)

module _ (D : Disk) (L : IsLawful D) where
  write_under-read :
      (target text : Bytes) (s : D.State)
      → (write_under D target text s).1 ≡ none
      → D.read_file target (write_under D target text s).0 ≡ some text
  unfolding write_under
  write_under-read target text s h = elim (Bool-cases (D.mkdir_all (dir target) s).1) [
    | inl e ↦ absurd (ground arith)
    | inr e ↦
        let s' = (D.mkdir_all (dir target) s).0 in
        elim (Bool-cases (D.write_file target text s').1) [
          | inl f ↦ absurd (ground arith)
          | inr f ↦ (let back = L.read-write target text s' f in ground arith)
        ]
  ]

  -- A write that succeeds leaves the event's content at the joined path.
  pub apply_write-read :
      (ev : Event) (root : Bytes) (s : D.State)
      → (apply_write D ev root s).1 ≡ none
      → D.read_file (join root ev.rel_path) (apply_write D ev root s).0 ≡ some ev.payload
  unfolding apply_write
  apply_write-read ev root s h = elim (Result-cases (safe_path root ev.rel_path)) [
    | inl (e, f) ↦ absurd (ground arith)
    | inr (target, f) ↦
        let joined = ((safe_path_iff root ev.rel_path target).0 f).0 in
        let fine : (write_under D target ev.payload s).1 ≡ none = ground arith in
        let back = write_under-read target ev.payload s fine in ground arith
  ]

module _ (P : Primitives) (D : Disk) (content_hash_of : Bytes → Bytes) where
  publish_one-echo :
      (machine_id abs_path rel_path text : Bytes) (reply : PublishReply)
      (node : Node P D content_hash_of)
      → D.read_file abs_path node.files ≡ some text
      → (is_echo node.echo rel_path (content_hash_of text)).1 ≡ true
      → publish_one P D content_hash_of machine_id (modified abs_path rel_path) reply node
        ≡ quiet P D content_hash_of
            (record node { echo = (is_echo node.echo rel_path (content_hash_of text)).0 })
  unfolding publish_one
  publish_one-echo machine_id abs_path rel_path text reply node r e =
      rw (r, publish_one) (rw e refl)

  pub publish_one-edit :
      (machine_id abs_path rel_path text : Bytes) (reply : PublishReply)
      (node : Node P D content_hash_of)
      → D.read_file abs_path node.files ≡ some text
      → (is_echo node.echo rel_path (content_hash_of text)).1 ≡ false
      → publish_one P D content_hash_of machine_id (modified abs_path rel_path) reply node
        ≡ publish_write P D content_hash_of machine_id rel_path text published reply
            (record node { echo = (is_echo node.echo rel_path (content_hash_of text)).0 })
  unfolding publish_one
  publish_one-edit machine_id abs_path rel_path text reply node r e =
      rw (r, publish_one) (rw e refl)

  module _ (LD : IsLawful D) where
    apply_marked-write :
        (ev : Event) (root : Bytes) (id : ℕ) (node : Node P D content_hash_of)
        → ev.op ≡ write
        → let done = apply_marked P D content_hash_of ev root id node in
          done.failure ≡ none
          → (done.node.echo ≡ mark_applied node.echo ev.rel_path ev.content_hash)
            × (D.read_file (join root ev.rel_path) done.node.files ≡ some ev.payload)
    unfolding apply_marked apply apply_op mark_echo
    apply_marked-write ev root id node e h =
        elim (Option-cases (apply_write D ev root node.files).1) [
          | inl fine ↦
              let back = apply_write-read D LD ev root node.files fine in
              (ground arith, ground arith)
          | inr (e', bad) ↦ absurd (ground arith)
        ]

    -- A node does not send back what it received: on a lawful disk, after a write of the peer that
    -- carries the hash of its content is applied without an error, its own watcher's report of that
    -- file publishes nothing and consumes the mark.
    pub publish_one-apply_marked :
        (ev : Event) (root machine_id : Bytes) (id : ℕ) (reply : PublishReply)
        (node : Node P D content_hash_of)
        → ev.op ≡ write
        → ev.content_hash ≡ content_hash_of ev.payload
        → let done = apply_marked P D content_hash_of ev root id node in
          done.failure ≡ none
          → publish_one P D content_hash_of machine_id
              (modified (join root ev.rel_path) ev.rel_path)
              reply
              done.node
            ≡ quiet P D content_hash_of (record (done.node) {
              echo = (is_echo done.node.echo ev.rel_path (content_hash_of ev.payload)).0;
            })
    publish_one-apply_marked ev root machine_id id reply node e same h =
        let done = apply_marked P D content_hash_of ev root id node in
        let (marked, back) = apply_marked-write ev root id node e h in
        let echoed =
          (is_echo-mark_applied node.echo ev.rel_path ev.content_hash ev.content_hash).0 in
        publish_one-echo machine_id (join root ev.rel_path) ev.rel_path ev.payload reply done.node
          back (rw (marked, ← same) echoed)

  publish_logged-sent :
      (ev : Event) (line : ℕ → LogRecord) (reply : PublishReply) (node : Node P D content_hash_of)
      → let done = publish_logged P D content_hash_of ev line reply node in
        (done.sent ≡ ev ∷ []) × (done.node ≡ node)
  unfolding publish_logged
  publish_logged-sent ev line none node = (refl, refl)
  publish_logged-sent ev line (some id) node = (refl, refl)

  -- What is sealed and published, the peer opens: the message carries the event, and the pair stays
  -- a pair.
  pub seal_and_publish-open_write :
      Primitives.IsLawful P
      → (ev : Event) (outcome : Outcome) (reply : PublishReply) (ours theirs : Option Encryption)
        (node : Node P D content_hash_of)
      → node.enc ≡ ours
      → Paired ours theirs
      → let done = seal_and_publish P D content_hash_of ev outcome ours reply node in
        (sent : Event) × (done.sent ≡ sent ∷ [])
        × ((open_write P D content_hash_of sent theirs).1
            ≡ Ratchet.ok (record ev { seq = sent.seq }))
        × (sent.op ≡ ev.op)
        × (sent.origin ≡ ev.origin)
        × Paired done.node.enc (open_write P D content_hash_of sent theirs).0
  unfolding seal_and_publish open_write
  seal_and_publish-open_write LP ev outcome reply none none node e p =
      let line = out_line P D content_hash_of ev ev.content_hash (length ev.payload) outcome in
      let (sent, kept) = publish_logged-sent ev line reply node in
      (ev, sent, refl, refl, refl, rw (kept, e) tt)
  seal_and_publish-open_write LP ev outcome reply (some a) none node e p = absurd (ground arith)
  seal_and_publish-open_write LP ev outcome reply none (some b) node e p = absurd (ground arith)
  seal_and_publish-open_write LP ev outcome reply (some a) (some b) node e (p, q) =
      let (chain, cipher, sealed, opened, _) =
        decrypt-encrypt P LP a.send_chain ev.payload a.associated_data in
      let sent = record ev { payload = cipher; seq = a.send_chain.n } in
      let node' = record node { enc = some (record a { send_chain = chain }) } in
      let line = out_line P D content_hash_of ev ev.content_hash (length ev.payload) outcome in
      let (out, kept) = publish_logged-sent sent line reply node' in
      let same : Ratchet.decrypt P b.recv_chain cipher b.associated_data a.send_chain.n
          ≡ (chain, Ratchet.ok ev.payload) =
        rw (p, q) opened in
      let published_as : seal_and_publish P D content_hash_of ev outcome (some a) reply node
          ≡ publish_logged P D content_hash_of sent line reply node' =
        ground arith in
      let opened_as : open_write P D content_hash_of sent (some b) ≡ (
        some (record b { recv_chain = chain }),
        Ratchet.ok (record ev { seq = a.send_chain.n }),
      ) =
        ground arith in
      (
        sent,
        rw published_as out,
        rw opened_as refl,
        refl,
        refl,
        Paired-intro {a = record a { send_chain = chain }} {b = record b { recv_chain = chain }}
            (rw (published_as, kept) refl) (ap (λ r. r.0) opened_as) refl q,
      )

  -- A safe write that the disk takes leaves its content in place.
  pub apply_event_write-read :
      IsLawful D
      → (ev : Event) (root now : Bytes) (id : ℕ) (node : Node P D content_hash_of) → ev.op ≡ write
      → (reconcile node.versions ev.rel_path ev.version).1
        ≡ record { safe = true; conflict = false }
      → (apply D ev root node.files).1 ≡ none
      → let done = apply_event_write P D content_hash_of ev root now id node in
        (done.failure ≡ none)
        × (D.read_file (join root ev.rel_path) done.node.files ≡ some ev.payload)
  unfolding apply_event_write
  apply_event_write-read LD ev root now id node e safe h =
      let node' = record node { versions = (reconcile node.versions ev.rel_path ev.version).0 } in
      let fine : (apply_marked P D content_hash_of ev root id node').failure ≡ none =
        unfold apply_marked in ground arith in
      let (_, back) = apply_marked-write LD ev root id node' e fine in rw safe (fine, back)

  pub handle_event-write :
      (machine_id root now : Bytes) (ack_fails : Bool) (ev clear : Event) (id : ℕ)
      (node : Node P D content_hash_of)
      → (ev.origin == machine_id) ≡ false
      → ev.op ≡ write
      → (open_write P D content_hash_of ev node.enc).1 ≡ Ratchet.ok clear
      → handle_event P D content_hash_of machine_id root now ack_fails ev id node
        ≡ settle P D content_hash_of ack_fails (
            apply_event P D content_hash_of clear root now id
              (record node { enc = (open_write P D content_hash_of ev node.enc).0 }))
  unfolding handle_event handle_write
  handle_event-write machine_id root now ack_fails ev clear id node o e opened = ground arith

  pub settle-node :
      (ack_fails : Bool) (e : Effect P D content_hash_of)
      → (settle P D content_hash_of ack_fails e).0.node ≡ e.node
  unfolding settle
  settle-node ack_fails e = ground arith
