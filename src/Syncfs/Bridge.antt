-- ===== src/Syncfs/Bridge.antt =====
-- internal/syncfs/bridge.go: local changes out to the peer, and the peer's events in to the disk.
pub mod Inbound
pub mod Outbound
pub mod Propagation
use jsync.Base.{
  ℕ, Bool, true, false, Option, none, some, List, [], ◌∷◌, ◌++◌, Bytes, bytes_eq, ◌==◌, length,
  if◌then◌else◌,
}
use jsync.Crypto.Primitives.{Primitives}
use jsync.Crypto.Ratchet
use jsync.Crypto.Ratchet.{Chain, RatchetError}
use jsync.Syncfs.Version.{VersionVector, VersionStore, bump, reconcile}
use jsync.Syncfs.Echo.{
  EchoGuard, mark_applied, mark_removed, is_echo, is_echo_remove, mark_renamed, is_echo_rename,
}
use jsync.Syncfs.Disk.{Disk}
use jsync.Syncfs.Event.{
  Op, write, remove, rename, bootstrap, bootstrap_ack, manifest, reconcile_done, unknown, Event,
  bare_event, ApplyError, ok, err, apply, apply_conflict,
}

pub record Encryption : Type 0 where
  pub send_chain : Chain
  pub recv_chain : Chain
  pub associated_data : Bytes

-- A change of the watcher (internal/watch).
pub data ChangeEvent : Type 0 where
  -- absolute and relative path
  modified : Bytes → Bytes → ChangeEvent
  removed : Bytes → ChangeEvent
  -- old and new relative path
  renamed : Bytes → Bytes → ChangeEvent
  rescan : ChangeEvent

pub data Dir : Type 0 where
  dir_in dir_out : Dir

-- What a log line says of an event, with its conflict path or error.
pub data Outcome : Type 0 where
  published reconciled applied stale rescan_dropped : Outcome
  conflict : Bytes → Outcome
  error : ApplyError → Outcome

pub record LogRecord : Type 0 where
  pub op_id : ℕ
  pub dir : Dir
  pub origin : Bytes
  -- `none` is "rescan"
  pub op : Option Op
  pub rel_path : Bytes
  pub old_rel_path : Bytes
  pub content_hash : Bytes
  pub bytes : ℕ
  pub outcome : Outcome

pub data SyncError : Type 0 where
  publish_failed ack_failed fetch_failed batch_failed cancelled : SyncError
  encrypt_failed decrypt_failed : Bytes → RatchetError → SyncError
  conflict_failed : Bytes → ApplyError → SyncError
  apply_failed : Op → Bytes → ApplyError → SyncError
  unexpected_op : Op → Bytes → SyncError

-- What the program answers to the server for a message.
pub data Reply : Type 0 where
  ack nak : Reply

-- What the server answers to a publish: the sequence in the stream, or an error.
abbrev pub PublishReply : Type 0
PublishReply = Option ℕ

module _ (P : Primitives) (D : Disk) (content_hash_of : Bytes → Bytes) where
  -- The state of one side of a session that both directions share.
  pub record Node : Type 0 where
    pub files : D.State
    pub echo : EchoGuard
    pub versions : VersionStore
    -- `none` is an unencrypted session
    pub enc : Option Encryption

  -- One step: the state after it, what it published, logged and reported as a conflict, its error.
  pub record Effect : Type 0 where
    pub node : Node
    pub sent : List Event
    pub logged : List LogRecord
    pub conflicts : List Bytes
    pub failure : Option SyncError

  abbrev pub quiet : Node → Effect
  quiet node = record { node = node; sent = []; logged = []; conflicts = []; failure = none }

  abbrev pub failed : SyncError → Node → Effect
  failed e node = record (quiet node) { failure = some e }

  abbrev pub logging : LogRecord → Node → Effect
  logging rec node = record (quiet node) { logged = rec ∷ [] }

  -- `publishAck`, and the log line of a success. The event is out even when the answer is lost.
  unfoldable pub publish_logged : Event → (ℕ → LogRecord) → PublishReply → Node → Effect
  publish_logged ev line none node = record (failed publish_failed node) { sent = ev ∷ [] }
  publish_logged ev line (some op_id) node = record (logging (line op_id) node) { sent = ev ∷ [] }

  abbrev pub out_line : Event → Bytes → ℕ → Outcome → ℕ → LogRecord
  out_line ev hash size outcome op_id = record {
    op_id = op_id;
    dir = dir_out;
    origin = ev.origin;
    op = some ev.op;
    rel_path = ev.rel_path;
    old_rel_path = ev.old_rel_path;
    content_hash = hash;
    bytes = size;
    outcome = outcome;
  }

  abbrev pub rescan_line : Bytes → LogRecord
  rescan_line machine_id = record {
    op_id = 0;
    dir = dir_out;
    origin = machine_id;
    op = none;
    rel_path = [];
    old_rel_path = [];
    content_hash = [];
    bytes = 0;
    outcome = rescan_dropped;
  }

  abbrev pub write_event : Bytes → Bytes → Bytes → VersionVector → Event
  write_event machine_id rel_path text version = record (bare_event machine_id write) {
    rel_path = rel_path;
    content_hash = content_hash_of text;
    payload = text;
    version = version;
  }

  -- Encrypt a write if the session is encrypted, and publish it.
  unfoldable pub seal_and_publish :
      Event → Outcome → Option Encryption → PublishReply → Node → Effect
  seal_and_publish ev outcome none reply node =
      publish_logged ev (out_line ev ev.content_hash (length ev.payload) outcome) reply node
  seal_and_publish ev outcome (some enc) reply node =
      let (chain, sealed) = Ratchet.encrypt P enc.send_chain ev.payload enc.associated_data in
      let node' = record node { enc = some (record enc { send_chain = chain }) } in
      elim sealed [
        | Ratchet.err e ↦ failed (encrypt_failed ev.rel_path e) node'
        | Ratchet.ok (ciphertext, seq) ↦
            publish_logged (record ev { payload = ciphertext; seq = seq })
              (out_line ev ev.content_hash (length ev.payload) outcome) reply node'
      ]

  -- A write of this node that is no echo.
  unfoldable pub publish_write : Bytes → Bytes → Bytes → Outcome → PublishReply → Node → Effect
  publish_write machine_id rel_path text outcome reply node =
      let (versions, version) = bump node.versions rel_path machine_id in
      seal_and_publish (write_event machine_id rel_path text version) outcome node.enc reply
        (record node { versions = versions })

  -- Publish an event unless the guard took it for an echo.
  unfoldable pub unless_echo : Event → EchoGuard × Bool → PublishReply → Node → Effect
  unless_echo ev (echo, echoed) reply node =
      let node' = record node { echo = echo } in
      if echoed then quiet node' else publish_logged ev (out_line ev [] 0 published) reply node'

  -- `publishOne`, with the server's answer to the publish that it may make.
  unfoldable pub publish_one : Bytes → ChangeEvent → PublishReply → Node → Effect
  publish_one machine_id rescan reply node = logging (rescan_line machine_id) node
  publish_one machine_id (modified abs_path rel_path) reply node =
      elim (D.read_file abs_path node.files) [
        | none ↦ quiet node
        | some text ↦
            let (echo, echoed) = is_echo node.echo rel_path (content_hash_of text) in
            let node' = record node { echo = echo } in
            if echoed
            then quiet node'
            else publish_write machine_id rel_path text published reply node'
      ]
  publish_one machine_id (removed rel_path) reply node =
      unless_echo (record (bare_event machine_id remove) { rel_path = rel_path })
        (is_echo_remove node.echo rel_path) reply node
  publish_one machine_id (renamed old_rel_path rel_path) reply node =
      unless_echo
        (record (bare_event machine_id rename) { rel_path = rel_path; old_rel_path = old_rel_path })
        (is_echo_rename node.echo old_rel_path rel_path) reply node

  abbrev pub in_line : Event → ℕ → Outcome → LogRecord
  in_line ev op_id outcome = record {
    op_id = op_id;
    dir = dir_in;
    origin = ev.origin;
    op = some ev.op;
    rel_path = ev.rel_path;
    old_rel_path = ev.old_rel_path;
    content_hash = ev.content_hash;
    bytes = elim ev.op [ write ↦ length ev.payload | _ ↦ 0 ];
    outcome = outcome;
  }

  unfoldable pub mark_echo : Op → Event → EchoGuard → EchoGuard
  mark_echo write ev echo = mark_applied echo ev.rel_path ev.content_hash
  mark_echo remove ev echo = mark_removed echo ev.rel_path
  mark_echo rename ev echo = mark_renamed echo ev.old_rel_path ev.rel_path
  mark_echo op ev echo = echo

  -- `Apply`, the mark and the log line.
  unfoldable pub apply_marked : Event → Bytes → ℕ → Node → Effect
  apply_marked ev dest_root op_id node =
      let (files, fails) = apply D ev dest_root node.files in
      let node' = record node { files = files } in
      elim fails [
        | some e ↦ record (failed (apply_failed ev.op ev.rel_path e) node') {
          logged = in_line ev op_id (error e) ∷ [];
        }
        | none ↦
            logging (in_line ev op_id applied)
              (record node' { echo = mark_echo ev.op ev node.echo })
      ]

  -- The content goes aside, and the path it went to is reported.
  unfoldable pub set_aside : Event → Bytes → Bytes → ℕ → Node → Effect
  set_aside ev dest_root now op_id node =
      let (files, result) = apply_conflict D ev dest_root now node.files in
      let node' = record node { files = files } in
      elim result [
        | err e ↦ record (failed (conflict_failed ev.rel_path e) node') {
          logged = in_line ev op_id (error e) ∷ [];
        }
        | ok path ↦ record (logging (in_line ev op_id (conflict path)) node') {
          conflicts = path ∷ [];
        }
      ]

  unfoldable pub apply_event_write : Event → Bytes → Bytes → ℕ → Node → Effect
  apply_event_write ev dest_root now op_id node =
      let (versions, verdict) = reconcile node.versions ev.rel_path ev.version in
      let node' = record node { versions = versions } in
      if verdict.conflict
      then set_aside ev dest_root now op_id node'
      else if verdict.safe
      then apply_marked ev dest_root op_id node'
      else logging (in_line ev op_id stale) node'

  -- `applyEvent`, at a time given as its decimal text.
  unfoldable pub apply_event : Event → Bytes → Bytes → ℕ → Node → Effect
  apply_event ev dest_root now op_id node = elim ev.op [
    | write ↦ apply_event_write ev dest_root now op_id node
    | _ ↦ apply_marked ev dest_root op_id node
  ]

  -- The write of an encrypted session in clear. The chain stays where a failure left it.
  unfoldable pub open_write : Event → Option Encryption → Option Encryption × Ratchet.Result Event
  open_write ev none = (none, Ratchet.ok ev)
  open_write ev (some enc) =
      let (chain, opened) =
        Ratchet.decrypt P enc.recv_chain ev.payload enc.associated_data ev.seq in
      (
        some (record enc { recv_chain = chain }),
        elim opened [
          | Ratchet.err e ↦ Ratchet.err e
          | Ratchet.ok plaintext ↦ Ratchet.ok (record ev { payload = plaintext })
        ],
      )

  -- The answer to the server; an error of the step, or of the last ack, ends the loop.
  unfoldable pub settle : Bool → Effect → Effect × Reply
  settle ack_fails e = elim e.failure [
    | some _ ↦ (e, nak)
    | none ↦ (if ack_fails then record e { failure = some ack_failed } else e, ack)
  ]

  -- A write of the peer: opened whatever becomes of it, then applied.
  unfoldable pub handle_write : Bytes → Bytes → Bool → Event → ℕ → Node → Effect × Reply
  handle_write dest_root now ack_fails ev op_id node =
      let (enc, opened) = open_write ev node.enc in
      let node' = record node { enc = enc } in
      elim opened [
        | Ratchet.err e ↦ (failed (decrypt_failed ev.rel_path e) node', nak)
        | Ratchet.ok clear ↦ settle ack_fails (apply_event clear dest_root now op_id node')
      ]

  unfoldable pub handle_event : Bytes → Bytes → Bytes → Bool → Event → ℕ → Node → Effect × Reply
  handle_event machine_id dest_root now ack_fails ev op_id node =
      if ev.origin == machine_id then (quiet node, ack) else elim ev.op [
        | bootstrap ↦ (quiet node, ack)
        | bootstrap_ack ↦ (quiet node, ack)
        | write ↦ handle_write dest_root now ack_fails ev op_id node
        | _ ↦ settle ack_fails (apply_event ev dest_root now op_id node)
      ]

  -- One message of `ReceiveChanges`; `none` is one that does not parse.
  unfoldable pub handle_message :
      Bytes → Bytes → Bytes → Bool → Option Event → ℕ → Node → Effect × Reply
  handle_message machine_id dest_root now ack_fails none op_id node = (quiet node, nak)
  handle_message machine_id dest_root now ack_fails (some ev) op_id node =
      handle_event machine_id dest_root now ack_fails ev op_id node
