-- ===== src/Syncfs/Session.antt =====
-- internal/syncfs/bridge.go, encrypt.go and reconcile.go: the loops of a session, its bootstrap
-- messages and the initial reconciliation as a whole. A cancelled context is where a list ends.
pub mod Draining
pub mod Scanning
use jsync.Base.{
  ℕ, ◌⊎◌, inl, inr, map, Bool, true, false, Option, none, some, List, [], ◌∷◌, Bytes, bytes_eq,
  length, if◌then◌else◌,
}
use jsync.Base.Dict
use jsync.FilePath.{rel}
use jsync.Crypto.Primitives.{Primitives}
use jsync.Syncfs.Disk.{Disk}
use jsync.Syncfs.Event.{
  bootstrap, bootstrap_ack, manifest, reconcile_done, Manifest, Event, bare_event,
}
use jsync.Syncfs.Bridge.{
  PublishReply, Node, Effect, ChangeEvent, quiet, failed, publish_one, handle_message,
}
use jsync.Syncfs.Reconcile.{
  diff_paths, Awaited, found, refused, waiting, await_control, after, push_all, publish_control,
  manifest_event, drain_message,
}

-- A tree as `ScanManifest` walks it, each entry with its full path: one that the walk reports an error
-- for, a directory, and any other entry with its content, which is `none` for a link and
-- for what cannot be looked at, opened or read to its end.
mutual
  pub data Scanned : Type 0 where
    broken : Scanned
    entry : Bytes → Option Bytes → Scanned
    folder : Bytes → ScannedList → Scanned

  pub data ScannedList : Type 0 where
    nil : ScannedList
    cons : Scanned → ScannedList → ScannedList

module _ (content_hash_of : Bytes → Bytes) (excludes : Bytes → Bool) where
  unfoldable pub scan_file : Bytes → Bytes → Option Bytes → Manifest → Manifest
  scan_file root path content m = elim (rel root path) [
    | none ↦ m
    | some r ↦ if excludes r then m else elim content [
      | none ↦ m
      | some text ↦ Dict.insert r (record { hash = content_hash_of text; size = length text }) m
    ]
  ]

  -- `none` is an error, which ends the walk. A directory without a relative path is entered.
  unfoldable mutual
    pub scan_tree : Bytes → Scanned → Manifest → Option Manifest
    scan_tree root broken m = none
    scan_tree root (entry path content) m = some (scan_file root path content m)
    scan_tree root (folder path entries) m =
        let entered = scan_list root entries m in
        elim (rel root path) [ none ↦ entered | some r ↦ if excludes r then some m else entered ]

    pub scan_list : Bytes → ScannedList → Manifest → Option Manifest
    scan_list root nil m = some m
    scan_list root (cons t ts) m = elim (scan_tree root t m) [
      | none ↦ none
      | some m' ↦ scan_list root ts m'
    ]

  -- The entries below the root; the root itself is not looked at.
  unfoldable pub scan_manifest : Bytes → ScannedList → Option Manifest
  scan_manifest root entries = scan_list root entries []

-- The two bootstrap messages.
unfoldable pub bootstrap_event : Bytes → Bytes → Bytes → ℕ → Event
bootstrap_event machine_id initiator_dh_pub ephemeral_pub used_otp_id =
    record (bare_event machine_id bootstrap) {
      bootstrap_initiator_dh_pub = initiator_dh_pub;
      bootstrap_ephemeral_pub = ephemeral_pub;
      bootstrap_used_otp_id = used_otp_id;
    }

unfoldable pub bootstrap_ack_event : Bytes → Bytes → Event
bootstrap_ack_event machine_id ephemeral_pub = record (bare_event machine_id bootstrap_ack) {
  bootstrap_ephemeral_pub = ephemeral_pub;
}

-- What the peer's message brings, with the deliveries after it; `inl` is not yet or an error.
unfoldable pub receive_bootstrap :
    Bytes
    → List (Option Event × Bool)
    → Awaited ⊎ ((Bytes × Bytes × ℕ) × List (Option Event × Bool))
receive_bootstrap peer_id messages = elim (await_control peer_id bootstrap messages) [
  | found ev rest ↦
      inr (
        (ev.bootstrap_initiator_dh_pub, ev.bootstrap_ephemeral_pub, ev.bootstrap_used_otp_id),
        rest,
      )
  | refused e ↦ inl (refused e)
  | waiting ↦ inl waiting
]

unfoldable pub receive_bootstrap_ack :
    Bytes → List (Option Event × Bool) → Awaited ⊎ (Bytes × List (Option Event × Bool))
receive_bootstrap_ack peer_id messages = elim (await_control peer_id bootstrap_ack messages) [
  | found ev rest ↦ inr (ev.bootstrap_ephemeral_pub, rest)
  | refused e ↦ inl (refused e)
  | waiting ↦ inl waiting
]

unfoldable pub receive_manifest :
    Bytes → List (Option Event × Bool) → Awaited ⊎ (Manifest × List (Option Event × Bool))
receive_manifest peer_id messages = elim (await_control peer_id manifest messages) [
  | found ev rest ↦ inr (ev.reconcile_manifest, rest)
  | refused e ↦ inl (refused e)
  | waiting ↦ inl waiting
]

-- One message as the server delivers it: `none` does not parse; its number in the stream, the time as
-- decimal text, and whether its ack will fail.
pub record Delivery : Type 0 where
  pub event : Option Event
  pub op_id : ℕ
  pub now : Bytes
  pub ack_fails : Bool

module _ (P : Primitives) (D : Disk) (content_hash_of : Bytes → Bytes) where
  -- `PublishChanges`: the changes in their order, each with the answer to its publish, up to the
  -- first error.
  unfoldable pub publish_changes :
      Bytes
      → List (ChangeEvent × PublishReply)
      → Node P D content_hash_of
      → Effect P D content_hash_of
  publish_changes machine_id [] node = quiet P D content_hash_of node
  publish_changes machine_id ((change, reply) ∷ changes) node =
      let first = publish_one P D content_hash_of machine_id change reply node in
      let rest = publish_changes machine_id changes first.node in
      elim first.failure [ some _ ↦ first | none ↦ after P D content_hash_of first rest ]

  -- `ReceiveChanges`: the deliveries in their order, up to the first error.
  unfoldable pub receive_changes :
      Bytes → Bytes → List Delivery → Node P D content_hash_of → Effect P D content_hash_of
  receive_changes machine_id dest_root [] node = quiet P D content_hash_of node
  receive_changes machine_id dest_root (d ∷ deliveries) node =
      let (first, reply) =
        handle_message P D content_hash_of machine_id dest_root d.now d.ack_fails d.event d.op_id
          node in
      let rest = receive_changes machine_id dest_root deliveries first.node in
      elim first.failure [ some _ ↦ first | none ↦ after P D content_hash_of first rest ]

  -- `drainUntilReconcileDone`, and whether the peer's end was seen.
  unfoldable pub drain :
      Bytes → Bytes → List Delivery → Node P D content_hash_of → Effect P D content_hash_of × Bool
  drain machine_id dest_root [] node = (quiet P D content_hash_of node, false)
  drain machine_id dest_root (d ∷ deliveries) node =
      let step =
        drain_message P D content_hash_of machine_id dest_root d.now d.ack_fails d.event d.op_id
          node in
      let (rest, seen) = drain machine_id dest_root deliveries step.effect.node in
      if step.done then (step.effect, true) else elim step.effect.failure [
        | some _ ↦ (step.effect, false)
        | none ↦ (after P D content_hash_of step.effect rest, seen)
      ]

  -- What the server answers and delivers in a reconciliation.
  pub record Exchange : Type 0 where
    pub manifest_reply : PublishReply
    pub control : List (Option Event × Bool)
    pub push_reply : Bytes → PublishReply
    pub done_reply : PublishReply
    pub deliveries : List Delivery

  -- One step, and the next from the state that it leaves if it did not fail.
  unfoldable pub and_then :
      Effect P D content_hash_of
      → (Node P D content_hash_of → Effect P D content_hash_of)
      → Effect P D content_hash_of
  and_then first next = elim first.failure [
    | some _ ↦ first
    | none ↦ after P D content_hash_of first (next first.node)
  ]

  unfoldable pub push_differences :
      Bytes
      → Bytes
      → Manifest
      → Manifest
      → Exchange
      → Node P D content_hash_of
      → Effect P D content_hash_of
  push_differences machine_id root local peer x node =
      push_all P D content_hash_of machine_id root
        (map (λ path. (path, x.push_reply path)) (diff_paths local peer)) node

  -- `Reconcile`, once the own root is scanned. While the peer's manifest is not there it waits.
  unfoldable pub reconcile_roots :
      Bytes
      → Bytes
      → Bytes
      → Manifest
      → Exchange
      → Node P D content_hash_of
      → Effect P D content_hash_of
  reconcile_roots machine_id peer_id root local x node =
      and_then
        (publish_control P D content_hash_of (manifest_event P D content_hash_of machine_id local)
          x.manifest_reply node)
        λ node. elim (receive_manifest peer_id x.control) [
          | inl (refused e) ↦ failed P D content_hash_of e node
          | inl _ ↦ quiet P D content_hash_of node
          | inr (peer, _) ↦ and_then (push_differences machine_id root local peer x node) λ node.
              and_then
                (publish_control P D content_hash_of (bare_event machine_id reconcile_done)
                  x.done_reply node)
                λ node. (drain machine_id root x.deliveries node).0
        ]
