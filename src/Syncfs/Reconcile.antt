-- ===== src/Syncfs/Reconcile.antt =====
-- internal/syncfs/reconcile.go, and awaitControl of encrypt.go: what two nodes exchange before the
-- live loop.
pub mod Diff
pub mod Drain
use jsync.Base.{
  ℕ, Bool, true, false, Option, none, some, List, [], ◌∷◌, ◌++◌, Bytes, bytes_eq, ◌==◌, codes,
  if◌then◌else◌,
}
use jsync.Base.Dict
use jsync.FilePath.{join}
use jsync.Crypto.Primitives.{Primitives}
use jsync.Syncfs.Disk.{Disk}
use jsync.Syncfs.Event.{
  Op, write, remove, rename, bootstrap, bootstrap_ack, manifest, reconcile_done, unknown,
  ManifestEntry, Manifest, Event, bare_event,
}
use jsync.Syncfs.Bridge.{
  reconciled, SyncError, ack_failed, unexpected_op, publish_failed, PublishReply, Node, Effect,
  Reply, ack, nak, quiet, failed, publish_write, handle_write,
}

-- The peer does not have this content at this path.
unfoldable pub needs_push : Bytes → ManifestEntry → Manifest → Bool
needs_push path entry want = elim (Dict.lookup path want) [
  | none ↦ true
  | some want_entry ↦ if want_entry.hash == entry.hash then false else true
]

unfoldable pub diff_paths : Manifest → Manifest → List Bytes
diff_paths [] want = []
diff_paths ((path, entry) ∷ have) want =
    let rest = diff_paths have want in if needs_push path entry want then path ∷ rest else rest

-- The text of a kind on the wire.
unfoldable pub op_text : Op → Bytes
op_text write = codes "write"
op_text remove = codes "remove"
op_text rename = codes "rename"
op_text bootstrap = codes "bootstrap"
op_text bootstrap_ack = codes "bootstrap_ack"
op_text manifest = codes "manifest"
op_text reconcile_done = codes "reconcile_done"
op_text (unknown text) = text

pub data Awaited : Type 0 where
  -- the message, and the deliveries after it
  found : Event → List (Option Event × Bool) → Awaited
  refused : SyncError → Awaited
  waiting : Awaited

-- `awaitControl` on the deliveries in their order, each with whether its ack fails; `none` is one
-- that does not parse.
unfoldable pub await_control : Bytes → Op → List (Option Event × Bool) → Awaited
await_control peer_id want_op [] = waiting
await_control peer_id want_op ((none, ack_fails) ∷ messages) =
    await_control peer_id want_op messages
await_control peer_id want_op ((some ev, ack_fails) ∷ messages) =
    let rest = await_control peer_id want_op messages in
    if ev.origin == peer_id
    then if op_text ev.op == op_text want_op
      then (if ack_fails then refused ack_failed else found ev messages)
      else refused (unexpected_op ev.op ev.origin)
    else rest

module _ (P : Primitives) (D : Disk) (content_hash_of : Bytes → Bytes) where
  unfoldable pub push_reconciled :
      Bytes → Bytes → Bytes → PublishReply → Node P D content_hash_of → Effect P D content_hash_of
  push_reconciled machine_id root rel_path reply node =
      elim (D.read_file (join root rel_path) node.files) [
        | none ↦ quiet P D content_hash_of node
        | some text ↦
            publish_write P D content_hash_of machine_id rel_path text reconciled reply node
      ]

  -- One step after another: what the first sent and logged comes first.
  unfoldable pub after :
      Effect P D content_hash_of → Effect P D content_hash_of → Effect P D content_hash_of
  after first second = record second {
    sent = first.sent ++ second.sent;
    logged = first.logged ++ second.logged;
    conflicts = first.conflicts ++ second.conflicts;
  }

  -- The loop over the difference, each path with the answer to its publish; an error ends it.
  unfoldable pub push_all :
      Bytes
      → Bytes
      → List (Bytes × PublishReply)
      → Node P D content_hash_of
      → Effect P D content_hash_of
  push_all machine_id root [] node = quiet P D content_hash_of node
  push_all machine_id root ((rel_path, reply) ∷ paths) node =
      let first = push_reconciled machine_id root rel_path reply node in
      let rest = push_all machine_id root paths first.node in
      elim first.failure [ some _ ↦ first | none ↦ after first rest ]

  -- `publishReconcileDone` and `publishManifest`.
  unfoldable pub publish_control :
      Event → PublishReply → Node P D content_hash_of → Effect P D content_hash_of
  publish_control ev none node = record (failed P D content_hash_of publish_failed node) {
    sent = ev ∷ [];
  }
  publish_control ev (some _) node = record (quiet P D content_hash_of node) { sent = ev ∷ [] }

  abbrev pub manifest_event : Bytes → Manifest → Event
  manifest_event machine_id local = record (bare_event machine_id manifest) {
    reconcile_manifest = local;
  }

  -- What one message does to the drain.
  pub record Drained : Type 0 where
    pub effect : Effect P D content_hash_of
    pub reply : Reply
    pub done : Bool

  unfoldable pub drain_event :
      Bytes → Bytes → Bytes → Bool → Event → ℕ → Node P D content_hash_of → Drained
  drain_event machine_id dest_root now ack_fails ev op_id node =
      if ev.origin == machine_id
      then record { effect = quiet P D content_hash_of node; reply = ack; done = false }
      else elim ev.op [
        | reconcile_done ↦ record {
          effect = quiet P D content_hash_of node;
          reply = ack;
          done = true;
        }
        | write ↦
            let (effect, reply) =
              handle_write P D content_hash_of dest_root now ack_fails ev op_id node in
            record { effect = effect; reply = reply; done = false }
        | _ ↦ record {
          effect = failed P D content_hash_of (unexpected_op ev.op ev.origin) node;
          reply = nak;
          done = false;
        }
      ]

  -- One message of `drainUntilReconcileDone`; `none` is one that does not parse.
  unfoldable pub drain_message :
      Bytes → Bytes → Bytes → Bool → Option Event → ℕ → Node P D content_hash_of → Drained
  drain_message machine_id dest_root now ack_fails none op_id node = record {
    effect = quiet P D content_hash_of node;
    reply = nak;
    done = false;
  }
  drain_message machine_id dest_root now ack_fails (some ev) op_id node =
      drain_event machine_id dest_root now ack_fails ev op_id node
