-- ===== src/Syncfs/Bridge/Inbound.antt =====
-- internal/syncfs/bridge.go: what an event of the peer does, the branches together.
use jsync.Base.{ℕ, ◌≡◌, refl, Bytes, bytes_eq, arith}
use jsync.Base.Dict
use jsync.Crypto.Primitives.{Primitives}
use jsync.Syncfs.Version.{stored, reconcile}
use jsync.Syncfs.Version.Order.{Le}
use jsync.Syncfs.Version.Merge.{IsWellFormed, component-reconcile}
use jsync.Syncfs.Version.Delivery.{reconcile-seen}
use jsync.Syncfs.Disk.{Disk}
use jsync.Syncfs.Event.{write, Event}
use jsync.Syncfs.Bridge.{
  stale, Node, apply_marked, set_aside, apply_event_write, apply_event, logging, in_line,
}

module _ (P : Primitives) (D : Disk) (content_hash_of : Bytes → Bytes) where
  -- Applying or setting aside an event never changes the versions.
  apply_marked-versions :
      (ev : Event) (root : Bytes) (id : ℕ) (node : Node P D content_hash_of)
      → (apply_marked P D content_hash_of ev root id node).node.versions ≡ node.versions
  unfolding apply_marked
  apply_marked-versions ev root id node = ground arith

  set_aside-versions :
      (ev : Event) (root now : Bytes) (id : ℕ) (node : Node P D content_hash_of)
      → (set_aside P D content_hash_of ev root now id node).node.versions ≡ node.versions
  unfolding set_aside
  set_aside-versions ev root now id node = ground arith

  apply_event_write-versions :
      (ev : Event) (root now : Bytes) (id : ℕ) (node : Node P D content_hash_of)
      → (apply_event_write P D content_hash_of ev root now id node).node.versions
        ≡ (reconcile node.versions ev.rel_path ev.version).0
  unfolding apply_event_write
  apply_event_write-versions ev root now id node =
      let node' = record node { versions = (reconcile node.versions ev.rel_path ev.version).0 } in
      ground
        (arith, set_aside-versions ev root now id node', apply_marked-versions ev root id node')

  -- Nor does it touch the chains.
  apply_marked-enc :
      (ev : Event) (root : Bytes) (id : ℕ) (node : Node P D content_hash_of)
      → (apply_marked P D content_hash_of ev root id node).node.enc ≡ node.enc
  unfolding apply_marked
  apply_marked-enc ev root id node = ground arith

  set_aside-enc :
      (ev : Event) (root now : Bytes) (id : ℕ) (node : Node P D content_hash_of)
      → (set_aside P D content_hash_of ev root now id node).node.enc ≡ node.enc
  unfolding set_aside
  set_aside-enc ev root now id node = ground arith

  pub apply_event-enc :
      (ev : Event) (root now : Bytes) (id : ℕ) (node : Node P D content_hash_of)
      → (apply_event P D content_hash_of ev root now id node).node.enc ≡ node.enc
  unfolding apply_event apply_event_write
  apply_event-enc ev root now id node =
      let node' = record node { versions = (reconcile node.versions ev.rel_path ev.version).0 } in
      ground (
        arith,
        set_aside-enc ev root now id node',
        apply_marked-enc ev root id node',
        apply_marked-enc ev root id node,
      )

  -- A write that the node has seen changes nothing and is logged as stale.
  apply_event-seen :
      (ev : Event) (root now : Bytes) (id : ℕ) (node : Node P D content_hash_of)
      → ev.op ≡ write
      → Le ev.version (stored node.versions ev.rel_path)
      → apply_event P D content_hash_of ev root now id node
        ≡ logging P D content_hash_of (in_line P D content_hash_of ev id stale) node
  unfolding apply_event apply_event_write
  apply_event-seen ev root now id node e le =
      rw (e, reconcile-seen node.versions ev.rel_path ev.version le) refl

  pub apply_event-is_write :
      (ev : Event) (root now : Bytes) (id : ℕ) (node : Node P D content_hash_of)
      → ev.op ≡ write
      → apply_event P D content_hash_of ev root now id node
        ≡ apply_event_write P D content_hash_of ev root now id node
  unfolding apply_event
  apply_event-is_write ev root now id node e = ground arith

  -- For a store and a vector that list each machine once, a write that is delivered again right
  -- away is stale: whatever became of it the first time, the second delivery changes nothing.
  pub apply_event-again :
      (ev : Event) (root now now' : Bytes) (id id' : ℕ) (node : Node P D content_hash_of)
      → ev.op ≡ write
      → IsWellFormed node.versions
      → Dict.NodupKeys ev.version
      → let first = apply_event P D content_hash_of ev root now id node in
        apply_event P D content_hash_of ev root now' id' first.node
        ≡ logging P D content_hash_of (in_line P D content_hash_of ev id' stale) first.node
  apply_event-again ev root now now' id id' node e w h =
      let first = apply_event_write P D content_hash_of ev root now id node in
      let known = apply_event_write-versions ev root now id node in
      let le : Le ev.version (stored first.node.versions ev.rel_path) = λ k.
        rw known (ground (arith, component-reconcile node.versions ev.rel_path ev.version k w h)) in
      rw (apply_event-is_write ev root now id node e)
        (apply_event-seen ev root now' id' first.node e le)
