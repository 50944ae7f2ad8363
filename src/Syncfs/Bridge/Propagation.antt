-- ===== src/Syncfs/Bridge/Propagation.antt =====
-- internal/syncfs/bridge.go and encrypt.go: an edit on one node, through the stream, on its peer.
use jsync.Base.{
  ℕ, ◌+◌, ◌^◌, ◌<◌, ◌≡◌, refl, ◌∙◌, ap, Bool, false, none, some, [], ◌∷◌, Bytes, bytes_eq, ◌==◌,
}
use jsync.FilePath.{join}
use jsync.Crypto.Primitives
use jsync.Crypto.Primitives.{Primitives}
use jsync.Syncfs.Version.{component, stored, bump}
use jsync.Syncfs.Version.Order.{Le}
use jsync.Syncfs.Version.Merge.{IsWellFormed}
use jsync.Syncfs.Version.Delivery.{reconcile-bump}
use jsync.Syncfs.Echo.{is_echo}
use jsync.Syncfs.Disk.{Disk, IsLawful}
use jsync.Syncfs.Event.{write, Event, apply}
use jsync.Syncfs.Bridge.{
  modified, published, PublishReply, Node, write_event, publish_write, publish_one,
  apply_event_write, apply_event, open_write, handle_event,
}
use jsync.Syncfs.Bridge.Inbound.{apply_event-enc, apply_event-is_write}
use jsync.Syncfs.Bridge.Outbound.{
  Paired, seal_and_publish-open_write, apply_event_write-read, handle_event-write, settle-node,
  publish_one-edit,
}

module _ (P : Primitives) (LP : Primitives.IsLawful P) (D : Disk) (LD : IsLawful D)
    (content_hash_of : Bytes → Bytes) where
  -- The two nodes, the edit, and what must hold of them: the sender has read the file and it is no
  -- echo, the receiver has seen no write of the path that the sender has not, their chains match,
  -- and the receiver's disk takes the write.
  pub record Edit : Type 0 where
    pub sender : Node P D content_hash_of
    pub receiver : Node P D content_hash_of
    pub machine_id : Bytes
    pub peer_id : Bytes
    pub abs_path : Bytes
    pub rel_path : Bytes
    pub root : Bytes
    pub text : Bytes

  pub record CanPropagate (x : Edit) : Type 0 where
    pub two_machines : (x.machine_id == x.peer_id) ≡ false
    pub was_read : D.read_file x.abs_path x.sender.files ≡ some x.text
    pub no_echo : (is_echo x.sender.echo x.rel_path (content_hash_of x.text)).1 ≡ false
    pub well_formed : IsWellFormed x.sender.versions
    pub counts : component (stored x.sender.versions x.rel_path) x.machine_id + 1 < 2 ^ 64
    pub seen : Le (stored x.receiver.versions x.rel_path) (stored x.sender.versions x.rel_path)
    pub paired : Paired x.sender.enc x.receiver.enc
    pub disk_takes :
        (ev : Event)
        → ev.op ≡ write
        → ev.rel_path ≡ x.rel_path
        → ev.payload ≡ x.text
        → (apply D ev x.root x.receiver.files).1 ≡ none

  -- An edit that the watcher reports on one node, where the conditions of `CanPropagate` hold, is
  -- published as one event, encrypted or not, and its peer, when it handles that event, ends up with
  -- the same content at that path, with the chains again in step, whether or not the server
  -- confirms.
  pub handle_event-publish_one :
      (x : Edit) (reply : PublishReply) (now : Bytes) (ack_fails : Bool) (id : ℕ)
      → CanPropagate x
      → let out =
          publish_one P D content_hash_of x.machine_id
            (modified x.abs_path x.rel_path)
            reply
            x.sender in
        (ev : Event) × (out.sent ≡ ev ∷ [])
        × let got =
            (handle_event P D content_hash_of x.peer_id x.root now ack_fails ev id
              x.receiver).0.node in
          (D.read_file (join x.root x.rel_path) got.files ≡ some x.text)
          × Paired out.node.enc got.enc
  unfolding publish_write
  handle_event-publish_one x reply now ack_fails id h =
      let a = record (x.sender) {
        echo = (is_echo x.sender.echo x.rel_path (content_hash_of x.text)).0;
      } in
      let bumped = bump a.versions x.rel_path x.machine_id in
      let a' = record a { versions = bumped.0 } in
      let clear = write_event P D content_hash_of x.machine_id x.rel_path x.text bumped.1 in
      let out =
        publish_one-edit P D content_hash_of x.machine_id x.abs_path x.rel_path x.text reply
          x.sender h.was_read h.no_echo in
      let (ev, sent, opened, op, origin, paired) =
        seal_and_publish-open_write P D content_hash_of LP clear published reply a.enc
          x.receiver.enc a' refl h.paired in
      let clear' = record clear { seq = ev.seq } in
      let b = record (x.receiver) { enc = (open_write P D content_hash_of ev x.receiver.enc).0 } in
      let handled =
        handle_event-write P D content_hash_of x.peer_id x.root now ack_fails ev clear' id
          x.receiver (rw origin h.two_machines) op opened in
      let settled =
        settle-node P D content_hash_of ack_fails
          (apply_event P D content_hash_of clear' x.root now id b) in
      let as_write = apply_event-is_write P D content_hash_of clear' x.root now id b refl in
      let safe =
        reconcile-bump x.sender.versions x.receiver.versions x.rel_path x.machine_id h.well_formed
          h.counts h.seen in
      let (_, back) =
        apply_event_write-read P D content_hash_of LD clear' x.root now id b refl safe
          (h.disk_takes clear' refl refl refl) in
      let same : (handle_event P D content_hash_of x.peer_id x.root now ack_fails ev id
            x.receiver).0.node
          ≡ (apply_event_write P D content_hash_of clear' x.root now id b).node =
        rw handled (settled ∙ ap (λ e. e.node) as_write) in
      let enc : (handle_event P D content_hash_of x.peer_id x.root now ack_fails ev id
            x.receiver).0.node.enc
          ≡ b.enc =
        rw handled
          (ap (λ n. n.enc) settled ∙ apply_event-enc P D content_hash_of clear' x.root now id b) in
      (ev, rw out sent, (rw same back, rw (out, enc) paired))
