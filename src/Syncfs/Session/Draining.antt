-- ===== src/Syncfs/Session/Draining.antt =====
-- internal/syncfs/reconcile.go: the loop of drainUntilReconcileDone beside that of ReceiveChanges.
use jsync.Base.{
  ℕ, ◌≡◌, refl, sym, ◌⊎◌, inl, inr, Bool, true, false, Option, none, some, List, [], ◌∷◌, ◌++◌,
  Bytes, bytes_eq, ◌==◌, ap, arith, All, if◌then◌else◌, ◌∙◌,
}
use jsync.Crypto.Primitives.{Primitives}
use jsync.Syncfs.Disk.{Disk}
use jsync.Syncfs.Event.{write, reconcile_done, Event}
use jsync.Syncfs.Bridge.{SyncError, Node, Effect, handle_message, handle_event}
use jsync.Syncfs.Reconcile.{after, drain_message, drain_event}
use jsync.Syncfs.Session.{Delivery, receive_changes, drain}

-- A delivery that the exchange of files brings: it does not parse, is an own message come back, or
-- is a write.
abbrev pub IsExchanged : Bytes → Option Event → Type 0
IsExchanged machine_id none = Unit
IsExchanged machine_id (some ev) = ((ev.origin == machine_id) ≡ true) ⊎ (ev.op ≡ write)

module _ (P : Primitives) (D : Disk) (content_hash_of : Bytes → Bytes) where
  -- The drain does with such a delivery what the live loop does with it, and goes on.
  drain_message-handle_message :
      (machine_id root now : Bytes) (ack_fails : Bool) (event : Option Event) (id : ℕ)
      (node : Node P D content_hash_of)
      → IsExchanged machine_id event
      → let d = drain_message P D content_hash_of machine_id root now ack_fails event id node in
        (d.done ≡ false)
        × (d.effect
            ≡ (handle_message P D content_hash_of machine_id root now ack_fails event id node).0)
  unfolding drain_message drain_event handle_message handle_event
  drain_message-handle_message machine_id root now ack_fails none id node h = (refl, refl)
  drain_message-handle_message machine_id root now ack_fails (some ev) id node (inl e) =
      (ground arith, ground arith)
  drain_message-handle_message machine_id root now ack_fails (some ev) id node (inr e) =
      (ground arith, ground arith)

  -- Whether a loop that ended so has seen the end marker.
  abbrev pub is_complete : Effect P D content_hash_of → Bool
  is_complete applied = elim applied.failure [ some _ ↦ false | none ↦ true ]

  -- A step of the drain and what the rest of it did.
  abbrev go_on :
      Bool
      → Effect P D content_hash_of
      → Effect P D content_hash_of × Bool
      → Effect P D content_hash_of × Bool
  go_on done step rest = if done then (step, true) else elim step.failure [
    | some _ ↦ (step, false)
    | none ↦ (after P D content_hash_of step rest.0, rest.1)
  ]

  go_on-is_complete :
      (first rest : Effect P D content_hash_of) (failure : Option SyncError)
      → first.failure ≡ failure
      → let whole : Effect P D content_hash_of = elim failure [
        | some _ ↦ first
        | none ↦ after P D content_hash_of first rest
      ] in
        let seen : Effect P D content_hash_of × Bool = elim failure [
          | some _ ↦ (first, false)
          | none ↦ (after P D content_hash_of first rest, is_complete rest)
        ] in
        seen ≡ (whole, is_complete whole)
  unfolding after
  go_on-is_complete first rest none e = refl
  go_on-is_complete first rest (some y) e =
      ap (λ f. (first, elim f [ some _ ↦ false | none ↦ true ])) (sym e)

  -- When only writes, own messages and such as do not parse come before the peer's end marker, the
  -- drain does with them what the live loop does, reads nothing after the marker, and has seen it
  -- exactly when none of them failed.
  pub drain-receive_changes :
      (machine_id root : Bytes) (before later : List Delivery) (d : Delivery) (ev : Event)
      (node : Node P D content_hash_of)
      → All (λ delivery. IsExchanged machine_id delivery.event) before
      → d.event ≡ some ev
      → ev.op ≡ reconcile_done
      → (ev.origin == machine_id) ≡ false
      → let applied = receive_changes P D content_hash_of machine_id root before node in
        drain P D content_hash_of machine_id root (before ++ (d ∷ later)) node
        ≡ (applied, is_complete applied)
  unfolding drain receive_changes drain_message drain_event
  drain-receive_changes machine_id root [] later d ev node h e f g = rw (e, g, f) refl
  drain-receive_changes machine_id root (b ∷ before) later d ev node h e f g =
      let (goes_on, same) =
        drain_message-handle_message machine_id root b.now b.ack_fails b.event b.op_id node h.0 in
      let step =
        drain_message P D content_hash_of machine_id root b.now b.ack_fails b.event b.op_id node in
      let first =
        (handle_message P D content_hash_of machine_id root b.now b.ack_fails b.event b.op_id
          node).0 in
      let rest_after : Effect P D content_hash_of → Effect P D content_hash_of × Bool =
        λ effect. drain P D content_hash_of machine_id root (before ++ (d ∷ later)) effect.node in
      ap (λ done. go_on done step.effect (rest_after step.effect)) goes_on
      ∙ ap (λ effect. go_on false effect (rest_after effect)) same
      ∙ ap (go_on false first)
          (drain-receive_changes machine_id root before later d ev first.node h.1 e f g)
      ∙ go_on-is_complete first
          (receive_changes P D content_hash_of machine_id root before first.node) first.failure refl
