-- ===== src/Syncfs/Reconcile/Drain.antt =====
-- internal/syncfs/reconcile.go and encrypt.go: the messages of the exchange before the live loop.
use jsync.Base.{
  ℕ, ◌≡◌, refl, ap, subst, ◌∙◌, ◌↔◌, inl, inr, Bool-cases, Bool, true, false, Option, none, some,
  List, [], ◌∷◌, ◌++◌, Bytes, bytes_eq, ◌==◌, ==-refl, arith, All, if◌then◌else◌,
}
use jsync.Crypto.Primitives.{Primitives}
use jsync.Syncfs.Disk.{Disk}
use jsync.Syncfs.Event.{Op, write, reconcile_done, Event}
use jsync.Syncfs.Bridge.{ack_failed, unexpected_op, Node, handle_event, quiet}
use jsync.Syncfs.Reconcile.{op_text, found, refused, waiting, await_control, drain_event}

-- A delivery that `awaitControl` passes over: it does not parse, or is not the peer's.
abbrev pub IsPassedOver : Bytes → Option Event × Bool → Type 0
IsPassedOver peer_id (none, _) = Unit
IsPassedOver peer_id (some ev, _) = (ev.origin == peer_id) ≡ false

-- After any deliveries that do not parse or are not the peer's, the peer's first message decides:
-- the wanted kind is returned with the rest left, unless its ack fails, and any other is refused.
await_control-peer :
    (peer_id : Bytes) (want_op : Op) (before after : List (Option Event × Bool)) (ev : Event)
    (ack_fails : Bool)
    → All (IsPassedOver peer_id) before
    → ev.origin ≡ peer_id
    → await_control peer_id want_op (before ++ ((some ev, ack_fails) ∷ after)) ≡ (
        if op_text ev.op == op_text want_op
        then (if ack_fails then refused ack_failed else found ev after)
        else refused (unexpected_op ev.op ev.origin))
unfolding await_control
await_control-peer peer_id want_op [] after ev ack_fails h e = rw (e, ==-refl peer_id) refl
await_control-peer peer_id want_op ((none, f) ∷ before) after ev ack_fails h e =
    await_control-peer peer_id want_op before after ev ack_fails h.1 e
await_control-peer peer_id want_op ((some other, f) ∷ before) after ev ack_fails h e =
    rw h.0 (await_control-peer peer_id want_op before after ev ack_fails h.1 e)

-- The deliveries lead to this message, with these after it.
pub record Arrives (peer_id : Bytes) (want_op : Op) (messages : List (Option Event × Bool))
    (ev : Event) (rest : List (Option Event × Bool)) : Type 0 where
  pub before : List (Option Event × Bool)
  pub passed : All (IsPassedOver peer_id) before
  pub split : messages ≡ before ++ ((some ev, false) ∷ rest)
  pub from : ev.origin ≡ peer_id
  pub kind : op_text ev.op ≡ op_text want_op

Arrives-cons :
    (peer_id : Bytes) (want_op : Op) (m : Option Event × Bool)
    → (messages : List (Option Event × Bool)) (ev : Event) (rest : List (Option Event × Bool))
    → IsPassedOver peer_id m
    → Arrives peer_id want_op messages ev rest
    → Arrives peer_id want_op (m ∷ messages) ev rest
Arrives-cons peer_id want_op m messages ev rest p a = record {
  before = m ∷ a.before;
  passed = (p, a.passed);
  split = ap (λ ms. m ∷ ms) a.split;
  from = a.from;
  kind = a.kind;
}

await_control-Arrives :
    (peer_id : Bytes) (want_op : Op) (messages : List (Option Event × Bool)) (ev : Event)
    (rest : List (Option Event × Bool))
    → await_control peer_id want_op messages ≡ found ev rest
    → Arrives peer_id want_op messages ev rest
unfolding await_control
await_control-Arrives peer_id want_op [] ev rest h = absurd (ground arith)
await_control-Arrives peer_id want_op ((none, f) ∷ messages) ev rest h =
    Arrives-cons peer_id want_op (none, f) messages ev rest tt
      (await_control-Arrives peer_id want_op messages ev rest h)
await_control-Arrives peer_id want_op ((some other, f) ∷ messages) ev rest h =
    elim (Bool-cases (other.origin == peer_id)) [
      | inl mine ↦ elim (Bool-cases (op_text other.op == op_text want_op)) [
        | inr k ↦ absurd (ground arith)
        | inl k ↦ elim (Bool-cases f) [
          | inl fails ↦ absurd (ground arith)
          | inr ok ↦
              let hit : found other messages ≡ found ev rest = ground arith in
              let same : other ≡ ev = cc hit in
              let left : messages ≡ rest = cc hit in
              record {
                before = [];
                passed = tt;
                split = cc (same, left, ok);
                from =
                    subst (λ e. e.origin ≡ peer_id) same
                      ((bytes_eq.beq_iff other.origin peer_id).0 mine);
                kind =
                    subst (λ e. op_text e.op ≡ op_text want_op) same
                      ((bytes_eq.beq_iff (op_text other.op) (op_text want_op)).0 k);
              }
        ]
      ]
      | inr e ↦
          Arrives-cons peer_id want_op (some other, f) messages ev rest e
            (await_control-Arrives peer_id want_op messages ev rest (ground arith))
    ]

Arrives-await_control :
    (peer_id : Bytes) (want_op : Op) (messages : List (Option Event × Bool)) (ev : Event)
    (rest : List (Option Event × Bool))
    → Arrives peer_id want_op messages ev rest
    → await_control peer_id want_op messages ≡ found ev rest
Arrives-await_control peer_id want_op messages ev rest a =
    ap (await_control peer_id want_op) a.split
    ∙ await_control-peer peer_id want_op a.before rest ev false a.passed a.from
    ∙ rw (a.kind, ==-refl (op_text want_op)) refl

await_control-waiting :
    (peer_id : Bytes) (want_op : Op) (messages : List (Option Event × Bool))
    → (await_control peer_id want_op messages ≡ waiting) ↔ All (IsPassedOver peer_id) messages
unfolding await_control
await_control-waiting peer_id want_op [] = (λ h. tt, λ h. refl)
await_control-waiting peer_id want_op ((none, f) ∷ messages) =
    let (to, from) = await_control-waiting peer_id want_op messages in
    (λ h. (tt, to h), λ h. from h.1)
await_control-waiting peer_id want_op ((some ev, f) ∷ messages) =
    let (to, from) = await_control-waiting peer_id want_op messages in
    elim (Bool-cases (ev.origin == peer_id)) [
      | inl mine ↦ (λ h. absurd (ground arith), λ h. (let no = h.0 in absurd (ground arith)))
      | inr e ↦ (λ h. (e, to (ground arith)), λ h. (let rest = from h.1 in ground arith))
    ]

-- A message is returned exactly when it is the first one of the peer, is of the wanted kind and its
-- ack does not fail, and then the deliveries after it are left. Nothing is returned or refused yet
-- exactly when all deliveries so far do not parse or are not the peer's.
pub await_control_iff :
    (peer_id : Bytes) (want_op : Op) (messages : List (Option Event × Bool)) (ev : Event)
    (rest : List (Option Event × Bool))
    → ((await_control peer_id want_op messages ≡ found ev rest)
        ↔ Arrives peer_id want_op messages ev rest)
      × ((await_control peer_id want_op messages ≡ waiting) ↔ All (IsPassedOver peer_id) messages)
await_control_iff peer_id want_op messages ev rest = (
  (
    await_control-Arrives peer_id want_op messages ev rest,
    Arrives-await_control peer_id want_op messages ev rest,
  ),
  await_control-waiting peer_id want_op messages,
)

module _ (P : Primitives) (D : Disk) (content_hash_of : Bytes → Bytes) where
  -- The drain does with a write what the live loop does with it, and goes on.
  drain_event-write :
      (machine_id root now : Bytes) (ack_fails : Bool) (ev : Event) (id : ℕ)
      (node : Node P D content_hash_of)
      → ev.op ≡ write
      → let d = drain_event P D content_hash_of machine_id root now ack_fails ev id node in
        (d.done ≡ false)
        × ((d.effect, d.reply)
            ≡ handle_event P D content_hash_of machine_id root now ack_fails ev id node)
  unfolding drain_event handle_event
  drain_event-write machine_id root now ack_fails ev id node e = (ground arith, ground arith)

  -- Only the end marker of another node ends the drain, and it changes nothing.
  drain_event-done :
      (machine_id root now : Bytes) (ack_fails : Bool) (ev : Event) (id : ℕ)
      (node : Node P D content_hash_of)
      → let d = drain_event P D content_hash_of machine_id root now ack_fails ev id node in
        d.done ≡ true
        → (ev.op ≡ reconcile_done)
          × ((ev.origin == machine_id) ≡ false)
          × (d.effect ≡ quiet P D content_hash_of node)
  unfolding drain_event
  drain_event-done machine_id root now ack_fails ev id node e =
      (ground arith, ground arith, ground arith)
