-- ===== src/Tests/Sync.antt =====
-- Two nodes with one file each.
use mathlib.Core.List.{Memᴰ, Permᴰ}
use jsync.Base.{
  ◌+◌, ◌^◌, ◌<◌, ◌≡◌, refl, ◌≢◌, ◌↔◌, Bool, true, false, Option, none, some, List, All, [], ◌∷◌,
  ◌++◌, inr, Bytes, arith, codes, bytes_eq, max, list_beq,
}
use jsync.Base.Dict
use jsync.FilePath.{parse, join, confined}
use jsync.FilePath.Inside.{Inside}
use jsync.Crypto.Ratchet.{Chain}
use jsync.Tests.Toy.{primitives, primitives-IsLawful, disk, disk-IsLawful}
use jsync.Syncfs.Version.{
  VersionVector, new_version_store, component, stored, compare_vectors, vector_concurrent, bump,
  reconcile,
}
use jsync.Syncfs.Version.Order.{Le, Ordered, Exceeds, compare_vectors_iff}
use jsync.Syncfs.Version.Merge.{IsWellFormed, component-reconcile, reconcile-verdict}
use jsync.Syncfs.Version.Delivery.{deliver, deliver-perm, reconcile-bump_concurrent}
use jsync.Syncfs.Echo.{new_echo_guard, is_echo}
use jsync.Syncfs.Event
use jsync.Syncfs.Event.{
  Op, write, reconcile_done, Event, ManifestEntry, Manifest, ApplyError, bare_event, safe_path,
  apply,
}
use jsync.Syncfs.Event.Confined.{safe_path_iff, apply-outside}
use jsync.Syncfs.Bridge.{
  modified, Node, publish_one, apply_event, handle_event, logging, in_line, stale, quiet,
  apply_marked,
}
use jsync.Syncfs.Bridge.Inbound.{apply_event-again}
use jsync.Syncfs.Bridge.Outbound.{Paired, publish_one-apply_marked}
use jsync.Syncfs.Bridge.Propagation.{Edit, CanPropagate, handle_event-publish_one}
use jsync.Syncfs.Reconcile.{diff_paths}
use jsync.Syncfs.Reconcile
use jsync.Syncfs.Reconcile.{waiting, await_control}
use jsync.Syncfs.Reconcile.Drain.{IsPassedOver, Arrives, await_control_iff}
use jsync.Syncfs.Session.{Delivery, receive_changes, drain}
use jsync.Syncfs.Session.Draining.{is_complete, drain-receive_changes}
use jsync.Syncfs.Reconcile.Diff.{HasContent, diff_paths_iff}

abbrev laptop : Bytes
laptop = codes "laptop"

abbrev desk : Bytes
desk = codes "desk"

abbrev note : Bytes
note = codes "note"

abbrev root : Bytes
root = codes "/s"

abbrev one : VersionVector
one = (laptop, 1) ∷ []

abbrev other : VersionVector
other = (desk, 1) ∷ []

abbrev one_hash : Bytes
one_hash = codes "h1"

compare_vectors_iff_example :
    (compare_vectors one other ≡ vector_concurrent) ↔ Ordered vector_concurrent one other
compare_vectors_iff_example = compare_vectors_iff one other vector_concurrent

empty-IsWellFormed : IsWellFormed new_version_store
unfolding stored new_version_store Dict.lookup
empty-IsWellFormed = record { vectors = λ p. tt }

one-NodupKeys : Dict.NodupKeys one
unfolding Dict.lookup
one-NodupKeys = (refl, tt)

other-NodupKeys : Dict.NodupKeys other
unfolding Dict.lookup
other-NodupKeys = (refl, tt)

component-reconcile_example :
    component (stored (reconcile new_version_store note one).0 note) laptop
    ≡ max (component (stored new_version_store note) laptop) (component one laptop)
component-reconcile_example =
    component-reconcile new_version_store note one laptop empty-IsWellFormed one-NodupKeys

reconcile-verdict_example :
    (((reconcile new_version_store note one).1.safe ≡ true)
      ↔ (Le (stored new_version_store note) one × Exceeds one (stored new_version_store note)))
    × (((reconcile new_version_store note one).1.conflict ≡ true) ↔ (
        Exceeds one (stored new_version_store note) × Exceeds (stored new_version_store note) one))
reconcile-verdict_example = reconcile-verdict new_version_store note one

deliver-perm_example :
    component (stored (deliver new_version_store note (one ∷ other ∷ [])) note) laptop
    ≡ component (stored (deliver new_version_store note (other ∷ one ∷ [])) note) laptop
deliver-perm_example =
    deliver-perm new_version_store note (one ∷ other ∷ []) (other ∷ one ∷ []) laptop
      empty-IsWellFormed (one-NodupKeys, (other-NodupKeys, tt))
      (other-NodupKeys, (one-NodupKeys, tt)) ∣ Permᴰ.swap refl refl ∣₁

small : (m : Bytes) → component (stored new_version_store note) m + 1 < 2 ^ 64
unfolding component stored new_version_store Dict.lookup
small m = omega arith

distinct : laptop ≢ desk
distinct = cc

reconcile-bump_concurrent_example :
    ((reconcile (bump new_version_store note desk).0 note (bump new_version_store note laptop).1).1
      ≡ record { safe = false; conflict = true })
    × ((reconcile
          (bump new_version_store note laptop).0
          note
          (bump new_version_store note desk).1).1
        ≡ record { safe = false; conflict = true })
reconcile-bump_concurrent_example =
    reconcile-bump_concurrent new_version_store new_version_store note laptop desk
      empty-IsWellFormed empty-IsWellFormed distinct (λ k. refl) (small laptop) (small desk)

safe_path_iff_example :
    (safe_path root note ≡ Event.ok (codes "/s/note"))
    ↔ ((codes "/s/note" ≡ join root note) × Inside (parse root) (parse (codes "/s/note")))
safe_path_iff_example = safe_path_iff root note (codes "/s/note")

-- A file system where every file holds one text.
abbrev hello : disk.State
hello = λ c. some (codes "hello")

abbrev incoming : Event
incoming = record (bare_event laptop write) {
  rel_path = note;
  content_hash = codes "hello";
  payload = codes "hello";
  version = one;
}

elsewhere : ¬ Inside (parse root) (parse (codes "/t/note"))
unfolding parse list_beq jsync.FilePath.is_rooted jsync.FilePath.push_parts
    jsync.FilePath.split_slash jsync.FilePath.extend_first jsync.FilePath.push_part
elsewhere i = (let e = i.extends in ground arith)

apply-outside_example :
    disk.read_file (codes "/t/note") (apply disk incoming root hello).0
    ≡ disk.read_file (codes "/t/note") hello
apply-outside_example =
    apply-outside disk disk-IsLawful incoming root hello (codes "/t/note") elsewhere

-- The hash of a text is the text.
abbrev hash : Bytes → Bytes
hash text = text

abbrev plain : Node primitives disk hash
plain = record { files = hello; echo = new_echo_guard; versions = new_version_store; enc = none }

apply_event-again_example :
    let first = apply_event primitives disk hash incoming root (codes "17") 1 plain in
    apply_event primitives disk hash incoming root (codes "18") 2 first.node
    ≡ logging primitives disk hash (in_line primitives disk hash incoming 2 stale) first.node
apply_event-again_example =
    apply_event-again primitives disk hash incoming root (codes "17") (codes "18") 1 2 plain refl
      empty-IsWellFormed one-NodupKeys

found_path : safe_path root note ≡ Event.ok (codes "/s/note")
unfolding safe_path join confined parse list_beq jsync.FilePath.clean jsync.FilePath.render
    jsync.FilePath.is_rooted jsync.FilePath.join_slash jsync.FilePath.push_parts
    jsync.FilePath.split_slash jsync.FilePath.cleaned_beq jsync.FilePath.escapes
    jsync.FilePath.extend_first jsync.FilePath.from_stripped jsync.FilePath.go_up
    jsync.FilePath.has_prefix jsync.FilePath.push_part jsync.FilePath.rel jsync.FilePath.rel_of
    jsync.FilePath.same_root jsync.FilePath.strip_common jsync.FilePath.target_parts
found_path = refl

takes :
    (ev : Event)
    → ev.op ≡ write
    → ev.rel_path ≡ note
    → ev.payload ≡ codes "hello"
    → (apply disk ev root hello).1 ≡ none
unfolding apply Event.apply_op Event.apply_write Event.write_under
takes ev op path text = rw (op, apply, path, Event.apply_write, found_path) refl

applied_fine : (apply_marked primitives disk hash incoming root 1 plain).failure ≡ none
unfolding apply_marked
applied_fine = ground (arith, takes incoming refl refl refl)

publish_one-apply_marked_example :
    let done = apply_marked primitives disk hash incoming root 1 plain in
    publish_one primitives disk hash desk (modified (join root note) note) none done.node
    ≡ quiet primitives disk hash
        (record (done.node) { echo = (is_echo done.node.echo note (codes "hello")).0 })
publish_one-apply_marked_example =
    publish_one-apply_marked primitives disk hash disk-IsLawful incoming root desk 1 none plain refl
      refl applied_fine

abbrev chain_a : Chain
chain_a = record { key = 1 ∷ []; n = 3 }

abbrev chain_b : Chain
chain_b = record { key = 2 ∷ []; n = 8 }

abbrev edit : Edit primitives primitives-IsLawful disk disk-IsLawful hash
edit = record {
  sender = record plain {
    enc = some (record { send_chain = chain_a; recv_chain = chain_b; associated_data = [] });
  };
  receiver = record plain {
    enc = some (record { send_chain = chain_b; recv_chain = chain_a; associated_data = [] });
  };
  machine_id = laptop;
  peer_id = desk;
  abs_path = codes "/home/note";
  rel_path = note;
  root = root;
  text = codes "hello";
}

edit-CanPropagate : CanPropagate primitives primitives-IsLawful disk disk-IsLawful hash edit
unfolding list_beq is_echo Dict.lookup
edit-CanPropagate = record {
  two_machines = refl;
  was_read = refl;
  no_echo = refl;
  well_formed = empty-IsWellFormed;
  counts = small laptop;
  seen = λ k. omega arith;
  paired = (refl, refl);
  disk_takes = takes;
}

handle_event-publish_one_example :
    let out =
      publish_one primitives disk hash laptop
        (modified (codes "/home/note") note)
        (some 4)
        edit.sender in
    (ev : Event) × (out.sent ≡ ev ∷ [])
    × let got =
        (handle_event primitives disk hash desk root
          (codes "17")
          false
          ev
          4
          edit.receiver).0.node in
      (disk.read_file (join root note) got.files ≡ some (codes "hello"))
      × Paired out.node.enc got.enc
handle_event-publish_one_example =
    handle_event-publish_one primitives primitives-IsLawful disk disk-IsLawful hash edit (some 4)
      (codes "17") false 4 edit-CanPropagate

abbrev ours : Manifest
ours = (note, record { hash = codes "h1"; size = 5 }) ∷ []

diff_paths_iff_example :
    Memᴰ note (diff_paths ours [])
    ↔ ((entry : ManifestEntry) × Memᴰ (note, entry) ours × ¬ HasContent [] note entry.hash)
diff_paths_iff_example = diff_paths_iff ours [] note

-- A message that does not parse and one of this node come before the peer's.
abbrev before_start : List (Option Event × Bool)
before_start = (none, false) ∷ (some (bare_event desk write), false) ∷ (some incoming, false) ∷ []

await_control_iff_example :
    ((await_control laptop write before_start ≡ Reconcile.found incoming [])
      ↔ Arrives laptop write before_start incoming [])
    × ((await_control laptop write before_start ≡ waiting) ↔ All (IsPassedOver laptop) before_start)
await_control_iff_example = await_control_iff laptop write before_start incoming []

abbrev delivery : Option Event → Delivery
delivery event = record { event = event; op_id = 1; now = codes "17"; ack_fails = false }

abbrev end_marker : Event
end_marker = bare_event laptop reconcile_done

drain-receive_changes_example :
    let before = delivery none ∷ delivery (some incoming) ∷ [] in
    let applied = receive_changes primitives disk hash desk root before plain in
    drain primitives disk hash desk root (before ++ (delivery (some end_marker) ∷ [])) plain
    ≡ (applied, is_complete primitives disk hash applied)
unfolding list_beq
drain-receive_changes_example =
    drain-receive_changes primitives disk hash desk root
      (delivery none ∷ delivery (some incoming) ∷ []) [] (delivery (some end_marker)) end_marker
      plain (tt, (inr refl, tt)) refl refl refl
