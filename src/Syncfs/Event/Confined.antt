-- ===== src/Syncfs/Event/Confined.antt =====
-- internal/syncfs/event.go: the reach of an event on the disk.
use mathlib.Core.List.{append_assoc, append-nil}
use jsync.Base.{
  ◌≡◌, refl, sym, ◌∙◌, ap, ◌↔◌, ◌⊎◌, inl, inr, [], ◌++◌, Bytes, arith, All-append, Bool-cases,
}
use jsync.FilePath.{Cleaned, parse, join, confined, dir}
use jsync.FilePath.Shape.{IsOrdinary}
use jsync.FilePath.Inside.{Inside, confined_iff}
use jsync.Syncfs.Disk.{Disk, IsLawful}
use jsync.Syncfs.Event.{
  Op, write, remove, rename, bootstrap, bootstrap_ack, manifest, reconcile_done, unknown, Event,
  ApplyError, Result, ok, err, safe_path, write_under, apply_write, apply_remove, rename_under,
  apply_rename, apply_op, apply,
}

pub Inside-refl : (b : Cleaned) → Inside b b
Inside-refl b = record {
  below = [];
  same_root = refl;
  extends = sym (append-nil b.parts);
  goes_down = tt;
}

pub Inside-trans : {a b c : Cleaned} → Inside a b → Inside b c → Inside a c
Inside-trans {a} {b} {c} i j = record {
  below = i.below ++ j.below;
  same_root = j.same_root ∙ i.same_root;
  extends = j.extends ∙ (ap (λ ps. ps ++ j.below) i.extends ∙ append_assoc a.parts i.below j.below);
  goes_down = All-append IsOrdinary i.below j.below i.goes_down j.goes_down;
}

-- The path that `safePath` gives is the joined one, and it gives one exactly when that is the root
-- or below it.
pub safe_path_iff :
    (root rel_path target : Bytes)
    → (safe_path root rel_path ≡ ok target)
      ↔ ((target ≡ join root rel_path) × Inside (parse root) (parse target))
unfolding safe_path
safe_path_iff root rel_path target =
    let (to, from) = confined_iff root (join root rel_path) in
    elim (Bool-cases (confined root (join root rel_path))) [
      | inl e ↦ rw e (
        λ h.
            (let same : join root rel_path ≡ target = ground arith in
              (sym same, rw same at (to e))),
        λ (h, i). rw h refl,
      )
      | inr e ↦ rw e (
        λ h. absurd (ground arith),
        λ (h, i). (let yes = from (rw h at i) in absurd (ground arith)),
      )
    ]

safe_path-Inside :
    (root rel_path target : Bytes)
    → safe_path root rel_path ≡ ok target
    → Inside (parse root) (parse target)
safe_path-Inside root rel_path target h = ((safe_path_iff root rel_path target).0 h).1

pub Result-cases :
    {A : Type 0} → (r : Result A) → ((e : ApplyError) × (r ≡ err e)) ⊎ ((a : A) × (r ≡ ok a))
Result-cases (ok a) = inr (a, refl)
Result-cases (err e) = inl (e, refl)

module _ (D : Disk) (L : IsLawful D) where
  -- Two states of a disk in which every file outside a directory is the same.
  abbrev SameOutside : Bytes → D.State → D.State → Type 0
  SameOutside root s s' =
      (q : Bytes) → ¬ Inside (parse root) (parse q) → D.read_file q s' ≡ D.read_file q s

  write_under-outside :
      (root target text : Bytes) (s : D.State)
      → Inside (parse root) (parse target)
      → SameOutside root s (write_under D target text s).0
  unfolding write_under
  write_under-outside root target text s i q outside =
      let kept = L.read-mkdir (dir target) q s in
      let kept' =
        L.read-write_ne target q text (D.mkdir_all (dir target) s).0 (λ e. outside (rw e at i)) in
      ground arith

  rename_under-outside :
      (root old_target new_target : Bytes) (s : D.State)
      → Inside (parse root) (parse old_target)
      → Inside (parse root) (parse new_target)
      → SameOutside root s (rename_under D old_target new_target s).0
  unfolding rename_under
  rename_under-outside root old_target new_target s i j q outside =
      let kept = L.read-mkdir (dir new_target) q s in
      let kept' =
        L.read-rename old_target new_target q (D.mkdir_all (dir new_target) s).0
          (λ k. outside (Inside-trans i k)) (λ k. outside (Inside-trans j k)) in
      ground arith

  apply_write-outside :
      (ev : Event) (root : Bytes) (s : D.State) → SameOutside root s (apply_write D ev root s).0
  unfolding apply_write
  apply_write-outside ev root s q outside = elim (Result-cases (safe_path root ev.rel_path)) [
    | inl (e, f) ↦ rw (f, apply_write) refl
    | inr (target, f) ↦
        rw (f, apply_write)
          (write_under-outside root target ev.payload s (safe_path-Inside root ev.rel_path target f)
            q outside)
  ]

  apply_remove-outside :
      (ev : Event) (root : Bytes) (s : D.State) → SameOutside root s (apply_remove D ev root s).0
  unfolding apply_remove
  apply_remove-outside ev root s q outside = elim (Result-cases (safe_path root ev.rel_path)) [
    | inl (e, f) ↦ rw (f, apply_remove) refl
    | inr (target, f) ↦
        let i = safe_path-Inside root ev.rel_path target f in
        rw (f, apply_remove) (L.read-remove target q s (λ k. outside (Inside-trans i k)))
  ]

  apply_rename-outside :
      (ev : Event) (root : Bytes) (s : D.State) → SameOutside root s (apply_rename D ev root s).0
  unfolding apply_rename
  apply_rename-outside ev root s q outside = elim (Result-cases (safe_path root ev.old_rel_path)) [
    | inl (e, f) ↦ rw (f, apply_rename) refl
    | inr (old_target, f) ↦ elim (Result-cases (safe_path root ev.rel_path)) [
      | inl (e, g) ↦ rw (f, g, apply_rename) refl
      | inr (new_target, g) ↦
          rw (f, g, apply_rename)
            (rename_under-outside root old_target new_target s
              (safe_path-Inside root ev.old_rel_path old_target f)
              (safe_path-Inside root ev.rel_path new_target g) q outside)
    ]
  ]

  apply_op-outside :
      (op : Op) (ev : Event) (root : Bytes) (s : D.State)
      → SameOutside root s (apply_op D op ev root s).0
  unfolding apply_op
  apply_op-outside write ev root s q outside = apply_write-outside ev root s q outside
  apply_op-outside remove ev root s q outside = apply_remove-outside ev root s q outside
  apply_op-outside rename ev root s q outside = apply_rename-outside ev root s q outside
  apply_op-outside bootstrap ev root s q outside = refl
  apply_op-outside bootstrap_ack ev root s q outside = refl
  apply_op-outside manifest ev root s q outside = refl
  apply_op-outside reconcile_done ev root s q outside = refl
  apply_op-outside (unknown _) ev root s q outside = refl

  -- On a lawful disk, whatever an event of a peer says, applying it leaves every file outside the root as it was,
  -- whether it fails or not.
  pub apply-outside :
      (ev : Event) (root : Bytes) (s : D.State) (q : Bytes)
      → ¬ Inside (parse root) (parse q)
      → D.read_file q (apply D ev root s).0 ≡ D.read_file q s
  unfolding apply
  apply-outside ev root s = apply_op-outside ev.op ev root s
