-- ===== src/Watch/Removal.antt =====
-- internal/watch/watcher.go: a directory is removed with the files in it.
use jsync.Base.{
  ◌≡◌, refl, sym, ◌∙◌, ap, subst, inl, inr, Bool, true, none, some, List, [], ◌∷◌, Bytes, bytes_eq,
  ◌==◌, arith, list_beq, Option-cases, if◌then◌else◌,
}
use jsync.Base.Dict
use jsync.Base.Dict.{Dict}
use jsync.FilePath.{join}
use jsync.Watch.{removed, PendingEvent, FsWatcher, path_key, schedule, listed_name}
use jsync.Watch.Handlers.{pending_of, keys, schedule_removals, handle_remove}
use jsync.Watch.Index.{listed, listed_in}
use jsync.Watch.Tracked.{IsTracked, Covered, listed_name-keys, lookup-drop_files}

path_key-beq : (q r : Bytes) → (path_key q == path_key r) ≡ (q == r)
unfolding list_beq
path_key-beq q r = refl

abbrev removal_of : Bytes → Bytes → PendingEvent
removal_of root r = pending_of removed (join root r) r

lookup-schedule_removals :
    (rels : List Bytes) (w : FsWatcher) (r : Bytes)
    → Dict.lookup (path_key r) (schedule_removals rels w).pending ≡ (
        if listed_name r rels
        then some (removal_of w.root r)
        else Dict.lookup (path_key r) w.pending)
unfolding schedule_removals listed_name schedule
lookup-schedule_removals [] w r = refl
lookup-schedule_removals (q ∷ rels) w r =
    let pe = removal_of w.root q in
    lookup-schedule_removals rels (schedule (path_key q) pe w) r
    ∙ ground (
      arith,
      Dict.lookup-insert (path_key q) (path_key r) pe w.pending,
      path_key-beq q r,
      bytes_eq.beq_iff q r,
      bytes_eq.beq_iff r q,
    )

file_dir-schedule_removals :
    (rels : List Bytes) (w : FsWatcher) → (schedule_removals rels w).file_dir ≡ w.file_dir
unfolding schedule_removals schedule
file_dir-schedule_removals [] w = refl
file_dir-schedule_removals (q ∷ rels) w = file_dir-schedule_removals rels _

listed-lookup :
    (dir_files : Dict Bytes (Dict Bytes Bool)) (d r : Bytes)
    → listed dir_files d r ≡ some true
    → (files : Dict Bytes Bool) × (Dict.lookup d dir_files ≡ some files)
      × (Dict.lookup r files ≡ some true)
unfolding listed
listed-lookup dir_files d r h = elim (Option-cases (Dict.lookup d dir_files)) [
  | inl e ↦ absurd (let no : none ≡ some true = ap (λ o. listed_in o r) (sym e) ∙ h in cc no)
  | inr (files, e) ↦ (files, e, ap (λ o. listed_in o r) (sym e) ∙ h)
]

-- When a directory is reported as removed in a watcher whose maps agree, each file that the index
-- places in it leaves the index, and its removal waits under its own key, replacing what waited there.
pub handle_remove-schedules :
    (w : FsWatcher) (d r : Bytes)
    → IsTracked w
    → Dict.lookup r w.file_dir ≡ some d
    → let after = handle_remove d w in
      (Dict.lookup r after.file_dir ≡ none)
      × (Dict.lookup (path_key r) after.pending ≡ some (pending_of removed (join w.root r) r))
unfolding handle_remove
handle_remove-schedules w d r t placed =
    let cover : listed w.dir_files d r ≡ some true =
      subst (Covered w.dir_files r) placed (t.covered r) in
    let (files, e, held) = listed-lookup w.dir_files d r cover in
    let named = listed_name-keys files r held in
    rw (e, handle_remove)
      (
        rw (file_dir-schedule_removals (keys files) _)
            (lookup-drop_files (keys files) w.file_dir r ∙ rw named refl),
        lookup-schedule_removals (keys files) _ r ∙ rw named refl,
      )
