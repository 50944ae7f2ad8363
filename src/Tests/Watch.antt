-- ===== src/Tests/Watch.antt =====
-- A watcher of a small tree.
use jsync.Base.{
  ◌+◌, ◌≡◌, refl, ◌<◌, Bool, true, false, Option, none, some, List, [], ◌∷◌, Bytes, bytes_eq, codes,
  length, arith,
}
use jsync.Base.Dict
use jsync.FilePath.{join}
use jsync.Watch.{
  removed, renamed, PendingEvent, RawEvent, create, modify, remove, rename, buffer_overflow,
  FsWatcher, Tree, unreadable, file, folder, nil, cons, Snapshot, path_key, skipped_above,
}
use jsync.Watch.Handlers.{pending_of, handle_remove, watch, Input, raw, fired, failed, loop}
use jsync.Watch.Tracked.{IsTracked, watch-IsTracked}
use jsync.Watch.Removal.{handle_remove-schedules}

abbrev root : Bytes
root = codes "/r"

abbrev tree : Tree
tree = folder root (
    cons (folder (codes "/r/d") (cons (file (codes "/r/d/x")) nil))
      (cons unreadable (cons (folder (codes "/r/.git") (cons (file (codes "/r/.git/y")) nil)) nil)))

abbrev snapshot : Snapshot
snapshot = record { stat = λ p. some false; tree = λ p. file p }

abbrev inputs : List Input
inputs =
    raw snapshot (modify (codes "/r/n"))
    ∷ raw snapshot (rename (codes "/r/n") (codes "/r/d/n"))
    ∷ fired (record {
      kind = renamed;
      abs_path = codes "/r/d/n";
      rel_path = codes "d/n";
      old_abs = codes "/r/n";
      old_rel = codes "n";
    })
    ∷ failed buffer_overflow
    ∷ []

watch-IsTracked_example : IsTracked (loop inputs (watch 0 0 none root tree)).0
watch-IsTracked_example = watch-IsTracked 0 0 none root tree inputs

abbrev started : FsWatcher
started = (loop [] (watch 0 0 none root tree)).0

placed : Dict.lookup (codes "d/x") started.file_dir ≡ some (codes "/r/d")
unfolding Dict.lookup Dict.insert loop watch jsync.Watch.register_tree jsync.Watch.excluded
    jsync.Watch.under_skipped_dir jsync.Watch.new_file_watcher jsync.Watch.add_file
    jsync.Watch.is_skipped_dir jsync.Watch.list_file jsync.Watch.listed_name
    jsync.Watch.register_file skipped_above jsync.FilePath.rel jsync.FilePath.rel_of
    jsync.FilePath.cleaned_beq jsync.FilePath.same_root jsync.FilePath.parse
    jsync.FilePath.is_rooted jsync.Base.list_beq jsync.FilePath.push_parts
    jsync.FilePath.split_slash jsync.FilePath.extend_first jsync.FilePath.push_part
    jsync.FilePath.from_stripped jsync.FilePath.strip_common jsync.FilePath.target_parts
    jsync.FilePath.escapes jsync.FilePath.join_slash jsync.FilePath.go_up jsync.FilePath.has_prefix
    jsync.FilePath.dir jsync.FilePath.drop_last jsync.FilePath.clean jsync.FilePath.render
    jsync.FilePath.base jsync.FilePath.last_element
placed = refl

handle_remove-schedules_example :
    let after = handle_remove (codes "/r/d") started in
    (Dict.lookup (codes "d/x") after.file_dir ≡ none)
    × (Dict.lookup (path_key (codes "d/x")) after.pending
        ≡ some (pending_of removed (join started.root (codes "d/x")) (codes "d/x")))
handle_remove-schedules_example =
    handle_remove-schedules started (codes "/r/d") (codes "d/x")
      (watch-IsTracked 0 0 none root tree []) placed
