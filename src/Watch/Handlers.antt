-- ===== src/Watch/Handlers.antt =====
-- internal/watch/watcher.go: what each notification and each timer does.
use jsync.Base.{
  ℕ, Bool, true, false, Option, none, some, List, [], ◌∷◌, ◌++◌, map, Bytes, bytes_eq,
  if◌then◌else◌,
}
use jsync.Base.Dict
use jsync.Base.Dict.{Dict}
use jsync.FilePath.{dir, join, rel}
use jsync.Watch.{
  ChangeKind, modified, removed, renamed, rescan, ChangeEvent, PendingEvent, RawEvent, create,
  modify, remove, rename, BackendError, buffer_overflow, other, FsWatcher, excluded, list_file,
  unlist_file, add_file, register_tree, Tree, new_file_watcher, Snapshot, path_key, rename_key,
  debounce_key, schedule,
}

unfoldable pub forget : FsWatcher → Bytes → FsWatcher
forget w r = elim (Dict.lookup r w.file_dir) [
  | none ↦ w
  | some d ↦ record w {
    dir_files = unlist_file w.dir_files d r;
    file_dir = Dict.delete r w.file_dir;
  }
]

-- A path that is not in the index is left alone, and so is everything below it.
unfoldable pub move_entry : FsWatcher → Bytes → Bytes → FsWatcher
move_entry w old_rel new_rel = elim (Dict.lookup old_rel w.file_dir) [
  | none ↦ w
  | some d ↦
      let new_dir = dir (join w.root new_rel) in
      record w {
        dir_files = list_file (unlist_file w.dir_files d old_rel) new_dir new_rel;
        file_dir = Dict.insert new_rel new_dir (Dict.delete old_rel w.file_dir);
      }
]

abbrev pub pending_of : ChangeKind → Bytes → Bytes → PendingEvent
pending_of kind abs_path r = record {
  kind = kind;
  abs_path = abs_path;
  rel_path = r;
  old_abs = [];
  old_rel = [];
}

unfoldable pub handle_write : Snapshot → Bytes → FsWatcher → FsWatcher
handle_write disk abs_path w = if excluded w abs_path then w else elim (disk.stat abs_path) [
  | none ↦ w
  | some true ↦ w
  | some false ↦ elim (rel w.root abs_path) [
    | none ↦ w
    | some r ↦ schedule (path_key r) (pending_of modified abs_path r) (add_file w r (dir abs_path))
  ]
]

unfoldable pub keys : Dict Bytes Bool → List Bytes
keys [] = []
keys ((r, _) ∷ files) = r ∷ keys files

abbrev pub files_under : FsWatcher → Bytes → List Bytes
files_under w d = elim (Dict.lookup d w.dir_files) [ none ↦ [] | some files ↦ keys files ]

unfoldable pub appeared : Bytes → Bytes → ChangeEvent
appeared root r = record {
  abs_path = join root r;
  rel_path = r;
  old_abs_path = [];
  old_rel_path = [];
  kind = modified;
}

-- A directory may have come with files: they are reported at once.
unfoldable pub handle_create : Snapshot → Bytes → FsWatcher → FsWatcher × List ChangeEvent
handle_create disk abs_path w = if excluded w abs_path then (w, []) else elim (disk.stat abs_path) [
  | none ↦ (w, [])
  | some true ↦
      let grown = register_tree (disk.tree abs_path) abs_path w in
      (grown, map (appeared w.root) (files_under grown abs_path))
  | some false ↦ (handle_write disk abs_path w, [])
]

unfoldable pub drop_files : List Bytes → Dict Bytes Bytes → Dict Bytes Bytes
drop_files [] file_dir = file_dir
drop_files (r ∷ rels) file_dir = drop_files rels (Dict.delete r file_dir)

unfoldable pub schedule_removals : List Bytes → FsWatcher → FsWatcher
schedule_removals [] w = w
schedule_removals (r ∷ rels) w =
    schedule_removals rels (schedule (path_key r) (pending_of removed (join w.root r) r) w)

unfoldable pub handle_remove : Bytes → FsWatcher → FsWatcher
handle_remove abs_path w = elim (Dict.lookup abs_path w.dir_files) [
  | some files ↦ schedule_removals (keys files) (record w {
    dir_files = Dict.delete abs_path w.dir_files;
    file_dir = drop_files (keys files) w.file_dir;
  })
  | none ↦ elim (rel w.root abs_path) [
    | none ↦ w
    | some r ↦ elim (Dict.lookup r w.file_dir) [
      | none ↦ w
      | some d ↦ schedule (path_key r) (pending_of removed abs_path r) w
    ]
  ]
]

unfoldable pub schedule_rename : Bytes → Bytes → FsWatcher → FsWatcher
schedule_rename old_abs new_abs w = elim (rel w.root old_abs) [
  | none ↦ w
  | some old_rel ↦ elim (rel w.root new_abs) [
    | none ↦ w
    | some new_rel ↦
        let pe : PendingEvent = record {
          kind = renamed;
          abs_path = new_abs;
          rel_path = new_rel;
          old_abs = old_abs;
          old_rel = old_rel;
        } in
        schedule (rename_key new_rel) pe w
  ]
]

unfoldable pub handle_rename : Snapshot → Bytes → Bytes → FsWatcher → FsWatcher × List ChangeEvent
handle_rename disk old_abs new_abs w =
    if excluded w old_abs
    then (if excluded w new_abs then (w, []) else handle_create disk new_abs w)
    else if excluded w new_abs
    then (handle_remove old_abs w, [])
    else (schedule_rename old_abs new_abs w, [])

unfoldable pub handle_event : Snapshot → RawEvent → FsWatcher → FsWatcher × List ChangeEvent
handle_event disk (create p) w = handle_create disk p w
handle_event disk (modify p) w = (handle_write disk p w, [])
handle_event disk (remove p) w = (handle_remove p w, [])
handle_event disk (rename old_path p) w = handle_rename disk old_path p w

unfoldable pub change_of : PendingEvent → ChangeEvent
change_of pe = record {
  abs_path = pe.abs_path;
  rel_path = pe.rel_path;
  old_abs_path = pe.old_abs;
  old_rel_path = pe.old_rel;
  kind = pe.kind;
}

-- What a removal or a rename does to the index when its timer fires.
unfoldable pub settle_kind : ChangeKind → Bytes → Bytes → FsWatcher → FsWatcher
settle_kind removed old_rel r w = forget w r
settle_kind renamed old_rel r w = move_entry w old_rel r
settle_kind modified old_rel r w = w
settle_kind rescan old_rel r w = w

-- A timer has fired.
unfoldable pub fire : PendingEvent → FsWatcher → FsWatcher × List ChangeEvent
fire pe w = (
  settle_kind pe.kind pe.old_rel pe.rel_path
      (record w { pending = Dict.delete (debounce_key pe) w.pending }),
  change_of pe ∷ [],
)

unfoldable pub rescan_event : ChangeEvent
rescan_event = record {
  abs_path = [];
  rel_path = [];
  old_abs_path = [];
  old_rel_path = [];
  kind = rescan;
}

-- `Watch`, once the root is resolved: the tree is indexed before the first event.
unfoldable pub watch : ℕ → ℕ → Option (Bytes → Bool) → Bytes → Tree → FsWatcher
watch debounce buffer_size matcher root tree =
    register_tree tree root (new_file_watcher debounce buffer_size matcher root)

-- One round of the loop: a notification, a timer, or an error of the backend.
pub data Input : Type 0 where
  raw : Snapshot → RawEvent → Input
  fired : PendingEvent → Input
  failed : BackendError → Input

-- The state after the round, the changes sent, and the errors sent.
unfoldable pub loop_round : Input → FsWatcher → FsWatcher × List ChangeEvent × List BackendError
loop_round (raw disk ev) w = let (w', changes) = handle_event disk ev w in (w', changes, [])
loop_round (fired pe) w = let (w', changes) = fire pe w in (w', changes, [])
loop_round (failed buffer_overflow) w = (w, rescan_event ∷ [], [])
loop_round (failed other) w = (w, [], other ∷ [])

-- The loop until the context is cancelled.
unfoldable pub loop : List Input → FsWatcher → FsWatcher × List ChangeEvent × List BackendError
loop [] w = (w, [], [])
loop (input ∷ inputs) w =
    let (w', changes, errs) = loop_round input w in
    let (w'', later_changes, later_errs) = loop inputs w' in
    (w'', changes ++ later_changes, errs ++ later_errs)
