-- ===== src/Watch.antt =====
-- internal/watch/watcher.go: the bookkeeping and the debounced events of one watched tree.
pub mod Handlers
pub mod Index
pub mod Tracked
pub mod Removal
pub mod Skipped
use mathlib.Core.List.{foldl}
use jsync.Base.{
  ℕ, zero, suc, ◌+◌, Bool, true, false, ◌&&◌, ◌||◌, not, Option, none, some, List, [], ◌∷◌, ◌++◌,
  map, Bytes, bytes_eq, ◌==◌, codes, length, ltb, if◌then◌else◌,
}
use jsync.Base.Dict
use jsync.Base.Dict.{Dict}
use jsync.FilePath.{slash, dot, base, dir, join, rel, has_prefix}

pub data ChangeKind : Type 0 where
  modified removed renamed rescan : ChangeKind

-- An absolute path in the OS's form, the path below the root, and for a rename the old ones.
pub record ChangeEvent : Type 0 where
  pub abs_path : Bytes
  pub rel_path : Bytes
  pub old_abs_path : Bytes
  pub old_rel_path : Bytes
  pub kind : ChangeKind

pub record PendingEvent : Type 0 where
  pub kind : ChangeKind
  pub abs_path : Bytes
  pub rel_path : Bytes
  pub old_abs : Bytes
  pub old_rel : Bytes

-- One notification of a backend; a rename gives the old path, then the new one.
pub data RawEvent : Type 0 where
  create modify remove : Bytes → RawEvent
  rename : Bytes → Bytes → RawEvent

-- What a backend reports instead of an event.
pub data BackendError : Type 0 where
  buffer_overflow : BackendError
  other : BackendError

-- milliseconds, and bytes
abbrev pub default_debounce : ℕ
default_debounce = 250

abbrev pub default_buffer_size : ℕ
default_buffer_size = 65536

pub record FsWatcher : Type 0 where
  pub debounce : ℕ
  pub buffer_size : ℕ
  -- `none` means the default directories only
  pub matcher : Option (Bytes → Bool)
  pub root : Bytes
  pub dir_files : Dict Bytes (Dict Bytes Bool)
  pub file_dir : Dict Bytes Bytes
  -- the event that each running timer will fire
  pub pending : Dict Bytes PendingEvent

-- A debounce that is zero or negative and a buffer size of zero stand for the defaults.
unfoldable pub new_file_watcher : ℕ → ℕ → Option (Bytes → Bool) → Bytes → FsWatcher
new_file_watcher debounce buffer_size matcher root = record {
  debounce = if ltb 0 debounce then debounce else default_debounce;
  buffer_size = if ltb 0 buffer_size then buffer_size else default_buffer_size;
  matcher = matcher;
  root = root;
  dir_files = [];
  file_dir = [];
  pending = [];
}

abbrev pub default_skip_dirs : List Bytes
default_skip_dirs =
    codes ".git"
    ∷ codes "node_modules"
    ∷ codes "__pycache__"
    ∷ codes ".venv"
    ∷ codes "venv"
    ∷ codes "target"
    ∷ codes "vendor"
    ∷ codes "dist"
    ∷ codes "build"
    ∷ []

unfoldable pub listed_name : Bytes → List Bytes → Bool
listed_name name [] = false
listed_name name (w ∷ ws) = name == w || listed_name name ws

unfoldable pub is_skipped_dir : Bytes → Bool
is_skipped_dir name = listed_name name default_skip_dirs || has_prefix name (codes ".jsync_tmp_")

-- The loop over the directories above a path; `none` means that the fuel ran out.
unfoldable pub skipped_above : ℕ → Bytes → Option Bool
skipped_above zero d = none
skipped_above (suc fuel) d =
    let parent = dir d in
    let rest = skipped_above fuel parent in
    if d == dot || d == (slash ∷ [])
    then some false
    else if is_skipped_dir (base d)
    then some true
    else if parent == d
    then some false
    else rest

unfoldable pub under_skipped_dir : FsWatcher → Bytes → Bool
under_skipped_dir w abs_path = elim (rel w.root abs_path) [
  | none ↦ false
  | some r ↦ elim (skipped_above (length (dir r) + 2) (dir r)) [ none ↦ false | some found ↦ found ]
]

unfoldable pub excluded : FsWatcher → Bytes → Bool
excluded w abs_path =
    if under_skipped_dir w abs_path || is_skipped_dir (base abs_path)
    then true
    else elim w.matcher [
      | none ↦ false
      | some matches ↦ elim (rel w.root abs_path) [ none ↦ false | some r ↦ matches r ]
    ]

-- `dirFiles[dir][rel] = true`, the inner map made when it is missing.
unfoldable pub list_file :
    Dict Bytes (Dict Bytes Bool) → Bytes → Bytes → Dict Bytes (Dict Bytes Bool)
list_file dir_files d r = elim (Dict.lookup d dir_files) [
  | none ↦ Dict.insert d (Dict.insert r true []) dir_files
  | some files ↦ Dict.insert d (Dict.insert r true files) dir_files
]

-- `delete(dirFiles[dir], rel)`, when that inner map is there.
unfoldable pub unlist_file :
    Dict Bytes (Dict Bytes Bool) → Bytes → Bytes → Dict Bytes (Dict Bytes Bool)
unlist_file dir_files d r = elim (Dict.lookup d dir_files) [
  | none ↦ dir_files
  | some files ↦ Dict.insert d (Dict.delete r files) dir_files
]

-- The two writes that index a file, as three places of the source make them.
unfoldable pub add_file : FsWatcher → Bytes → Bytes → FsWatcher
add_file w r parent = record w {
  dir_files = list_file w.dir_files parent r;
  file_dir = Dict.insert r parent w.file_dir;
}

-- A tree of the disk as `WalkDir` meets it: an entry that cannot be read, a file, or a directory with
-- its entries. Each carries its full path.
mutual
  pub data Tree : Type 0 where
    unreadable : Tree
    file : Bytes → Tree
    folder : Bytes → Trees → Tree

  pub data Trees : Type 0 where
    nil : Trees
    cons : Tree → Trees → Trees

-- The callback at a file.
unfoldable pub register_file : FsWatcher → Bytes → FsWatcher
register_file w p =
    if excluded w p then w else elim (rel w.root p) [ none ↦ w | some r ↦ add_file w r (dir p) ]

-- The walk; an excluded directory is not entered, except the one where it begins.
unfoldable mutual
  pub register_tree : Tree → Bytes → FsWatcher → FsWatcher
  register_tree unreadable top w = w
  register_tree (file p) top w = register_file w p
  register_tree (folder p entries) top w =
      let entered = register_trees entries top w in
      if not (p == top) && excluded w p then w else entered

  pub register_trees : Trees → Bytes → FsWatcher → FsWatcher
  register_trees nil top w = w
  register_trees (cons t ts) top w = register_trees ts top (register_tree t top w)

-- The disk when an event is handled: what `Stat` says, whether it is a directory, and the walk.
pub record Snapshot : Type 0 where
  pub stat : Bytes → Option Bool
  pub tree : Bytes → Tree

abbrev pub path_key : Bytes → Bytes
path_key r = codes "path:" ++ r

abbrev pub rename_key : Bytes → Bytes
rename_key r = codes "rename:" ++ r

unfoldable pub debounce_key : PendingEvent → Bytes
debounce_key pe = elim pe.kind [ renamed ↦ rename_key pe.rel_path | _ ↦ path_key pe.rel_path ]

-- The timer of the key starts again, with the new event.
unfoldable pub schedule : Bytes → PendingEvent → FsWatcher → FsWatcher
schedule key pe w = record w { pending = Dict.insert key pe w.pending }
