-- ===== src/Syncfs/Event.antt =====
-- internal/syncfs/event.go: the events of a watch session, and their effect on a directory.
pub mod Confined
use jsync.Base.{
  ℕ, Bool, true, false, Option, none, some, List, [], ◌∷◌, ◌++◌, map, Bytes, nat_eq, ◌==◌, ◌||◌,
  codes, if◌then◌else◌,
}
use jsync.Base.Dict.{Dict}
use jsync.FilePath.{join, confined, dir, slash}
use jsync.Syncfs.Version.{VersionVector}
use jsync.Syncfs.Disk.{Disk}

pub data Op : Type 0 where
  write remove rename bootstrap bootstrap_ack manifest reconcile_done : Op
  -- any other text on the wire
  unknown : Bytes → Op

pub record ManifestEntry : Type 0 where
  pub hash : Bytes
  pub size : ℕ

abbrev pub Manifest : Type 0
Manifest = Dict Bytes ManifestEntry

pub record Event : Type 0 where
  pub origin : Bytes
  pub op : Op
  pub rel_path : Bytes
  pub old_rel_path : Bytes
  pub content_hash : Bytes
  pub payload : Bytes
  pub version : VersionVector
  pub seq : ℕ
  pub bootstrap_initiator_dh_pub : Bytes
  pub bootstrap_ephemeral_pub : Bytes
  pub bootstrap_used_otp_id : ℕ
  pub reconcile_manifest : Manifest

-- An event with no field but its origin and kind.
abbrev pub bare_event : Bytes → Op → Event
bare_event origin op = record {
  origin = origin;
  op = op;
  rel_path = [];
  old_rel_path = [];
  content_hash = [];
  payload = [];
  version = [];
  seq = 0;
  bootstrap_initiator_dh_pub = [];
  bootstrap_ephemeral_pub = [];
  bootstrap_used_otp_id = 0;
  reconcile_manifest = [];
}

pub data ApplyError : Type 0 where
  escapes_root mkdir_failed write_failed remove_failed rename_failed : Bytes → ApplyError
  unknown_op : Op → ApplyError

pub data Result (A : Type 0) : Type 0 where
  ok : A → Result A
  err : ApplyError → Result A

unfoldable pub safe_path : Bytes → Bytes → Result Bytes
safe_path root rel_path =
    let target = join root rel_path in
    if confined root target then ok target else err (escapes_root rel_path)

-- The characters of a machine id that separate paths become underscores.
unfoldable pub sanitize_for_filename : Bytes → Bytes
sanitize_for_filename s = map (λ c. if c == slash || c == b'\\' then b'_' else c) s

-- Where a conflicting write of an origin goes, at a time whose decimal text is given.
unfoldable pub conflict_path_of : Bytes → Bytes → Bytes → Bytes
conflict_path_of target origin now =
    target ++ (codes ".conflict-" ++ (sanitize_for_filename origin ++ (b'-' ∷ now)))

module _ (D : Disk) where
  -- Write a file below a directory that is made first.
  unfoldable pub write_under : Bytes → Bytes → D.State → D.State × Option ApplyError
  write_under target text s =
      let (s', dir_fails) = D.mkdir_all (dir target) s in
      if dir_fails
      then (s', some (mkdir_failed (dir target)))
      else (let (s'', write_fails) = D.write_file target text s' in
          (s'', if write_fails then some (write_failed target) else none))

  unfoldable pub apply_write : Event → Bytes → D.State → D.State × Option ApplyError
  apply_write ev dest_root s = elim (safe_path dest_root ev.rel_path) [
    | err e ↦ (s, some e)
    | ok target ↦ write_under target ev.payload s
  ]

  unfoldable pub apply_remove : Event → Bytes → D.State → D.State × Option ApplyError
  apply_remove ev dest_root s = elim (safe_path dest_root ev.rel_path) [
    | err e ↦ (s, some e)
    | ok target ↦
        let (s', fails) = D.remove_all target s in
        (s', if fails then some (remove_failed target) else none)
  ]

  unfoldable pub rename_under : Bytes → Bytes → D.State → D.State × Option ApplyError
  rename_under old_target new_target s =
      let (s', dir_fails) = D.mkdir_all (dir new_target) s in
      if dir_fails
      then (s', some (mkdir_failed (dir new_target)))
      else (let (s'', fails) = D.rename old_target new_target s' in
          (s'', if fails then some (rename_failed old_target) else none))

  unfoldable pub apply_rename : Event → Bytes → D.State → D.State × Option ApplyError
  apply_rename ev dest_root s = elim (safe_path dest_root ev.old_rel_path) [
    | err e ↦ (s, some e)
    | ok old_target ↦ elim (safe_path dest_root ev.rel_path) [
      | err e ↦ (s, some e)
      | ok new_target ↦ rename_under old_target new_target s
    ]
  ]

  unfoldable pub apply_op : Op → Event → Bytes → D.State → D.State × Option ApplyError
  apply_op write ev dest_root s = apply_write ev dest_root s
  apply_op remove ev dest_root s = apply_remove ev dest_root s
  apply_op rename ev dest_root s = apply_rename ev dest_root s
  apply_op op ev dest_root s = (s, some (unknown_op op))

  -- `Apply`.
  unfoldable pub apply : Event → Bytes → D.State → D.State × Option ApplyError
  apply ev dest_root s = apply_op ev.op ev dest_root s

  -- `ApplyConflict`, with the current time as its decimal text.
  unfoldable pub apply_conflict : Event → Bytes → Bytes → D.State → D.State × Result Bytes
  apply_conflict ev dest_root now s = elim (safe_path dest_root ev.rel_path) [
    | err e ↦ (s, err e)
    | ok target ↦
        let conflict_path = conflict_path_of target ev.origin now in
        let (s', failure) = write_under conflict_path ev.payload s in
        (s', elim failure [ none ↦ ok conflict_path | some e ↦ err e ])
  ]
