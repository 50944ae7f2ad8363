-- ===== src/Pipeline/Extract.antt =====
-- internal/pipeline/extract.go: an archive into a sandbox, and the sandbox into its place.
-- What archive/tar, compress/gzip and crypto/sha256 give is an argument.
pub mod Storage
pub mod Confined
pub mod Commit
use jsync.Base.{
  ℕ, zero, suc, ◌+◌, Bool, true, false, not, ◌&&◌, ◌||◌, Option, none, some, List, [], ◌∷◌, ◌++◌,
  Bytes, nat_eq, bytes_eq, ◌==◌, codes, length, leb, if◌then◌else◌,
}
use jsync.FilePath.{join, dir, base, confined, has_prefix, is_abs}
use Storage.{Volume, OsError, not_exist, not_permitted, not_supported, failure}

unfoldable pub sandbox_path : Bytes → Bytes → Bytes
sandbox_path dest_dir session_id = join (dir dest_dir) (codes ".jsync_tmp_" ++ session_id)

-- One entry: its kind, and for a regular file what can be read of it.
pub data TypeFlag : Type 0 where
  type_dir type_reg type_symlink type_other : TypeFlag

pub record TarHeader : Type 0 where
  pub name : Bytes
  pub typeflag : TypeFlag
  pub mode : ℕ
  pub linkname : Bytes

-- The bytes of a file up to its end, or up to where the stream fails.
pub data Body : Type 0 where
  whole : Bytes → Body
  cut : Bytes → Body

-- What `Next` gives until it gives no more.
pub data TarStream : Type 0 where
  eof : TarStream
  broken : TarStream
  entry : TarHeader → Body → TarStream → TarStream

pub data ExtractError : Type 0 where
  create_sandbox : OsError → ExtractError
  open_gzip : ExtractError
  read_entry : ExtractError
  entry_escapes : Bytes → ExtractError
  mkdir_failed : OsError → ExtractError
  create_failed : OsError → ExtractError
  write_failed : ExtractError
  absolute_target : Bytes → ExtractError
  target_escapes : Bytes → ExtractError
  remove_failed : OsError → ExtractError
  symlink_failed : OsError → ExtractError

-- The error in its wrapping is EPERM or ENOTSUP.
unfoldable pub unsupported : OsError → Bool
unsupported not_permitted = true
unsupported not_supported = true
unsupported not_exist = false
unsupported failure = false

unfoldable pub is_symlink_unsupported : ExtractError → Bool
is_symlink_unsupported e = elim e [
  | remove_failed cause ↦ unsupported cause
  | symlink_failed cause ↦ unsupported cause
  | _ ↦ false
]

-- `none` is the refusal.
unfoldable pub safe_join : Bytes → Bytes → Option Bytes
safe_join sandbox name =
    let target = join sandbox name in if confined sandbox target then some target else none

unfoldable pub is_letter : ℕ → Bool
is_letter c = (leb b'a' c && leb c b'z') || (leb b'A' c && leb c b'Z')

unfoldable pub is_drive : Bytes → Bool
is_drive [] = false
is_drive (c ∷ []) = false
is_drive (c ∷ c' ∷ _) = c' == b':' && is_letter c

unfoldable pub looks_absolute : Bytes → Bool
looks_absolute linkname =
    has_prefix linkname (b'/' ∷ [])
    || has_prefix linkname (b'\\' ∷ [])
    || is_drive linkname
    || is_abs linkname

-- `none` is the approval.
unfoldable pub safe_symlink_target : Bytes → Bytes → Bytes → Option ExtractError
safe_symlink_target sandbox entry_target linkname =
    if looks_absolute linkname
    then some (absolute_target linkname)
    else if confined sandbox (join (dir entry_target) linkname)
    then none
    else some (target_escapes linkname)

-- What the two callbacks were told.
pub record Reports : Type 0 where
  pub completed : List (Bytes × Bytes × ℕ)
  pub skipped : List (Bytes × ExtractError)

module _ (V : Volume) (sha256 : Bytes → Bytes) where
  -- The hash and the size, or the error.
  unfoldable pub write_regular_file :
      Bytes → Body → ℕ → V.State → V.State × Option ExtractError × Bytes × ℕ
  write_regular_file target body mode s =
      let (opened, e) = V.create target (if mode == 0 then 0o600 else mode) s in
      elim e [
        | some cause ↦ (opened, some (create_failed cause), [], 0)
        | none ↦ elim body [
          | cut text ↦ ((V.append target text opened).0, some write_failed, [], 0)
          | whole text ↦
              let (written, failed) = V.append target text opened in
              elim failed [
                | some _ ↦ (written, some write_failed, [], 0)
                | none ↦ (written, none, sha256 text, length text)
              ]
        ]
      ]

  unfoldable pub make_link : Bytes → Bytes → V.State → V.State × Option ExtractError
  make_link target linkname s =
      let (linked, e) = V.symlink linkname target s in
      elim e [ none ↦ (linked, none) | some cause ↦ (linked, some (symlink_failed cause)) ]

  unfoldable pub write_symlink : Bytes → Bytes → V.State → V.State × Option ExtractError
  write_symlink target linkname s =
      let (cleared, e) = V.remove target s in
      elim e [
        | none ↦ make_link target linkname cleared
        | some not_exist ↦ make_link target linkname cleared
        | some not_permitted ↦ (cleared, some (remove_failed not_permitted))
        | some not_supported ↦ (cleared, some (remove_failed not_supported))
        | some failure ↦ (cleared, some (remove_failed failure))
      ]

  unfoldable pub extract_dir : Bytes → V.State → V.State × Option ExtractError
  extract_dir target s =
      let (made, e) = V.mkdir_all target s in
      elim e [ none ↦ (made, none) | some cause ↦ (made, some (mkdir_failed cause)) ]

  unfoldable pub extract_reg :
      TarHeader → Body → Bytes → V.State → Reports → V.State × Reports × Option ExtractError
  extract_reg hdr body target s log =
      let (made, e) = V.mkdir_all (dir target) s in
      elim e [
        | some cause ↦ (made, log, some (mkdir_failed cause))
        | none ↦
            let (written, failed, hash, size) = write_regular_file target body hdr.mode made in
            elim failed [
              | some error ↦ (written, log, some error)
              | none ↦
                  (written, record log { completed = (hdr.name, hash, size) ∷ log.completed }, none)
            ]
      ]

  unfoldable pub extract_symlink :
      Bytes → TarHeader → Bytes → V.State → Reports → V.State × Reports × Option ExtractError
  extract_symlink sandbox hdr target s log =
      elim (safe_symlink_target sandbox target hdr.linkname) [
        | some error ↦ (s, log, some error)
        | none ↦
            let (made, e) = V.mkdir_all (dir target) s in
            elim e [
              | some cause ↦ (made, log, some (mkdir_failed cause))
              | none ↦
                  let (linked, failed) = write_symlink target hdr.linkname made in
                  elim failed [
                    | none ↦ (linked, log, none)
                    | some error ↦
                        if is_symlink_unsupported error
                        then (
                          linked,
                          record log { skipped = (hdr.name, error) ∷ log.skipped },
                          none,
                        )
                        else (linked, log, some error)
                  ]
            ]
      ]

  -- The body of the loop.
  unfoldable pub extract_at :
      TypeFlag
      → Bytes
      → TarHeader
      → Body
      → Bytes
      → V.State
      → Reports
      → V.State × Reports × Option ExtractError
  extract_at type_dir sandbox hdr body target s log =
      let (made, e) = extract_dir target s in (made, log, e)
  extract_at type_reg sandbox hdr body target s log = extract_reg hdr body target s log
  extract_at type_symlink sandbox hdr body target s log = extract_symlink sandbox hdr target s log
  extract_at type_other sandbox hdr body target s log = (s, log, none)

  unfoldable pub extract_entry :
      Bytes → TarHeader → Body → V.State → Reports → V.State × Reports × Option ExtractError
  extract_entry sandbox hdr body s log = elim (safe_join sandbox hdr.name) [
    | none ↦ (s, log, some (entry_escapes hdr.name))
    | some target ↦ extract_at hdr.typeflag sandbox hdr body target s log
  ]

  unfoldable pub extract_entries :
      Bytes → TarStream → V.State → Reports → V.State × Reports × Option ExtractError
  extract_entries sandbox eof s log = (s, log, none)
  extract_entries sandbox broken s log = (s, log, some read_entry)
  extract_entries sandbox (entry hdr body rest) s log =
      let (s', log', e) = extract_entry sandbox hdr body s log in
      elim e [ some error ↦ (s', log', some error) | none ↦ extract_entries sandbox rest s' log' ]

  -- The stream is `none` when gzip refuses it.
  unfoldable pub extract_archive :
      Bytes → Option TarStream → V.State → V.State × Reports × Option ExtractError
  extract_archive sandbox stream s =
      let quiet : Reports = record { completed = []; skipped = [] } in
      let (made, e) = V.mkdir_all sandbox s in
      elim e [
        | some cause ↦ (made, quiet, some (create_sandbox cause))
        | none ↦ elim stream [
          | none ↦ (made, quiet, some open_gzip)
          | some entries ↦ extract_entries sandbox entries made quiet
        ]
      ]

abbrev pub stale_path : Bytes → Bytes → Bytes
stale_path sandbox dest = dest ++ (codes ".stale-" ++ base sandbox)

pub data CommitError : Type 0 where
  create_parent : OsError → CommitError
  clear_stale : OsError → CommitError
  move_aside : OsError → CommitError
  commit_rename : OsError → CommitError
  clean_up_old : OsError → CommitError
  stat_dest : OsError → CommitError

module _ (V : Volume) where
  unfoldable pub land : Bytes → Bytes → V.State → V.State × Option CommitError
  land sandbox dest s =
      let (moved, e) = V.rename sandbox dest s in
      elim e [ none ↦ (moved, none) | some cause ↦ (moved, some (commit_rename cause)) ]

  unfoldable pub swap_in : Bytes → Bytes → Bytes → V.State → V.State × Option CommitError
  swap_in sandbox dest stale s =
      let (aside, e) = V.rename dest stale s in
      elim e [
        | some cause ↦ (aside, some (move_aside cause))
        | none ↦
            let (landed, failed) = land sandbox dest aside in
            elim failed [
              | some error ↦ (landed, some error)
              | none ↦
                  let (cleaned, e') = V.remove_all stale landed in
                  elim e' [
                    | none ↦ (cleaned, none)
                    | some cause ↦ (cleaned, some (clean_up_old cause))
                  ]
            ]
      ]

  unfoldable pub replace_dest : Bytes → Bytes → Bytes → V.State → V.State × Option CommitError
  replace_dest sandbox dest stale s =
      let (cleared, e) = V.remove_all stale s in
      elim e [
        | some cause ↦ (cleared, some (clear_stale cause))
        | none ↦ swap_in sandbox dest stale cleared
      ]

  unfoldable pub commit_sandbox : Bytes → Bytes → V.State → V.State × Option CommitError
  commit_sandbox sandbox dest s =
      let (made, e) = V.mkdir_all (dir dest) s in
      elim e [
        | some cause ↦ (made, some (create_parent cause))
        | none ↦ elim (V.lstat dest made) [
          | none ↦ replace_dest sandbox dest (stale_path sandbox dest) made
          | some not_exist ↦ land sandbox dest made
          | some not_permitted ↦ (made, some (stat_dest not_permitted))
          | some not_supported ↦ (made, some (stat_dest not_supported))
          | some failure ↦ (made, some (stat_dest failure))
        ]
      ]

  unfoldable pub abort_sandbox : Bytes → V.State → V.State × Option OsError
  abort_sandbox sandbox s = V.remove_all sandbox s
