-- ===== src/Pipeline/Archive.antt =====
-- internal/pipeline/archive.go: the entries of an archive, and the estimate of its size.
-- The tree on the disk, the hash and the exclusion of paths are arguments.
pub mod Estimate
use jsync.Base.{
  ℕ, zero, suc, ◌+◌, Bool, true, false, Option, none, some, List, [], ◌∷◌, ◌++◌, Bytes, nat_eq,
  bytes_eq, ◌==◌, length, if◌then◌else◌,
}
use jsync.Base.Dict
use jsync.Base.Dict.{Dict}
use jsync.Base.Options.{◌>>=◌}
use jsync.FilePath.{dot, slash, base, clean, rel}
use jsync.Pipeline.Extract.{TarHeader, TypeFlag, type_dir, type_reg, type_symlink}

-- A tree as the walk meets it, each entry with its full path: one that the walk
-- reports an error for, a regular file with its mode, its size and what can be read of it, a link with its target, a
-- directory. `none` is a file that does not open and a link that cannot be read.
mutual
  pub data Source : Type 0 where
    unreadable : Source
    regular : Bytes → ℕ → ℕ → Option Bytes → Source
    link : Bytes → Option Bytes → Source
    folder : Bytes → ℕ → Sources → Source

  pub data Sources : Type 0 where
    nil : Sources
    cons : Source → Sources → Sources

-- An entry that is written: its header and its bytes.
pub record Written : Type 0 where
  pub header : TarHeader
  pub text : Bytes

-- `none` excludes nothing.
unfoldable pub excludes : Option (Bytes → Bool) → Bytes → Bool
excludes none r = false
excludes (some matches) r = matches r

module _ (sha256 : Bytes → Bytes) (skip : Dict Bytes Bytes) (matcher : Option (Bytes → Bool)) where
  unfoldable pub header_of : TypeFlag → Bytes → ℕ → Bytes → TarHeader
  header_of typeflag name mode linkname = record {
    name = name;
    typeflag = typeflag;
    mode = mode;
    linkname = linkname;
  }

  -- The header and the copy. tar refuses a file whose bytes are not as many as its header says.
  unfoldable pub write_regular : Bytes → ℕ → ℕ → Option Bytes → Option (List Written)
  write_regular r mode size none = none
  write_regular r mode size (some text) =
      if length text == size
      then some (record { header = header_of type_reg r mode []; text = text } ∷ [])
      else none

  -- Whether a file still hashes to what the receiver has; `none` is a file that does not open.
  unfoldable pub file_matches_hash : Option Bytes → Bytes → Option Bool
  file_matches_hash none wanted = none
  file_matches_hash (some text) wanted = some (sha256 text == wanted)

  unfoldable pub add_regular : Bytes → ℕ → ℕ → Option Bytes → Option (List Written)
  add_regular r mode size content = elim (Dict.lookup r skip) [
    | none ↦ write_regular r mode size content
    | some wanted ↦ elim (file_matches_hash content wanted) [
      | none ↦ none
      | some true ↦ some []
      | some false ↦ write_regular r mode size content
    ]
  ]

  unfoldable pub add_link : Bytes → Option Bytes → Option (List Written)
  add_link r none = none
  add_link r (some target) =
      some (record { header = header_of type_symlink r 511 target; text = [] } ∷ [])

  unfoldable pub folder_entry : Bytes → ℕ → Written
  folder_entry r mode = record {
    header = header_of type_dir (r ++ (slash ∷ [])) mode [];
    text = [];
  }

  -- The walk below a root; `none` is an error, which ends it.
  unfoldable mutual
    pub add_source : Bytes → Source → Option (List Written)
    add_source root unreadable = none
    add_source root (regular path mode size content) = do
      r ← rel root path
      (if excludes matcher r then some [] else add_regular r mode size content)
    add_source root (link path target) = do
      r ← rel root path
      (if excludes matcher r then some [] else add_link r target)
    add_source root (folder path mode entries) =
        let below = add_sources root entries in
        do
          r ← rel root path
          (if excludes matcher r
              then some []
              else (do written ← below; some (folder_entry r mode ∷ written)))

    pub add_sources : Bytes → Sources → Option (List Written)
    add_sources root nil = some []
    add_sources root (cons t ts) =
        let rest = add_sources root ts in
        do first ← add_source root t; more ← rest; some (first ++ more)

  -- `walkAndAdd` at the root, which has no entry of its own when it is a directory and is called by its
  -- last element when it is not.
  unfoldable pub write_archive : Bytes → Source → Option (List Written)
  write_archive root unreadable = none
  write_archive root (folder path mode entries) = add_sources (clean root) entries
  write_archive root (regular path mode size content) =
      let r = base (clean root) in
      if excludes matcher r then some [] else add_regular r mode size content
  write_archive root (link path target) =
      let r = base (clean root) in if excludes matcher r then some [] else add_link r target

  -- What `EstimateSendSize` counts for one file.
  unfoldable pub counted : Bytes → ℕ → ℕ
  counted r size =
      if excludes matcher r then 0 else elim (Dict.lookup r skip) [ none ↦ size | some _ ↦ 0 ]

  unfoldable mutual
    pub estimate_source : Bytes → Source → Option ℕ
    estimate_source root unreadable = none
    estimate_source root (regular path mode size content) = do
      r ← rel root path
      some (counted r size)
    estimate_source root (link path target) = do r ← rel root path; some 0
    estimate_source root (folder path mode entries) =
        let below = estimate_sources root entries in
        do r ← rel root path; (if excludes matcher r then some 0 else below)

    pub estimate_sources : Bytes → Sources → Option ℕ
    estimate_sources root nil = some 0
    estimate_sources root (cons t ts) =
        let rest = estimate_sources root ts in do n ← estimate_source root t; m ← rest; some (n + m)

  unfoldable pub estimate_send_size : Bytes → Source → Option ℕ
  estimate_send_size root unreadable = none
  estimate_send_size root (folder path mode entries) = estimate_sources (clean root) entries
  estimate_send_size root (regular path mode size content) = some (counted (base (clean root)) size)
  estimate_send_size root (link path target) = some 0
