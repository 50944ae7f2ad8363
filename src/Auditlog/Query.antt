-- ===== src/Auditlog/Query.antt =====
-- internal/auditlog/read.go: the records of the logs of a directory that a query selects.
-- What bufio makes of a file, the glob over the directory and the sorting of a slice are arguments.
use jsync.Base.{
  ℕ, zero, suc, Bool, true, false, not, ◌&&◌, ◌||◌, Option, none, some, List, [], ◌∷◌, ◌++◌, Bytes,
  nat_eq, bytes_eq, ◌==◌, codes, ltb, if◌then◌else◌,
}
use jsync.Base.Options.{◌>>=◌}
use jsync.FilePath.{join, has_prefix}
use jsync.Auditlog.{Record, Formats, root_key, backup_path, max_backups}

-- The zero time and the empty texts select everything.
pub record Query : Type 0 where
  pub root : Bytes
  pub session : Bytes
  pub path : Bytes
  pub since : ℕ

-- `strings.Contains`.
unfoldable pub contains : Bytes → Bytes → Bool
contains [] sub = has_prefix [] sub
contains (c ∷ s) sub = has_prefix (c ∷ s) sub || contains s sub

unfoldable pub matches : Record → Query → Bool
matches r q =
    if not (q.session == []) && not (r.session == q.session)
    then false
    else if not (q.path == [])
        && (not (contains r.rel_path q.path) && not (contains r.old_rel_path q.path))
    then false
    else if not (q.since == 0) && ltb r.time q.since
    then false
    else true

-- What reading a file line by line gives.
pub data FileRead : Type 0 where
  missing : FileRead
  failed : FileRead
  -- the lines up to the end
  lines : List Bytes → FileRead

module _ (X : Formats) where
  -- The backups from the oldest to the newest, then the live file.
  unfoldable pub backups : Bytes → ℕ → List Bytes
  backups base zero = []
  backups base (suc n) = backup_path X base (suc n) ∷ backups base n

  unfoldable pub generations : Bytes → List Bytes
  generations base = backups base max_backups ++ (base ∷ [])

  -- A line that cannot be read is left out.
  unfoldable pub parse_lines : List Bytes → List Record
  parse_lines [] = []
  parse_lines (line ∷ rest) =
      let recs = parse_lines rest in
      if line == [] then recs else elim (X.unmarshal line) [ none ↦ recs | some r ↦ r ∷ recs ]

  -- `none` is an error.
  unfoldable pub read_file : FileRead → Option (List Record)
  read_file missing = some []
  read_file failed = none
  read_file (lines ls) = some (parse_lines ls)

  unfoldable pub keep_matching : Query → List Record → List Record
  keep_matching q [] = []
  keep_matching q (r ∷ recs) =
      let rest = keep_matching q recs in if matches r q then r ∷ rest else rest

  module _ (files : Bytes → FileRead) where
    unfoldable pub collect_files : Query → List Bytes → Option (List Record)
    collect_files q [] = some []
    collect_files q (path ∷ paths) =
        let rest = collect_files q paths in
        do recs ← read_file (files path); more ← rest; some (keep_matching q recs ++ more)

    unfoldable pub collect : Query → Bytes → List Bytes → Option (List Record)
    collect q dir [] = some []
    collect q dir (stem ∷ stems) =
        let rest = collect q dir stems in
        do
          recs ← collect_files q (generations (join dir (stem ++ codes ".jsonl")))
          more ← rest
          some (recs ++ more)

    -- `List`, with the stems that the glob finds; `none` is an error.
    unfoldable pub list :
        (List Record → List Record) → Bytes → List Bytes → Query → Option (List Record)
    list sort dir globbed q = do
      recs ← collect q dir (if q.root == [] then globbed else root_key X q.root ∷ [])
      some (sort recs)
