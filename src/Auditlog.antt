-- ===== src/Auditlog.antt =====
-- internal/auditlog: the log of what a synchronised root saw, one record to a line.
-- encoding/json and the decimals of a number are arguments; a time is a number, and 0 is the zero time.
pub mod Files
pub mod Query
pub mod Size
use jsync.Base.{
  ℕ, zero, suc, ◌+◌, ◌-◌, Bool, true, false, not, ◌&&◌, ◌||◌, Option, none, some, List, [], ◌∷◌,
  ◌++◌, Bytes, nat_eq, bytes_eq, ◌==◌, codes, length, take, ltb, if◌then◌else◌,
}
use jsync.FilePath.{clean, join}
use Files.{LogFiles, opened}

abbrev pub default_max_bytes : ℕ
default_max_bytes = 8388608

abbrev pub max_backups : ℕ
max_backups = 4

pub record Record : Type 0 where
  pub op_id : ℕ
  pub time : ℕ
  pub session : Bytes
  pub dir : Bytes
  pub origin : Bytes
  pub op : Bytes
  pub rel_path : Bytes
  pub old_rel_path : Bytes
  pub content_hash : Bytes
  pub bytes : ℕ
  pub outcome : Bytes
  pub conflict_path : Bytes
  pub detail : Bytes

pub data LogError : Type 0 where
  marshal_failed rename_failed open_failed write_failed mkdir_failed : LogError

-- `is_open` says whether there is a file handle.
pub record Logger : Type 0 where
  pub is_open : Bool
  pub path : Bytes
  pub session : Bytes
  pub max_bytes : ℕ
  pub size : ℕ
  pub err : Option LogError

unfoldable pub set_max_bytes : Logger → ℕ → Logger
set_max_bytes l n = record l { max_bytes = n }

-- The last error of a write or a rotation; a nil logger has none.
unfoldable pub last_error : Option Logger → Option LogError
last_error none = none
last_error (some l) = l.err

-- `Close`, with whether closing the file fails.
unfoldable pub close_log : Bool → Logger → Logger × Bool
close_log failed l = if l.is_open then (record l { is_open = false }, failed) else (l, false)

-- What the code takes from elsewhere: JSON, "%d", an absolute path, and the hex digest of a hash.
pub record Formats : Type 0 where
  pub marshal : Record → Option Bytes
  pub unmarshal : Bytes → Option Record
  pub decimal : ℕ → Bytes
  pub abs : Bytes → Option Bytes
  pub hex_digest : Bytes → Bytes

module _ (X : Formats) where
  unfoldable pub root_key : Bytes → Bytes
  root_key root =
      take 16 (X.hex_digest (clean (elim (X.abs root) [ none ↦ root | some found ↦ found ])))

  unfoldable pub backup_path : Bytes → ℕ → Bytes
  backup_path path n = path ++ (b'.' ∷ X.decimal n)

  -- The record as it is written: the time and the session are filled in.
  unfoldable pub stamped : Bytes → ℕ → Record → Record
  stamped own_session now r = record r {
    time = if r.time == 0 then now else r.time;
    session = if r.session == [] then own_session else r.session;
  }

  unfoldable pub line_of : Bytes → ℕ → Record → Option Bytes
  line_of own_session now r = elim (X.marshal (stamped own_session now r)) [
    | none ↦ none
    | some text ↦ some (text ++ (b'\n' ∷ []))
  ]

  module _ (F : LogFiles) where
    -- The best-effort file that maps the hashed name back to the root.
    unfoldable pub write_sidecar : Bytes → Bytes → Bytes → F.State → F.State
    write_sidecar dir key root s = elim (X.abs root) [
      | none ↦ s
      | some found ↦
          let sidecar = join dir (key ++ codes ".root") in
          elim (F.content sidecar s) [
            | some _ ↦ s
            | none ↦ (F.write_file sidecar (found ++ (b'\n' ∷ [])) s).0
          ]
    ]

    unfoldable pub open_file : Bytes → Bytes → F.State → F.State × Option Logger
    open_file path session s =
        let (s', failed) = F.open_append path s in
        let l : Logger = record {
          is_open = true;
          path = path;
          session = session;
          max_bytes = default_max_bytes;
          size = length (opened (F.content path s'));
          err = none;
        } in
        if failed then (s', none) else (s', some l)

    -- `Open`; `none` is an error.
    unfoldable pub open_log : Bytes → Bytes → Bytes → F.State → F.State × Option Logger
    open_log dir root session s =
        let (made, failed) = F.mkdir_all dir s in
        let key = root_key root in
        if failed
        then (made, none)
        else open_file (join dir (key ++ codes ".jsonl")) session (write_sidecar dir key root made)

    -- The renames of the older generations, from the oldest on; their errors are not looked at.
    unfoldable pub shift : Bytes → ℕ → F.State → F.State
    shift path zero s = s
    shift path (suc n) s =
        shift path n (F.rename (backup_path path (suc n)) (backup_path path (suc (suc n))) s).0

    unfoldable pub reopen : Logger → F.State → F.State × Logger
    reopen l s =
        let (s', failed) = F.open_append l.path s in
        if failed
        then (s', record l { is_open = false; err = some open_failed })
        else (s', record l { is_open = true; size = 0 })

    unfoldable pub rotate : Logger → F.State → F.State × Logger
    rotate l s =
        let removed = (F.remove (backup_path l.path max_backups) s).0 in
        let shifted = shift l.path (max_backups - 1) removed in
        let (moved, failed) = F.rename l.path (l.path ++ codes ".1") shifted in
        if failed
        then (moved, record l { is_open = false; err = some rename_failed })
        else reopen l moved

    unfoldable pub append_line : Bytes → Logger → F.State → F.State × Logger
    append_line text l s =
        let (s', n, failed) = F.write l.path text s in
        (s', record l { size = l.size + n; err = if failed then some write_failed else l.err })

    abbrev pub is_full : Logger → Bytes → Bool
    is_full l text = ltb 0 l.max_bytes && (ltb 0 l.size && ltb l.max_bytes (l.size + length text))

    unfoldable pub write_line : Bytes → Logger → F.State → F.State × Logger
    write_line text l s =
        let (s', l') = rotate l s in
        if is_full l text
        then (if l'.is_open then append_line text l' s' else (s', l'))
        else append_line text l s

    unfoldable pub log_open : Record → ℕ → Logger → F.State → F.State × Logger
    log_open r now l s = elim (line_of l.session now r) [
      | none ↦ (s, record l { err = some marshal_failed })
      | some text ↦ write_line text l s
    ]

    -- A logger that lost its file drops the record.
    unfoldable pub log : Record → ℕ → Logger → F.State → F.State × Logger
    log r now l s = if l.is_open then log_open r now l s else (s, l)

    -- `Log` on a nil logger does nothing.
    unfoldable pub log_maybe : Record → ℕ → Option Logger → F.State → F.State × Option Logger
    log_maybe r now none s = (s, none)
    log_maybe r now (some l) s = let (s', l') = log r now l s in (s', some l')

    -- A run of records, each with its time.
    unfoldable pub log_all : List (Record × ℕ) → Logger → F.State → F.State × Logger
    log_all [] l s = (s, l)
    log_all ((r, now) ∷ rs) l s = let (s', l') = log r now l s in log_all rs l' s'
