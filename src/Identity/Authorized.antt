-- ===== src/Identity/Authorized.antt =====
-- internal/identity/authorized_clients.go: the list of trusted keys and its file.
-- encoding/base64, strings.TrimSpace and the sorting of strings are arguments.
pub mod Persisted
use jsync.Base.{
  ℕ, ◌≡◌, ◌≢◌, Bool, true, false, not, ◌&&◌, ◌||◌, Option, none, some, List, [], ◌∷◌, ◌++◌, Bytes,
  nat_eq, bytes_eq, ◌==◌, codes, length, All, if◌then◌else◌,
}
use jsync.Base.Dict
use jsync.Base.Dict.{Dict}
use jsync.FilePath.{has_prefix}

pub record AuthorizedClients : Type 0 where
  pub path : Bytes
  -- base64 of a key, and true
  pub keys : Dict Bytes Bool

pub record TextLibrary : Type 0 where
  pub encode : Bytes → Bytes
  pub decode : Bytes → Option Bytes
  pub trim_space : Bytes → Bytes
  pub sort : List Bytes → List Bytes

-- What opening and reading the file gives.
pub data FileRead : Type 0 where
  missing : FileRead
  failed : FileRead
  text : Bytes → FileRead

abbrev pub newline : ℕ
newline = b'\n'

-- A carriage return before a newline is dropped.
unfoldable pub drop_cr : Bytes → Bytes
drop_cr [] = []
drop_cr (c ∷ []) = if c == b'\r' then [] else c ∷ []
drop_cr (c ∷ c' ∷ s) = c ∷ drop_cr (c' ∷ s)

-- `bufio.ScanLines`, with what was read of a line so far; a last line without an end counts when it
-- is not empty.
unfoldable pub scan_lines : Bytes → Bytes → List Bytes
scan_lines line [] = if line == [] then [] else drop_cr line ∷ []
scan_lines line (c ∷ s) =
    let ended = scan_lines [] s in
    let going = scan_lines (line ++ (c ∷ [])) s in
    if c == newline then drop_cr line ∷ ended else going

module _ (X : TextLibrary) where
  unfoldable pub decode_public_key : Bytes → Option Bytes
  decode_public_key s = elim (X.decode s) [
    | none ↦ none
    | some raw ↦ if length raw == 32 then some raw else none
  ]

  unfoldable pub skipped_line : Bytes → Bool
  skipped_line line = line == [] || has_prefix line (b'#' ∷ [])

  -- The loop of `LoadAuthorizedClients`.
  unfoldable pub load_lines : List Bytes → Dict Bytes Bool → Option (Dict Bytes Bool)
  load_lines [] keys = some keys
  load_lines (read ∷ rest) keys =
      let line = X.trim_space read in
      let skipped = load_lines rest keys in
      let added = load_lines rest (Dict.insert line true keys) in
      if skipped_line line
      then skipped
      else elim (decode_public_key line) [ none ↦ none | some raw ↦ added ]

  -- `none` is an error: the file does not open, or a line is no key.
  unfoldable pub load_authorized_clients : Bytes → FileRead → Option AuthorizedClients
  load_authorized_clients path missing = some (record { path = path; keys = [] })
  load_authorized_clients path failed = none
  load_authorized_clients path (text s) = elim (load_lines (scan_lines [] s) []) [
    | none ↦ none
    | some keys ↦ some (record { path = path; keys = keys })
  ]

  -- A Go map of Booleans reads a missing key as false.
  abbrev pub or_false : Option Bool → Bool
  or_false none = false
  or_false (some b) = b

  unfoldable pub is_authorized : AuthorizedClients → Bytes → Bool
  is_authorized ac pub_key = or_false (Dict.lookup (X.encode pub_key) ac.keys)

  unfoldable pub key_list : Dict Bytes Bool → List Bytes
  key_list [] = []
  key_list ((k, _) ∷ keys) = k ∷ key_list keys

  unfoldable pub join_lines : List Bytes → Bytes
  join_lines [] = []
  join_lines (line ∷ rest) = line ++ (newline ∷ join_lines rest)

  -- The text that `save` writes.
  unfoldable pub saved : AuthorizedClients → Bytes
  saved ac = join_lines (X.sort (key_list ac.keys))

  -- `Add` and `Remove`: the list in memory changes first, then its text is written.
  unfoldable pub add : AuthorizedClients → Bytes → AuthorizedClients × Bytes
  add ac pub_key =
      let ac' = record ac { keys = Dict.insert (X.encode pub_key) true ac.keys } in (ac', saved ac')

  unfoldable pub remove : AuthorizedClients → Bytes → AuthorizedClients × Bytes
  remove ac pub_key =
      let ac' = record ac { keys = Dict.delete (X.encode pub_key) ac.keys } in (ac', saved ac')
