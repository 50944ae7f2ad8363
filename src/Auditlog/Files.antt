-- ===== src/Auditlog/Files.antt =====
-- The files of a directory as internal/auditlog calls them: package os over an unknown state. A call
-- gives the state after it and whether it failed.
use jsync.Base.{
  ℕ, ◌≤◌, ◌≡◌, ◌≢◌, Bool, true, false, Option, none, some, ◌++◌, Bytes, length, take, [],
}
use jsync.FilePath.{parse}

pub record LogFiles : Type 1 where
  pub State : Type 0
  -- the bytes of a file; `none` where there is none
  pub content : Bytes → State → Option Bytes
  pub mkdir_all : Bytes → State → State × Bool
  pub remove : Bytes → State → State × Bool
  pub rename : Bytes → Bytes → State → State × Bool
  -- `OpenFile` with `O_CREATE|O_WRONLY|O_APPEND`
  pub open_append : Bytes → State → State × Bool
  -- the bytes written, at the end of the file
  pub write : Bytes → Bytes → State → State × ℕ × Bool
  -- `WriteFile` of a whole file
  pub write_file : Bytes → Bytes → State → State × Bool

-- The bytes of a file that is opened for appending.
abbrev pub opened : Option Bytes → Bytes
opened none = []
opened (some text) = text

-- A rename that succeeds leaves nothing at the old name, when the names differ, and one that fails
-- moves nothing; removing and renaming leave the files of other names alone; opening creates a
-- file that is missing, and changes nothing when it fails; a write appends a beginning of its text.
pub record IsLawful (F : LogFiles) : Type 0 where
  pub content-rename_old :
      (p p' : Bytes) (s : F.State)
      → parse p ≢ parse p'
      → (F.rename p p' s).1 ≡ false
      → F.content p (F.rename p p' s).0 ≡ none
  pub content-rename_failed :
      (p p' q : Bytes) (s : F.State)
      → (F.rename p p' s).1 ≡ true
      → F.content q (F.rename p p' s).0 ≡ F.content q s
  pub content-rename_ne :
      (p p' q : Bytes) (s : F.State)
      → parse q ≢ parse p
      → parse q ≢ parse p'
      → F.content q (F.rename p p' s).0 ≡ F.content q s
  pub content-remove_ne :
      (p q : Bytes) (s : F.State) → parse q ≢ parse p → F.content q (F.remove p s).0 ≡ F.content q s
  pub content-open_failed :
      (p : Bytes) (s : F.State)
      → (F.open_append p s).1 ≡ true
      → F.content p (F.open_append p s).0 ≡ F.content p s
  pub content-open :
      (p : Bytes) (s : F.State)
      → (F.open_append p s).1 ≡ false
      → F.content p (F.open_append p s).0 ≡ some (opened (F.content p s))
  pub content-write :
      (p text old : Bytes) (s : F.State)
      → F.content p s ≡ some old
      → F.content p (F.write p text s).0 ≡ some (old ++ take (F.write p text s).1 text)
  pub write-le : (p text : Bytes) (s : F.State) → (F.write p text s).1 ≤ length text
