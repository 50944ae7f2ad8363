-- ===== src/Pipeline/Extract/Storage.antt =====
-- The file system as internal/pipeline calls it: package os over an unknown state. A call gives the
-- state after it and its error, if any.
use jsync.Base.{ℕ, ◌≡◌, Option, none, some, Bytes}
use jsync.FilePath.{parse}
use jsync.FilePath.Inside.{Inside}

-- The errors that the callers tell apart: ENOENT, EPERM, ENOTSUP and the rest.
pub data OsError : Type 0 where
  not_exist not_permitted not_supported failure : OsError

pub record Volume : Type 1 where
  pub State : Type 0
  -- what stands at a path: a file, a link or a directory with all that is below it
  pub Content : Type 0
  pub content : Bytes → State → Option Content
  pub mkdir_all : Bytes → State → State × Option OsError
  -- `OpenFile` with `O_CREATE|O_TRUNC|O_WRONLY` and a mode
  pub create : Bytes → ℕ → State → State × Option OsError
  -- bytes onto the end of the open file
  pub append : Bytes → Bytes → State → State × Option OsError
  pub remove : Bytes → State → State × Option OsError
  -- the text of the link, and where it stands
  pub symlink : Bytes → Bytes → State → State × Option OsError
  pub lstat : Bytes → State → Option OsError
  pub rename : Bytes → Bytes → State → State × Option OsError
  pub remove_all : Bytes → State → State × Option OsError

-- Neither path is the other or below it.
pub record AreApart (p q : Bytes) : Type 0 where
  pub right : ¬ Inside (parse p) (parse q)
  pub left : ¬ Inside (parse q) (parse p)

-- What making directories, renaming and removing do to what stands elsewhere; a rename moves all of
-- it or, when it fails, nothing.
pub record IsLawful (V : Volume) : Type 0 where
  pub content-mkdir :
      (p q : Bytes) (s : V.State)
      → ¬ Inside (parse q) (parse p)
      → V.content q (V.mkdir_all p s).0 ≡ V.content q s
  pub content-rename :
      (p p' : Bytes) (s : V.State)
      → (V.rename p p' s).1 ≡ none
      → V.content p' (V.rename p p' s).0 ≡ V.content p s
  pub content-rename_failed :
      (p p' q : Bytes) (s : V.State) {e : OsError}
      → (V.rename p p' s).1 ≡ some e
      → V.content q (V.rename p p' s).0 ≡ V.content q s
  pub content-rename_ne :
      (p p' q : Bytes) (s : V.State)
      → AreApart p q
      → AreApart p' q
      → V.content q (V.rename p p' s).0 ≡ V.content q s
  pub content-remove_all :
      (p q : Bytes) (s : V.State) → AreApart p q → V.content q (V.remove_all p s).0 ≡ V.content q s
