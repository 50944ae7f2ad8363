-- ===== src/Syncfs/Disk.antt =====
-- The file system as internal/syncfs calls it: package os over an unknown state. A call gives the
-- state after it and whether it failed.
use jsync.Base.{◌≡◌, ◌≢◌, Bool, false, Option, some, Bytes}
use jsync.FilePath.{parse}
use jsync.FilePath.Inside.{Inside}

pub record Disk : Type 1 where
  pub State : Type 0
  pub mkdir_all : Bytes → State → State × Bool
  pub write_file : Bytes → Bytes → State → State × Bool
  pub remove_all : Bytes → State → State × Bool
  pub rename : Bytes → Bytes → State → State × Bool
  -- `none` is an error
  pub read_file : Bytes → State → Option Bytes

-- What package os does to the contents of files, on a tree without links: a write that succeeds is
-- read back, a write changes one file only, making directories changes none, and removing or
-- renaming a path leaves alone what is not below it. Paths that clean to the same one are the same.
pub record IsLawful (D : Disk) : Type 0 where
  pub read-write :
      (p : Bytes) (text : Bytes) (s : D.State)
      → (D.write_file p text s).1 ≡ false
      → D.read_file p (D.write_file p text s).0 ≡ some text
  pub read-write_ne :
      (p q : Bytes) (text : Bytes) (s : D.State)
      → parse p ≢ parse q
      → D.read_file q (D.write_file p text s).0 ≡ D.read_file q s
  pub read-mkdir : (p q : Bytes) (s : D.State) → D.read_file q (D.mkdir_all p s).0 ≡ D.read_file q s
  pub read-remove :
      (p q : Bytes) (s : D.State)
      → ¬ Inside (parse p) (parse q)
      → D.read_file q (D.remove_all p s).0 ≡ D.read_file q s
  pub read-rename :
      (p p' q : Bytes) (s : D.State)
      → ¬ Inside (parse p) (parse q)
      → ¬ Inside (parse p') (parse q)
      → D.read_file q (D.rename p p' s).0 ≡ D.read_file q s
