-- ===== src/Tests/Extract.antt =====
-- An archive into a sandbox, and a commit, on a volume in memory.
use jsync.Base.{
  ◌≡◌, refl, ◌≢◌, inl, inr, false, Option, none, some, List, [], ◌∷◌, Bytes, codes, arith,
  if◌then◌else◌,
}
use jsync.FilePath.{Cleaned, parse, cleaned_beq, confined, dir}
use jsync.FilePath.Inside.{Inside, confined_iff, cleaned_beq_refl}
use jsync.Tests.Toy.{cleaned_beq-outside}
use jsync.Pipeline.Extract.{
  type_reg, type_symlink, whole, cut, TarStream, eof, entry, extract_archive, stale_path,
  commit_sandbox,
}
use jsync.Pipeline.Extract.Storage
use jsync.Pipeline.Extract.Storage.{Volume, AreApart}
use jsync.Pipeline.Extract.Confined.{Touched, extract_archive-Touched}
use jsync.Pipeline.Extract.Commit.{IsLaidOut, Holds, commit_sandbox-Holds}

abbrev pub Items : Type 0
Items = Cleaned → Option Bytes

-- Every directory is there, and a file stands for all that is at its path.
abbrev pub volume : Volume
volume = record {
  State = Items;
  Content = Bytes;
  content = λ p s. s (parse p);
  mkdir_all = λ p s. (s, none);
  create = λ p mode s. (λ c. if cleaned_beq (parse p) c then some [] else s c, none);
  append = λ p text s. (λ c. if cleaned_beq (parse p) c then some text else s c, none);
  remove = λ p s. (λ c. if cleaned_beq (parse p) c then none else s c, none);
  symlink = λ linkname p s. (λ c. if cleaned_beq (parse p) c then some linkname else s c, none);
  lstat = λ p s. elim (s (parse p)) [ none ↦ some Storage.not_exist | some _ ↦ none ];
  rename = λ p p' s. (λ c. if cleaned_beq (parse p') c then s (parse p) else s c, none);
  remove_all = λ p s. (λ c. if cleaned_beq (parse p) c then none else s c, none);
}

pub volume-IsLawful : Storage.IsLawful volume
volume-IsLawful = record {
  content-mkdir = λ p q s h. refl;
  content-rename = λ p p' s h. rw (cleaned_beq_refl (parse p')) refl;
  content-rename_failed = λ p p' q s h. cc;
  content-rename_ne = λ p p' q s h h'. rw (cleaned_beq-outside (parse p') (parse q) h'.right) refl;
  content-remove_all = λ p q s h. rw (cleaned_beq-outside (parse p) (parse q) h.right) refl;
}

abbrev sandbox : Bytes
sandbox = codes "/s/.t"

abbrev dest : Bytes
dest = codes "/s/d"

-- A link to a sibling, a file that is cut short, and nothing after it.
abbrev pub stream : TarStream
stream =
    entry (record { name = codes "l"; typeflag = type_symlink; mode = 0; linkname = codes "f" })
      (whole [])
      (entry (record { name = codes "f"; typeflag = type_reg; mode = 420; linkname = [] })
        (cut (1 ∷ [])) eof)

extract_archive-Touched_example :
    Touched volume sandbox
      (λ c. none)
      (extract_archive volume (λ text. text) sandbox (some stream) (λ c. none)).0
extract_archive-Touched_example =
    extract_archive-Touched volume sandbox (λ text. text) (some stream) (λ c. none)

outside : (p q : Bytes) → confined p q ≡ false → ¬ Inside (parse p) (parse q)
outside p q h i = let (_, from) = confined_iff p q in let yes = from i in ground arith

laid_out : IsLaidOut sandbox dest
unfolding confined jsync.FilePath.rel jsync.FilePath.rel_of jsync.FilePath.cleaned_beq
    jsync.FilePath.same_root parse jsync.FilePath.is_rooted jsync.Base.list_beq
    jsync.FilePath.push_parts jsync.FilePath.split_slash jsync.FilePath.extend_first
    jsync.FilePath.push_part jsync.FilePath.from_stripped jsync.FilePath.strip_common
    jsync.FilePath.target_parts jsync.FilePath.escapes jsync.FilePath.join_slash
    jsync.FilePath.go_up jsync.FilePath.has_prefix jsync.FilePath.dir jsync.FilePath.drop_last
    jsync.FilePath.clean jsync.FilePath.render jsync.FilePath.base jsync.FilePath.last_element
laid_out = record {
  sandbox_dest = record { right = outside sandbox dest refl; left = outside dest sandbox refl };
  stale_sandbox = record {
    right = outside (stale_path sandbox dest) sandbox refl;
    left = outside sandbox (stale_path sandbox dest) refl;
  };
  stale_dest = record {
    right = outside (stale_path sandbox dest) dest refl;
    left = outside dest (stale_path sandbox dest) refl;
  };
  above_dest = outside dest (dir dest) refl;
  above_sandbox = outside sandbox (dir dest) refl;
}

abbrev files : Items
files = λ c. if cleaned_beq (parse sandbox) c then some (1 ∷ []) else some (2 ∷ [])

commit_sandbox-Holds_example :
    Holds volume volume-IsLawful sandbox dest laid_out
      (volume.content dest files)
      (volume.content sandbox files)
      (commit_sandbox volume sandbox dest files).1
      (commit_sandbox volume sandbox dest files).0
commit_sandbox-Holds_example =
    commit_sandbox-Holds volume volume-IsLawful sandbox dest laid_out files
