-- ===== src/Pipeline/Extract/Commit.antt =====
-- internal/pipeline/extract.go: what `CommitSandbox` leaves behind, on every path.
use jsync.Base.{◌≡◌, ◌∙◌, inl, inr, Option, none, some, Bytes, Option-cases}
use jsync.FilePath.{parse, dir}
use jsync.FilePath.Inside.{Inside}
use jsync.Pipeline.Extract.{
  CommitError, create_parent, stat_dest, clear_stale, move_aside, commit_rename, clean_up_old,
  stale_path, land, swap_in, replace_dest, commit_sandbox,
}
use jsync.Pipeline.Extract.Storage.{
  Volume, not_exist, not_permitted, not_supported, failure, AreApart, IsLawful,
}

-- The three places of a commit are apart, and the parent of the destination is in none of those that
-- hold something.
pub record IsLaidOut (sandbox dest : Bytes) : Type 0 where
  pub sandbox_dest : AreApart sandbox dest
  pub stale_sandbox : AreApart (stale_path sandbox dest) sandbox
  pub stale_dest : AreApart (stale_path sandbox dest) dest
  pub above_dest : ¬ Inside (parse dest) (parse (dir dest))
  pub above_sandbox : ¬ Inside (parse sandbox) (parse (dir dest))

AreApart-sym : {p q : Bytes} → AreApart p q → AreApart q p
AreApart-sym a = record { right = a.left; left = a.right }

module _ (V : Volume) (L : IsLawful V) (sandbox dest : Bytes) (laid : IsLaidOut sandbox dest) where
  abbrev pub stale : Bytes
  stale = stale_path sandbox dest

  -- Nothing has moved.
  abbrev pub Untouched : Option V.Content → Option V.Content → V.State → Type 0
  Untouched old new s = (V.content dest s ≡ old) × (V.content sandbox s ≡ new)

  -- The new content is still in the sandbox, and the old content at the destination or set aside.
  pub data Kept (old new : Option V.Content) (s : V.State) : Type 0 where
    untouched : Untouched old new s → Kept old new s
    set_aside : V.content stale s ≡ old → V.content sandbox s ≡ new → Kept old new s

  -- Where the old and the new content are after a commit that ends so.
  abbrev pub Holds : Option V.Content → Option V.Content → Option CommitError → V.State → Type 0
  Holds old new none s = V.content dest s ≡ new
  Holds old new (some (create_parent cause)) s = Untouched old new s
  Holds old new (some (stat_dest cause)) s = Untouched old new s
  Holds old new (some (clear_stale cause)) s = Untouched old new s
  Holds old new (some (move_aside cause)) s = Untouched old new s
  Holds old new (some (commit_rename cause)) s = Kept old new s
  Holds old new (some (clean_up_old cause)) s = V.content dest s ≡ new

  Kept-same :
      {old new : Option V.Content} {s t : V.State}
      → ((q : Bytes) → V.content q t ≡ V.content q s)
      → Kept old new s
      → Kept old new t
  Kept-same same (untouched (d, n)) = untouched (same dest ∙ d, same sandbox ∙ n)
  Kept-same same (set_aside d n) = set_aside (same stale ∙ d) (same sandbox ∙ n)

  land-Holds :
      (old new : Option V.Content) (s : V.State)
      → Kept old new s
      → V.content sandbox s ≡ new
      → Holds old new (land V sandbox dest s).1 (land V sandbox dest s).0
  unfolding land
  land-Holds old new s o n = elim (Option-cases (V.rename sandbox dest s).1) [
    | inl e ↦ rw (e, land) (L.content-rename sandbox dest s e ∙ n)
    | inr (cause, e) ↦ rw (e, land) (Kept-same (λ q. L.content-rename_failed sandbox dest q s e) o)
  ]

  swap_in-Holds :
      (old new : Option V.Content) (s : V.State)
      → V.content dest s ≡ old
      → V.content sandbox s ≡ new
      → Holds old new (swap_in V sandbox dest stale s).1 (swap_in V sandbox dest stale s).0
  unfolding swap_in
  swap_in-Holds old new s d n = elim (Option-cases (V.rename dest stale s).1) [
    | inr (cause, e) ↦
        rw (e, swap_in)
          (
            L.content-rename_failed dest stale dest s e ∙ d,
            L.content-rename_failed dest stale sandbox s e ∙ n,
          )
    | inl e ↦
        let aside = (V.rename dest stale s).0 in
        let old_moved : V.content stale aside ≡ old = L.content-rename dest stale s e ∙ d in
        let new_kept : V.content sandbox aside ≡ new =
          L.content-rename_ne dest stale sandbox s (AreApart-sym laid.sandbox_dest)
            laid.stale_sandbox
          ∙ n in
        let held = land-Holds old new aside (set_aside old_moved new_kept) new_kept in
        elim (Option-cases (land V sandbox dest aside).1) [
          | inr (error, f) ↦ rw (e, f, swap_in) (rw f at held)
          | inl f ↦
              let there : V.content dest (land V sandbox dest aside).0 ≡ new = rw f at held in
              let still =
                L.content-remove_all stale dest (land V sandbox dest aside).0 laid.stale_dest
                ∙ there in
              elim (Option-cases (V.remove_all stale (land V sandbox dest aside).0).1) [
                | inl g ↦ rw (e, f, g, swap_in) still
                | inr (cause, g) ↦ rw (e, f, g, swap_in) still
              ]
        ]
  ]

  replace_dest-Holds :
      (old new : Option V.Content) (s : V.State)
      → V.content dest s ≡ old
      → V.content sandbox s ≡ new
      → Holds old new
          (replace_dest V sandbox dest stale s).1
          (replace_dest V sandbox dest stale s).0
  unfolding replace_dest
  replace_dest-Holds old new s d n =
      let d' = L.content-remove_all stale dest s laid.stale_dest ∙ d in
      let n' = L.content-remove_all stale sandbox s laid.stale_sandbox ∙ n in
      elim (Option-cases (V.remove_all stale s).1) [
        | inl e ↦ rw (e, replace_dest) (swap_in-Holds old new (V.remove_all stale s).0 d' n')
        | inr (cause, e) ↦ rw (e, replace_dest) (d', n')
      ]

  -- On a lawful volume, for a sandbox and a destination that are laid out apart: after a commit
  -- without an error, or one that fails only in removing the old copy, the content of the sandbox is
  -- at the destination. After any other error it is still in the sandbox, and the old content is at
  -- the destination or, when the second rename failed, there or at the stale path.
  pub commit_sandbox-Holds :
      (s : V.State)
      → Holds
          (V.content dest s)
          (V.content sandbox s)
          (commit_sandbox V sandbox dest s).1
          (commit_sandbox V sandbox dest s).0
  unfolding commit_sandbox
  commit_sandbox-Holds s =
      let made = (V.mkdir_all (dir dest) s).0 in
      let old = V.content dest s in
      let new = V.content sandbox s in
      let d : V.content dest made ≡ old = L.content-mkdir (dir dest) dest s laid.above_dest in
      let n : V.content sandbox made ≡ new =
        L.content-mkdir (dir dest) sandbox s laid.above_sandbox in
      elim (Option-cases (V.mkdir_all (dir dest) s).1) [
        | inr (cause, e) ↦ rw (e, commit_sandbox) (d, n)
        | inl e ↦ elim (Option-cases (V.lstat dest made)) [
          | inl f ↦ rw (e, f, commit_sandbox) (replace_dest-Holds old new made d n)
          | inr (not_exist, f) ↦
              rw (e, f, commit_sandbox) (land-Holds old new made (untouched (d, n)) n)
          | inr (not_permitted, f) ↦ rw (e, f, commit_sandbox) (d, n)
          | inr (not_supported, f) ↦ rw (e, f, commit_sandbox) (d, n)
          | inr (failure, f) ↦ rw (e, f, commit_sandbox) (d, n)
        ]
      ]
