-- ===== src/Pipeline/Archive/Estimate.antt =====
-- internal/pipeline/archive.go: the estimate of a transfer and what the archive really holds.
use jsync.Base.{
  ℕ, ◌+◌, ◌≡◌, refl, sym, ◌∙◌, ap, inl, inr, Bool, Option, none, some, List, [], ◌∷◌, ◌++◌, Bytes,
  nat_eq, bytes_eq, length, arith, Bool-cases, if◌then◌else◌,
}
use jsync.Base.Dict
use jsync.Base.Dict.{Dict}
use jsync.Base.Options.{◌>>=◌, >>=-eq-some}
use jsync.FilePath.{base, clean, rel}
use jsync.Pipeline.Archive.{
  Source, unreadable, regular, link, folder, Sources, nil, cons, Written, excludes, write_regular,
  file_matches_hash, add_regular, add_link, folder_entry, add_source, add_sources, write_archive,
  counted, estimate_source, estimate_sources, estimate_send_size,
}

-- The bytes of files in an archive.
unfoldable pub payload : List Written → ℕ
payload [] = 0
payload (w ∷ ws) = length w.text + payload ws

payload-append : (xs ys : List Written) → payload (xs ++ ys) ≡ payload xs + payload ys
unfolding payload
payload-append [] ys = omega arith
payload-append (x ∷ xs) ys = omega (arith, payload-append xs ys)

module _ (sha256 : Bytes → Bytes) (skip : Dict Bytes Bytes) (matcher : Option (Bytes → Bool)) where
  -- A file that the receiver is said to have, with a hash, has that hash.
  abbrev pub HasHash : Option Bytes → Option Bytes → Type 0
  HasHash none content = Unit
  HasHash (some wanted) none = Unit
  HasHash (some wanted) (some text) = sha256 text ≡ wanted

  abbrev pub IsKept : Option Bytes → Option Bytes → Type 0
  IsKept none content = Unit
  IsKept (some r) content = HasHash (Dict.lookup r skip) content

  -- No file that the receiver is said to have was changed.
  unfoldable mutual
    pub AreKept : Bytes → Source → Type 0
    AreKept root unreadable = Unit
    AreKept root (regular path mode size content) = IsKept (rel root path) content
    AreKept root (link path target) = Unit
    AreKept root (folder path mode entries) = AreAllKept root entries

    pub AreAllKept : Bytes → Sources → Type 0
    AreAllKept root nil = Unit
    AreAllKept root (cons t ts) = AreKept root t × AreAllKept root ts

  -- The same for a whole tree; a root that is a file goes by its last element.
  abbrev pub AreKeptBelow : Bytes → Source → Type 0
  AreKeptBelow root unreadable = Unit
  AreKeptBelow root (regular path mode size content) = IsKept (some (base (clean root))) content
  AreKeptBelow root (link path target) = Unit
  AreKeptBelow root (folder path mode entries) = AreAllKept (clean root) entries

  abbrev at_regular : Bytes → ℕ → ℕ → Option Bytes → Option (List Written)
  at_regular r mode size content =
      if excludes matcher r then some [] else add_regular sha256 skip matcher r mode size content

  write_regular-payload :
      (r : Bytes) (mode size : ℕ) (content : Option Bytes) {ws : List Written}
      → write_regular sha256 skip matcher r mode size content ≡ some ws
      → size ≡ payload ws
  unfolding write_regular payload
  write_regular-payload r mode size none h = cc
  write_regular-payload r mode size (some text) h = ground arith

  kept_payload :
      (r : Bytes) (mode size : ℕ) (content known : Option Bytes) {ws : List Written}
      → Dict.lookup r skip ≡ known
      → HasHash known content
      → add_regular sha256 skip matcher r mode size content ≡ some ws
      → (elim known [ none ↦ size | some _ ↦ 0 ]) ≡ payload ws
  unfolding add_regular file_matches_hash payload
  kept_payload r mode size content none e k h =
      write_regular-payload r mode size content (rw (e, add_regular) at h)
  kept_payload r mode size none (some wanted) e k h = absurd (ground arith)
  kept_payload r mode size (some text) (some wanted) e k h =
      ground (arith, bytes_eq.beq_iff (sha256 text) wanted)

  counted-payload :
      (r : Bytes) (mode size : ℕ) (content : Option Bytes) {ws : List Written}
      → HasHash (Dict.lookup r skip) content
      → at_regular r mode size content ≡ some ws
      → counted sha256 skip matcher r size ≡ payload ws
  unfolding counted payload
  counted-payload r mode size content k h = elim (Bool-cases (excludes matcher r)) [
    | inl out ↦ ground arith
    | inr within ↦
        rw within (kept_payload r mode size content (Dict.lookup r skip) refl k (rw within at h))
  ]

  add_link-payload :
      (r : Bytes) (target : Option Bytes) {ws : List Written}
      → (if excludes matcher r then some [] else add_link sha256 skip matcher r target) ≡ some ws
      → 0 ≡ payload ws
  unfolding add_link payload
  add_link-payload r none h = ground arith
  add_link-payload r (some target) h = ground arith

  folder-payload :
      (r : Bytes) (mode : ℕ) (below : List Written) {ws : List Written}
      → some (folder_entry sha256 skip matcher r mode ∷ below) ≡ some ws
      → some (payload below) ≡ some (payload ws)
  unfolding payload folder_entry
  folder-payload r mode below h = ground arith

  append-payload :
      (xs ys : List Written) {ws : List Written}
      → some (xs ++ ys) ≡ some ws
      → some (payload xs + payload ys) ≡ some (payload ws)
  append-payload xs ys {ws} h =
      let same : xs ++ ys ≡ ws = ground arith in
      ap some (sym (payload-append xs ys) ∙ ap payload same)

  mutual
    unfolding add_source estimate_source payload AreKept

    add_source-payload :
        (root : Bytes) (t : Source) {ws : List Written}
        → AreKept root t
        → add_source sha256 skip matcher root t ≡ some ws
        → estimate_source sha256 skip matcher root t ≡ some (payload ws)
    add_source-payload root unreadable k h = cc
    add_source-payload root (regular path mode size content) k h =
        let (r, e, made) = >>=-eq-some (rel root path) (λ r. at_regular r mode size content) h in
        rw e (ap some (counted-payload r mode size content (rw e at k) made))
    add_source-payload root (link path target) k h =
        let (r, e, made) =
          >>=-eq-some (rel root path)
            (λ r. if excludes matcher r then some [] else add_link sha256 skip matcher r target)
            h in
        rw e (ap some (add_link-payload r target made))
    add_source-payload root (folder path mode entries) {ws} k h =
        let (r, e, made) =
          >>=-eq-some (rel root path)
            (λ r.
              if excludes matcher r
              then some []
              else (add_sources sha256 skip matcher root entries >>= λ written.
                  some (folder_entry sha256 skip matcher r mode ∷ written)))
            h in
        elim (Bool-cases (excludes matcher r)) [
          | inl out ↦ rw (e, out) (ground arith)
          | inr within ↦
              let (written, f, whole) =
                >>=-eq-some (add_sources sha256 skip matcher root entries)
                  (λ written. some (folder_entry sha256 skip matcher r mode ∷ written))
                  (rw within at made) in
              rw (e, within)
                (add_sources-payload root entries k f ∙ folder-payload r mode written whole)
        ]

    add_sources-payload :
        (root : Bytes) (ts : Sources) {ws : List Written}
        → AreAllKept root ts
        → add_sources sha256 skip matcher root ts ≡ some ws
        → estimate_sources sha256 skip matcher root ts ≡ some (payload ws)
    add_sources-payload root nil k h = ground arith
    add_sources-payload root (cons t ts) k h =
        let (first, e, rest) =
          >>=-eq-some (add_source sha256 skip matcher root t)
            (λ first. add_sources sha256 skip matcher root ts >>= λ more. some (first ++ more)) h in
        let (more, f, whole) =
          >>=-eq-some (add_sources sha256 skip matcher root ts) (λ more. some (first ++ more))
            rest in
        rw (add_source-payload root t (k.0) e, add_sources-payload root ts (k.1) f)
          (append-payload first more whole)

  -- When the archive of a tree is written without an error, and every file that the receiver is said
  -- to have with a hash still has that hash, the estimate is exactly the bytes of files in the
  -- archive.
  pub write_archive-estimate :
      (root : Bytes) (t : Source) {ws : List Written}
      → AreKeptBelow root t
      → write_archive sha256 skip matcher root t ≡ some ws
      → estimate_send_size sha256 skip matcher root t ≡ some (payload ws)
  unfolding write_archive estimate_send_size payload
  write_archive-estimate root unreadable k h = cc
  write_archive-estimate root (folder path mode entries) k h =
      add_sources-payload (clean root) entries k h
  write_archive-estimate root (regular path mode size content) k h =
      ap some (counted-payload (base (clean root)) mode size content k h)
  write_archive-estimate root (link path target) k h =
      ap some (add_link-payload (base (clean root)) target h)
