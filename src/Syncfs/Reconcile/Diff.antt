-- ===== src/Syncfs/Reconcile/Diff.antt =====
-- internal/syncfs/reconcile.go: the difference of two inventories.
use mathlib.Core.List.{Memᴰ}
use mathlib.Core.List.Memᴰ
use jsync.Base.{
  ◌≡◌, ap, ◌↔◌, inl, inr, false, some, [], ◌∷◌, Bytes, bytes_eq, arith, Bool-cases, Option-cases,
}
use jsync.Base.Dict
use jsync.Syncfs.Event.{ManifestEntry, Manifest}
use jsync.Syncfs.Reconcile.{needs_push, diff_paths}

-- The other side has this content at this path.
pub record HasContent (want : Manifest) (path hash : Bytes) : Type 0 where
  pub entry : ManifestEntry
  pub listed : Dict.lookup path want ≡ some entry
  pub same_hash : entry.hash ≡ hash

needs_push_iff :
    (path : Bytes) (entry : ManifestEntry) (want : Manifest)
    → (needs_push path entry want ≡ false) ↔ HasContent want path entry.hash
unfolding needs_push
needs_push_iff path entry want = elim (Option-cases (Dict.lookup path want)) [
  | inl e ↦ (λ h. absurd (ground arith), λ c. (let l = c.listed in absurd (cc)))
  | inr (w, e) ↦ (
    λ h. record {
      entry = w;
      listed = e;
      same_hash = ground (arith, bytes_eq.beq_iff w.hash entry.hash);
    },
    λ c.
        (let l = c.listed in
          let s = c.same_hash in ground (arith, bytes_eq.beq_iff w.hash entry.hash)),
  )
]

diff_paths_sound :
    (have want : Manifest) (path : Bytes)
    → Memᴰ path (diff_paths have want)
    → (entry : ManifestEntry) × Memᴰ (path, entry) have × ¬ HasContent want path entry.hash
unfolding diff_paths
diff_paths_sound [] want path h = absurd (Memᴰ.not-nil h)
diff_paths_sound ((p, e) ∷ have) want path h = elim (Bool-cases (needs_push p e want)) [
  | inl push ↦ elim (Memᴰ.cases_cons (rw push at h)) [
    | inl same ↦ (
      e,
      Memᴰ.head (ap (λ q. (q, e)) same),
      λ c. (let kept = (needs_push_iff p e want).1 (rw same at c) in absurd (ground arith)),
    )
    | inr later ↦
        let (entry, m, n) = diff_paths_sound have want path later in (entry, Memᴰ.tail m, n)
  ]
  | inr kept ↦
      let (entry, m, n) = diff_paths_sound have want path (rw kept at h) in (entry, Memᴰ.tail m, n)
]

diff_paths_complete :
    (have want : Manifest) (path : Bytes) (entry : ManifestEntry)
    → Memᴰ (path, entry) have
    → ¬ HasContent want path entry.hash
    → Memᴰ path (diff_paths have want)
unfolding diff_paths
diff_paths_complete [] want path entry m n = absurd (Memᴰ.not-nil m)
diff_paths_complete ((p, e) ∷ have) want path entry m n = elim (Bool-cases (needs_push p e want)) [
  | inl push ↦ elim (Memᴰ.cases_cons m) [
    | inl same ↦ rw push (Memᴰ.head (ap (λ q. q.0) same))
    | inr later ↦ rw push (Memᴰ.tail (diff_paths_complete have want path entry later n))
  ]
  | inr kept ↦ elim (Memᴰ.cases_cons m) [
    | inl same ↦
        let c = (needs_push_iff p e want).0 kept in
        absurd (n (rw (ap (λ q. q.0) same, ap (λ q. q.1.hash) same) c))
    | inr later ↦ rw kept (diff_paths_complete have want path entry later n)
  ]
]

-- A path is pushed exactly when this side has a file there whose content the other side does not
-- have at that path.
pub diff_paths_iff :
    (have want : Manifest) (path : Bytes)
    → Memᴰ path (diff_paths have want)
      ↔ ((entry : ManifestEntry) × Memᴰ (path, entry) have × ¬ HasContent want path entry.hash)
diff_paths_iff have want path =
    (diff_paths_sound have want path, λ (entry, m, n). diff_paths_complete have want path entry m n)
