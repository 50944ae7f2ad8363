-- ===== src/Syncfs/Version/Merge.antt =====
-- internal/syncfs/version.go: what a reconciliation stores and answers.
use jsync.Base.{
  ℕ, max, ◌≡◌, refl, ◌≢◌, ◌↔◌, true, none, some, [], ◌∷◌, Bytes, bytes_eq, ◌==◌, arith,
  if◌then◌else◌, ==-refl,
}
use jsync.Base.Dict
use jsync.Base.Dict.{Dict}
use jsync.Syncfs.Version.{
  VersionVector, component, copy_entries, clone, VectorOrder, vector_equal, vector_a_after_b,
  vector_b_after_a, vector_concurrent, compare_vectors, VersionStore, stored, merge_into, reconcile,
}
use jsync.Syncfs.Version.Order.{
  Le, Exceeds, Ordered, component-eq_zero, compare_vectors-Ordered, compare_vectors_iff,
}

component-cons :
    (k j : Bytes) (n : ℕ) (v : VersionVector)
    → component ((j, n) ∷ v) k ≡ (if j == k then n else component v k)
unfolding component
component-cons k j n v = ground (arith, Dict.lookup-cons k j n v)

pub component-insert :
    (k j : Bytes) (n : ℕ) (v : VersionVector)
    → component (Dict.insert j n v) k ≡ (if j == k then n else component v k)
unfolding component
component-insert k j n v = ground (arith, Dict.lookup-insert j k n v)

component-nil : (k : Bytes) → component [] k ≡ 0
unfolding component
component-nil k = ground (arith, Dict.lookup-nil {V = ℕ} k)

lookup-copy_entries :
    (v out : VersionVector) (k : Bytes)
    → Dict.NodupKeys v
    → Dict.lookup k (copy_entries v out)
      ≡ elim (Dict.lookup k v) [ none ↦ Dict.lookup k out | some n ↦ some n ]
unfolding copy_entries
lookup-copy_entries [] out k h = rw Dict.lookup-nil
lookup-copy_entries ((j, n) ∷ v) out k h = ground (
  arith,
  Dict.lookup-cons k j n v,
  Dict.lookup-insert j k n out,
  bytes_eq.beq_iff j k,
  lookup-copy_entries v (Dict.insert j n out) k,
)

-- The copy of a map reads as the map.
pub component-clone :
    (v : VersionVector) (k : Bytes) → Dict.NodupKeys v → component (clone v) k ≡ component v k
unfolding component clone
component-clone v k h = ground (arith, lookup-copy_entries v [] k h, Dict.lookup-nil {V = ℕ} k)

copy_entries-NodupKeys :
    (v out : VersionVector) → Dict.NodupKeys out → Dict.NodupKeys (copy_entries v out)
unfolding copy_entries
copy_entries-NodupKeys [] out h = h
copy_entries-NodupKeys ((j, n) ∷ v) out h =
    copy_entries-NodupKeys v _ (Dict.insert-NodupKeys j n out h)

pub clone-NodupKeys : (v : VersionVector) → Dict.NodupKeys (clone v)
unfolding clone
clone-NodupKeys v = copy_entries-NodupKeys v [] tt

component-merge_into :
    (incoming merged : VersionVector) (k : Bytes)
    → Dict.NodupKeys incoming
    → component (merge_into incoming merged) k ≡ max (component merged k) (component incoming k)
unfolding merge_into
component-merge_into [] merged k h = omega (arith, component-nil k)
component-merge_into ((j, n) ∷ incoming) merged k h = ground (
  arith,
  component-cons k j n incoming,
  component-insert k j n merged,
  component-eq_zero incoming j h.0,
  bytes_eq.beq_iff j k,
  component-merge_into incoming (Dict.insert j n merged) k h.1,
  component-merge_into incoming merged k h.1,
)

merge_into-NodupKeys :
    (incoming merged : VersionVector)
    → Dict.NodupKeys merged
    → Dict.NodupKeys (merge_into incoming merged)
unfolding merge_into
merge_into-NodupKeys [] merged h = h
merge_into-NodupKeys ((j, n) ∷ incoming) merged h =
    merge_into-NodupKeys incoming _ (ground (arith, Dict.insert-NodupKeys j n merged h))

-- A Go map holds each key once: so do the vectors of the store.
pub record IsWellFormed (s : VersionStore) : Type 0 where
  pub vectors : (p : Bytes) → Dict.NodupKeys (stored s p)

pub stored-insert :
    (s : VersionStore) (p q : Bytes) (v : VersionVector)
    → stored (record s { by_path = Dict.insert p v s.by_path }) q
      ≡ (if p == q then v else stored s q)
unfolding stored
stored-insert s p q v = ground (arith, Dict.lookup-insert p q v s.by_path)

pub set-IsWellFormed :
    (s : VersionStore) (p : Bytes) (v : VersionVector)
    → IsWellFormed s
    → Dict.NodupKeys v
    → IsWellFormed (record s { by_path = Dict.insert p v s.by_path })
set-IsWellFormed s p v h hv = record {
  vectors = λ q. rw (stored-insert s p q v) (ground (arith, h.vectors q));
}

pub reconcile-IsWellFormed :
    (s : VersionStore) (p : Bytes) (incoming : VersionVector)
    → IsWellFormed s
    → IsWellFormed (reconcile s p incoming).0
unfolding reconcile
reconcile-IsWellFormed s p incoming h = ground (
  arith,
  set-IsWellFormed s p (clone incoming) h (clone-NodupKeys incoming),
  set-IsWellFormed s p (merge_into incoming (clone (stored s p))) h
      (merge_into-NodupKeys incoming _ (clone-NodupKeys (stored s p))),
)

module _ (s : VersionStore) (p : Bytes) (incoming : VersionVector) where
  component-reconcile-Ordered :
      (k : Bytes) (o : VectorOrder)
      → IsWellFormed s
      → Dict.NodupKeys incoming
      → compare_vectors incoming (stored s p) ≡ o
      → Ordered o incoming (stored s p)
      → component (stored (reconcile s p incoming).0 p) k
        ≡ max (component (stored s p) k) (component incoming k)
  unfolding reconcile
  component-reconcile-Ordered k vector_equal w hi e h =
      rw (e, reconcile) (omega (arith, h.0 k, h.1 k))
  component-reconcile-Ordered k vector_a_after_b w hi e h =
      rw
        (
          e,
          reconcile,
          stored-insert s p p (clone incoming),
          ==-refl p,
          component-clone incoming k hi,
        )
        (omega (arith, h.0 k))
  component-reconcile-Ordered k vector_b_after_a w hi e h = rw (e, reconcile) (omega (arith, h.0 k))
  component-reconcile-Ordered k vector_concurrent w hi e h = rw (
    e,
    reconcile,
    stored-insert s p p (merge_into incoming (clone (stored s p))),
    ==-refl p,
    component-merge_into incoming (clone (stored s p)) k hi,
    component-clone (stored s p) k (w.vectors p),
  )

  -- Whatever the verdict, the stored vector becomes the component-wise maximum of what was
  -- stored and what came in, for a store and a vector that list each machine once.
  pub component-reconcile :
      (k : Bytes)
      → IsWellFormed s
      → Dict.NodupKeys incoming
      → component (stored (reconcile s p incoming).0 p) k
        ≡ max (component (stored s p) k) (component incoming k)
  component-reconcile k w hi =
      component-reconcile-Ordered k _ w hi refl (compare_vectors-Ordered incoming (stored s p))

  -- A reconciliation leaves the vectors of all other paths alone.
  pub stored-reconcile_ne : (q : Bytes) → p ≢ q → stored (reconcile s p incoming).0 q ≡ stored s q
  unfolding reconcile
  stored-reconcile_ne q ne = ground (
    arith,
    stored-insert s p q (clone incoming),
    stored-insert s p q (merge_into incoming (clone (stored s p))),
    bytes_eq.beq_iff p q,
  )

  -- An incoming write is safe to apply exactly when it has seen all that is stored and adds to it, so
  -- not when it is exactly what is stored; it is a conflict exactly when each side counts a write that
  -- the other has not seen.
  pub reconcile-verdict :
      (((reconcile s p incoming).1.safe ≡ true)
        ↔ (Le (stored s p) incoming × Exceeds incoming (stored s p)))
      × (((reconcile s p incoming).1.conflict ≡ true)
          ↔ (Exceeds incoming (stored s p) × Exceeds (stored s p) incoming))
  unfolding reconcile
  reconcile-verdict = ground (
    arith,
    compare_vectors_iff incoming (stored s p) vector_a_after_b,
    compare_vectors_iff incoming (stored s p) vector_concurrent,
  )
