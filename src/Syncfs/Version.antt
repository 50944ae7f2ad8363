-- ===== src/Syncfs/Version.antt =====
-- internal/syncfs/version.go: version vectors and the store of the last vector of each path.
pub mod Order
pub mod Merge
pub mod Delivery
use jsync.Base.{
  ℕ, ◌+◌, ◌%◌, ◌^◌, Bool, true, false, Option, none, some, List, [], ◌∷◌, Bytes, bytes_eq, ltb,
  if◌then◌else◌,
}
use jsync.Base.Dict
use jsync.Base.Dict.{Dict}

-- Machine id to a uint64 counter.
abbrev pub VersionVector : Type 0
VersionVector = Dict Bytes ℕ

-- Reading a Go map: a missing key reads as zero.
unfoldable pub component : VersionVector → Bytes → ℕ
component v k = elim (Dict.lookup k v) [ none ↦ 0 | some n ↦ n ]

-- `make(VersionVector)`, then one assignment for each entry.
unfoldable pub copy_entries : VersionVector → VersionVector → VersionVector
copy_entries [] out = out
copy_entries ((k, n) ∷ v) out = copy_entries v (Dict.insert k n out)

unfoldable pub clone : VersionVector → VersionVector
clone v = copy_entries v []

pub data VectorOrder : Type 0 where
  vector_equal vector_a_after_b vector_b_after_a vector_concurrent : VectorOrder

-- One of the two loops that fill `seen`.
unfoldable pub mark_seen : VersionVector → Dict Bytes Bool → Dict Bytes Bool
mark_seen [] seen = seen
mark_seen ((k, _) ∷ v) seen = mark_seen v (Dict.insert k true seen)

-- The loop over `seen`, with the two flags.
unfoldable pub scan_seen :
    VersionVector → VersionVector → Dict Bytes Bool → Bool → Bool → Bool × Bool
scan_seen a b [] a_greater b_greater = (a_greater, b_greater)
scan_seen a b ((k, _) ∷ seen) a_greater b_greater =
    scan_seen a b seen (if ltb (component b k) (component a k) then true else a_greater)
      (if ltb (component a k) (component b k) then true else b_greater)

unfoldable pub classify : Bool → Bool → VectorOrder
classify true true = vector_concurrent
classify true false = vector_a_after_b
classify false true = vector_b_after_a
classify false false = vector_equal

unfoldable pub compare_vectors : VersionVector → VersionVector → VectorOrder
compare_vectors a b =
    let (a_greater, b_greater) = scan_seen a b (mark_seen b (mark_seen a [])) false false in
    classify a_greater b_greater

pub record VersionStore : Type 0 where
  pub by_path : Dict Bytes VersionVector

unfoldable pub new_version_store : VersionStore
new_version_store = record { by_path = [] }

-- `s.byPath[relPath]`; a nil map reads as the empty one.
unfoldable pub stored : VersionStore → Bytes → VersionVector
stored s rel_path = elim (Dict.lookup rel_path s.by_path) [ none ↦ [] | some v ↦ v ]

-- `v[machineID]++` wraps at 64 bits.
unfoldable pub bump : VersionStore → Bytes → Bytes → VersionStore × VersionVector
bump s rel_path machine_id =
    let v = clone (stored s rel_path) in
    let v' = Dict.insert machine_id ((component v machine_id + 1) % 2 ^ 64) v in
    (record s { by_path = Dict.insert rel_path v' s.by_path }, clone v')

-- The component-wise maximum that a conflict stores.
unfoldable pub merge_into : VersionVector → VersionVector → VersionVector
merge_into [] merged = merged
merge_into ((k, n) ∷ incoming) merged =
    merge_into incoming (if ltb (component merged k) n then Dict.insert k n merged else merged)

pub record Verdict : Type 0 where
  pub safe : Bool
  pub conflict : Bool

unfoldable pub reconcile : VersionStore → Bytes → VersionVector → VersionStore × Verdict
reconcile s rel_path incoming =
    let local = stored s rel_path in
    elim (compare_vectors incoming local) [
      | vector_equal ↦ (s, record { safe = false; conflict = false })
      | vector_a_after_b ↦ (
        record s { by_path = Dict.insert rel_path (clone incoming) s.by_path },
        record { safe = true; conflict = false },
      )
      | vector_b_after_a ↦ (s, record { safe = false; conflict = false })
      | vector_concurrent ↦ (
        record s { by_path = Dict.insert rel_path (merge_into incoming (clone local)) s.by_path },
        record { safe = false; conflict = true },
      )
    ]
