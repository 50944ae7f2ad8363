-- ===== src/Syncfs/Version/Delivery.antt =====
-- internal/syncfs/version.go: sequences of reconciliations: order, repetition, and the vectors that local writes produce.
use mathlib.Core.List.{Perm, Permᴰ}
use mathlib.Core.Logic.{∥∥₁_elim}
use native.Mathlib.Nat.{ℕ_set}
use jsync.Base.{
  ℕ, ◌+◌, ◌%◌, ◌^◌, ◌≤◌, ◌<◌, max, ◌≡◌, refl, ◌≢◌, ◌∙◌, ap, sym, true, false, List, [], ◌∷◌, Bytes,
  bytes_eq, ◌==◌, arith, if◌then◌else◌, ==-refl, All,
}
use jsync.Base.Dict
use jsync.Syncfs.Version.{
  VersionVector, component, clone, VectorOrder, vector_equal, vector_a_after_b, vector_b_after_a,
  vector_concurrent, compare_vectors, VersionStore, stored, bump, Verdict, reconcile,
}
use jsync.Syncfs.Version.Order.{Le, Exceeds, compare_vectors_iff, Ordered, compare_vectors-Ordered}
use jsync.Syncfs.Version.Merge.{
  IsWellFormed, component-reconcile, reconcile-IsWellFormed, clone-NodupKeys, component-insert,
  component-clone, stored-insert,
}

-- The vectors of one path, as they arrive.
pub deliver : VersionStore → Bytes → List VersionVector → VersionStore
deliver s p [] = s
deliver s p (v ∷ vs) = deliver (reconcile s p v).0 p vs

peak : List VersionVector → Bytes → ℕ → ℕ
peak [] k n = n
peak (v ∷ vs) k n = peak vs k (max n (component v k))

abbrev pub AllNodup : List VersionVector → Type 0
AllNodup vs = All Dict.NodupKeys vs

deliver-IsWellFormed :
    (s : VersionStore) (p : Bytes) (vs : List VersionVector)
    → IsWellFormed s
    → IsWellFormed (deliver s p vs)
unfolding deliver
deliver-IsWellFormed s p [] w = w
deliver-IsWellFormed s p (v ∷ vs) w =
    deliver-IsWellFormed (reconcile s p v).0 p vs (reconcile-IsWellFormed s p v w)

component-deliver :
    (s : VersionStore) (p : Bytes) (vs : List VersionVector) (k : Bytes)
    → IsWellFormed s
    → All Dict.NodupKeys vs
    → component (stored (deliver s p vs) p) k ≡ peak vs k (component (stored s p) k)
unfolding deliver peak
component-deliver s p [] k w h = refl
component-deliver s p (v ∷ vs) k w h =
    component-deliver (reconcile s p v).0 p vs k (reconcile-IsWellFormed s p v w) h.1
    ∙ rw (component-reconcile s p v k w h.0)

peak-permᴰ :
    (k : Bytes) (n : ℕ) {vs ws : List VersionVector} → Permᴰ vs ws → peak vs k n ≡ peak ws k n
unfolding peak
peak-permᴰ k n Permᴰ.nil = refl
peak-permᴰ k n (Permᴰ.cons {a} e d) = rw (← e) (peak-permᴰ k (max n (component a k)) d)
peak-permᴰ k n (Permᴰ.swap {a} {b} {l} e f) =
    rw (← e, ← f)
      (ap (peak l k) (
        let x = component a k in
        let y = component b k in let q : max (max n x) y ≡ max (max n y) x = omega arith in q))
peak-permᴰ k n (Permᴰ.trans d d') = peak-permᴰ k n d ∙ peak-permᴰ k n d'

peak-perm :
    (k : Bytes) (n : ℕ) {vs ws : List VersionVector} → Perm vs ws → peak vs k n ≡ peak ws k n
peak-perm k n q = ∥∥₁_elim q (ℕ_set _ _) (peak-permᴰ k n)

-- Two nodes that start from one store and receive the same vectors of a path in different orders
-- end with the same counters for that path, where store and vectors list each machine once.
pub deliver-perm :
    (s : VersionStore) (p : Bytes) (vs ws : List VersionVector) (k : Bytes)
    → IsWellFormed s
    → AllNodup vs
    → AllNodup ws
    → Perm vs ws
    → component (stored (deliver s p vs) p) k ≡ component (stored (deliver s p ws) p) k
deliver-perm s p vs ws k w hv hw q =
    component-deliver s p vs k w hv ∙ peak-perm k _ q ∙ sym (component-deliver s p ws k w hw)

le-peak : (vs : List VersionVector) (k : Bytes) (n : ℕ) → n ≤ peak vs k n
unfolding peak
le-peak [] k n = omega arith
le-peak (v ∷ vs) k n = omega (arith, le-peak vs k (max n (component v k)))

peak-ge_head :
    (vs : List VersionVector) (v : VersionVector) (k : Bytes) (n : ℕ)
    → component v k ≤ peak (v ∷ vs) k n
unfolding peak
peak-ge_head vs v k n = omega (arith, le-peak vs k (max n (component v k)))

-- A vector that the store has seen is neither applied nor a conflict, and changes nothing.
pub reconcile-seen :
    (s : VersionStore) (p : Bytes) (v : VersionVector)
    → Le v (stored s p)
    → reconcile s p v ≡ (s, record { safe = false; conflict = false })
unfolding reconcile
reconcile-seen s p v le = go _ refl (compare_vectors-Ordered v (stored s p))
  where
    go :
        (o : VectorOrder)
        → compare_vectors v (stored s p) ≡ o
        → Ordered o v (stored s p)
        → reconcile s p v ≡ (s, record { safe = false; conflict = false })
    go vector_equal e h = rw (e, reconcile)
    go vector_b_after_a e h = rw (e, reconcile)
    go vector_a_after_b e (_, (k, lt)) = absurd (omega (arith, le k))
    go vector_concurrent e ((k, lt), _) = absurd (omega (arith, le k))

-- A vector that arrives again, after any other vectors of that path, is dropped: it is neither
-- safe nor a conflict, and the store stays as it is.
pub reconcile-deliver :
    (s : VersionStore) (p : Bytes) (v : VersionVector) (vs : List VersionVector)
    → IsWellFormed s
    → AllNodup (v ∷ vs)
    → let t = deliver s p (v ∷ vs) in
      reconcile t p v ≡ (t, record { safe = false; conflict = false })
reconcile-deliver s p v vs w h =
    let t = deliver s p (v ∷ vs) in
    reconcile-seen t p v λ k.
      omega (
        arith,
        component-deliver s p (v ∷ vs) k w h,
        peak-ge_head vs v k (component (stored s p) k),
      )

-- The vector that a bump stores.
abbrev bumped : VersionStore → Bytes → Bytes → VersionVector
bumped s p m = let v = clone (stored s p) in Dict.insert m ((component v m + 1) % 2 ^ 64) v

bumped-NodupKeys : (s : VersionStore) (p m : Bytes) → Dict.NodupKeys (bumped s p m)
bumped-NodupKeys s p m = Dict.insert-NodupKeys m _ _ (clone-NodupKeys (stored s p))

component-bumped :
    (s : VersionStore) (p m k : Bytes)
    → IsWellFormed s
    → component (stored s p) m + 1 < 2 ^ 64
    → component (bumped s p m) k
      ≡ (if m == k then component (stored s p) k + 1 else component (stored s p) k)
component-bumped s p m k w small =
    let v = clone (stored s p) in
    rw (component-insert k m ((component v m + 1) % 2 ^ 64) v) (
      ground (
        arith,
        bytes_eq.beq_iff m k,
        component-clone (stored s p) m (w.vectors p),
        component-clone (stored s p) k (w.vectors p),
      ))

-- A bump adds one to the machine's own counter, below the wrap of 64 bits, keeps the others, and
-- hands out the vector that it stored.
pub component-bump :
    (s : VersionStore) (p m k : Bytes)
    → IsWellFormed s
    → component (stored s p) m + 1 < 2 ^ 64
    → let n = (if m == k then component (stored s p) k + 1 else component (stored s p) k) in
      (component (bump s p m).1 k ≡ n) × (component (stored (bump s p m).0 p) k ≡ n)
unfolding bump
component-bump s p m k w small = ground (
  arith,
  bytes_eq.beq_iff m k,
  stored-insert s p p (bumped s p m),
  ==-refl p,
  component-bumped s p m k w small,
  component-clone (bumped s p m) k (bumped-NodupKeys s p m),
)

-- The verdict that goes with an order.
abbrev verdict_of : VectorOrder → Verdict
verdict_of vector_a_after_b = record { safe = true; conflict = false }
verdict_of vector_concurrent = record { safe = false; conflict = true }
verdict_of vector_equal = record { safe = false; conflict = false }
verdict_of vector_b_after_a = record { safe = false; conflict = false }

reconcile-verdict_of :
    (t : VersionStore) (p : Bytes) (v : VersionVector) (o : VectorOrder)
    → Ordered o v (stored t p)
    → (reconcile t p v).1 ≡ verdict_of o
unfolding reconcile
reconcile-verdict_of t p v o h = ground (arith, (compare_vectors_iff v (stored t p) o).1 h)

-- A peer that has seen no write of a path beyond those its writer had seen, and not the new one,
-- applies the vector that the writer's bump hands out.
pub reconcile-bump :
    (s t : VersionStore) (p m : Bytes)
    → IsWellFormed s
    → component (stored s p) m + 1 < 2 ^ 64
    → Le (stored t p) (stored s p)
    → (reconcile t p (bump s p m).1).1 ≡ record { safe = true; conflict = false }
reconcile-bump s t p m w small le =
    let counts = λ (k : Bytes). (component-bump s p m k w small).0 in
    reconcile-verdict_of t p (bump s p m).1 vector_a_after_b
      ((λ k. ground (arith, counts k, le k)), (m, ground (arith, counts m, le m, ==-refl m)))

Exceeds-bump :
    (s t : VersionStore) (p m m' : Bytes)
    → IsWellFormed s
    → IsWellFormed t
    → m ≢ m'
    → ((k : Bytes) → component (stored s p) k ≡ component (stored t p) k)
    → component (stored s p) m + 1 < 2 ^ 64
    → component (stored t p) m' + 1 < 2 ^ 64
    → Exceeds (bump s p m).1 (stored (bump t p m').0 p)
      × Exceeds (stored (bump s p m).0 p) (bump t p m').1
Exceeds-bump s t p m m' ws wt ne same small small' =
    let mine = component-bump s p m m ws small in
    let theirs = component-bump t p m' m wt small' in
    let agree = same m in
    let self = ==-refl m in
    let other = bytes_eq.beq_iff m' m in ((m, ground arith), (m, ground arith))

-- Two nodes with the same counters for a path, those of the two writers below 2^64 - 1, that write
-- it under different machine ids, neither seeing the other's write, both answer the other's vector
-- with a conflict.
pub reconcile-bump_concurrent :
    (s t : VersionStore) (p m m' : Bytes)
    → IsWellFormed s
    → IsWellFormed t
    → m ≢ m'
    → ((k : Bytes) → component (stored s p) k ≡ component (stored t p) k)
    → component (stored s p) m + 1 < 2 ^ 64
    → component (stored t p) m' + 1 < 2 ^ 64
    → ((reconcile (bump t p m').0 p (bump s p m).1).1 ≡ record { safe = false; conflict = true })
      × ((reconcile (bump s p m).0 p (bump t p m').1).1 ≡ record { safe = false; conflict = true })
reconcile-bump_concurrent s t p m m' ws wt ne same small small' =
    let (ab, sb) = Exceeds-bump s t p m m' ws wt ne same small small' in
    let (ba, tb) =
      Exceeds-bump t s p m' m wt ws (λ e. ne (sym e)) (λ k. sym (same k)) small' small in
    (
      reconcile-verdict_of (bump t p m').0 p (bump s p m).1 vector_concurrent (ab, tb),
      reconcile-verdict_of (bump s p m).0 p (bump t p m').1 vector_concurrent (ba, sb),
    )
