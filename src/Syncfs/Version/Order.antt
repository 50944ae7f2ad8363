-- ===== src/Syncfs/Version/Order.antt =====
-- internal/syncfs/version.go: the comparison of two version vectors and the causal order.
use jsync.Base.{
  ◌≤◌, ◌<◌, ◌≡◌, refl, ◌≢◌, ◌↔◌, inl, inr, Bool, true, false, ◌||◌, none, [], ◌∷◌, Bytes, bytes_eq,
  arith, subst, ltb, Option-cases, Bool-cases,
}
use jsync.Base.Dict
use jsync.Base.Dict.{Dict}
use jsync.Syncfs.Version.{
  VersionVector, component, VectorOrder, vector_equal, vector_a_after_b, vector_b_after_a,
  vector_concurrent, mark_seen, scan_seen, classify, compare_vectors,
}

-- Everything that `a` counts, `b` has seen.
abbrev pub Le : VersionVector → VersionVector → Type 0
Le a b = (k : Bytes) → component a k ≤ component b k

-- Some machine has written more often in `a`.
abbrev pub Exceeds : VersionVector → VersionVector → Type 0
Exceeds a b = (k : Bytes) × (component b k < component a k)

abbrev pub Ordered : VectorOrder → VersionVector → VersionVector → Type 0
Ordered vector_equal a b = Le a b × Le b a
Ordered vector_a_after_b a b = Le b a × Exceeds a b
Ordered vector_b_after_a a b = Le a b × Exceeds b a
Ordered vector_concurrent a b = Exceeds a b × Exceeds b a

exceeds : VersionVector → VersionVector → Dict Bytes Bool → Bool
exceeds a b [] = false
exceeds a b ((k, _) ∷ seen) = ltb (component b k) (component a k) || exceeds a b seen

scan_seen-exceeds :
    (a b : VersionVector) (seen : Dict Bytes Bool) (x y : Bool)
    → scan_seen a b seen x y ≡ (x || exceeds a b seen, y || exceeds b a seen)
unfolding scan_seen exceeds
scan_seen-exceeds a b [] x y = ground arith
scan_seen-exceeds a b ((k, _) ∷ seen) x y = rw (scan_seen-exceeds a b seen) (ground arith)

exceeds-Exceeds :
    (a b : VersionVector) (seen : Dict Bytes Bool) → exceeds a b seen ≡ true → Exceeds a b
unfolding exceeds
exceeds-Exceeds a b [] h = cc
exceeds-Exceeds a b ((k, _) ∷ seen) h = elim (Bool-cases (ltb (component b k) (component a k))) [
  | inl more ↦ (k, ground arith)
  | inr less ↦ exceeds-Exceeds a b seen (ground arith)
]

le_of_exceeds :
    (a b : VersionVector) (seen : Dict Bytes Bool) (k : Bytes)
    → exceeds a b seen ≡ false
    → Dict.lookup k seen ≢ none
    → component a k ≤ component b k
unfolding exceeds
le_of_exceeds a b [] k h m = absurd (m (Dict.lookup-nil k))
le_of_exceeds a b ((j, x) ∷ seen) k h m =
    ground (arith, Dict.lookup-cons k j x seen, bytes_eq.beq_iff j k, le_of_exceeds a b seen k)

mark_seen-none :
    (v : VersionVector) (seen : Dict Bytes Bool) (k : Bytes)
    → Dict.lookup k (mark_seen v seen) ≡ none
    → (Dict.lookup k v ≡ none) × (Dict.lookup k seen ≡ none)
unfolding mark_seen
mark_seen-none [] seen k h = (Dict.lookup-nil k, h)
mark_seen-none ((j, n) ∷ v) seen k h = ground (
  arith,
  Dict.lookup-cons k j n v,
  Dict.lookup-insert j k true seen,
  mark_seen-none v (Dict.insert j true seen) k h,
)

pub component-eq_zero : (v : VersionVector) (k : Bytes) → Dict.lookup k v ≡ none → component v k ≡ 0
unfolding component
component-eq_zero v k h = ground arith

-- Where neither vector has a key, both read as zero.
unseen-eq_zero :
    (a b : VersionVector) (k : Bytes)
    → Dict.lookup k (mark_seen b (mark_seen a [])) ≡ none
    → (component a k ≡ 0) × (component b k ≡ 0)
unseen-eq_zero a b k h =
    let (nb, rest) = mark_seen-none b (mark_seen a []) k h in
    let (na, _) = mark_seen-none a [] k rest in (component-eq_zero a k na, component-eq_zero b k nb)

-- Both directions at once: a flag that stayed down means that nothing exceeds.
le_of_flags :
    (a b : VersionVector) (k : Bytes)
    → let seen = mark_seen b (mark_seen a []) in
      (exceeds a b seen ≡ false → component a k ≤ component b k)
      × (exceeds b a seen ≡ false → component b k ≤ component a k)
le_of_flags a b k =
    let seen = mark_seen b (mark_seen a []) in
    elim (Option-cases (Dict.lookup k seen)) [
      | inl missing ↦
          let (za, zb) = unseen-eq_zero a b k missing in ((λ _. omega arith), (λ _. omega arith))
      | inr (v, found) ↦ (
        (λ h. le_of_exceeds a b seen k h (ground arith)),
        (λ h. le_of_exceeds b a seen k h (ground arith)),
      )
    ]

Ordered-classify :
    (a b : VersionVector) (seen : Dict Bytes Bool) (x y : Bool)
    → exceeds a b seen ≡ x
    → exceeds b a seen ≡ y
    → (x ≡ false → Le a b)
    → (y ≡ false → Le b a)
    → Ordered (classify x y) a b
unfolding classify
Ordered-classify a b seen true true hx hy la lb =
    (exceeds-Exceeds a b seen hx, exceeds-Exceeds b a seen hy)
Ordered-classify a b seen true false hx hy la lb = (lb refl, exceeds-Exceeds a b seen hx)
Ordered-classify a b seen false true hx hy la lb = (la refl, exceeds-Exceeds b a seen hy)
Ordered-classify a b seen false false hx hy la lb = (la refl, lb refl)

pub compare_vectors-Ordered : (a b : VersionVector) → Ordered (compare_vectors a b) a b
unfolding compare_vectors
compare_vectors-Ordered a b =
    let seen = mark_seen b (mark_seen a []) in
    rw (scan_seen-exceeds a b seen false false) (
      Ordered-classify a b seen _ _ refl refl (λ h k. (le_of_flags a b k).0 h)
        (λ h k. (le_of_flags a b k).1 h))

not-Exceeds_of_Le : (a b : VersionVector) → Le a b → ¬ Exceeds a b
not-Exceeds_of_Le a b le (k, lt) = omega (arith, le k)

Ordered-unique :
    (a b : VersionVector) (o o' : VectorOrder) → Ordered o a b → Ordered o' a b → o ≡ o'
Ordered-unique a b vector_equal vector_equal h h' = refl
Ordered-unique a b vector_a_after_b vector_a_after_b h h' = refl
Ordered-unique a b vector_b_after_a vector_b_after_a h h' = refl
Ordered-unique a b vector_concurrent vector_concurrent h h' = refl
Ordered-unique a b vector_equal vector_a_after_b h h' = absurd (not-Exceeds_of_Le a b h.0 h'.1)
Ordered-unique a b vector_equal vector_b_after_a h h' = absurd (not-Exceeds_of_Le b a h.1 h'.1)
Ordered-unique a b vector_equal vector_concurrent h h' = absurd (not-Exceeds_of_Le a b h.0 h'.0)
Ordered-unique a b vector_a_after_b vector_equal h h' = absurd (not-Exceeds_of_Le a b h'.0 h.1)
Ordered-unique a b vector_a_after_b vector_b_after_a h h' = absurd (not-Exceeds_of_Le a b h'.0 h.1)
Ordered-unique a b vector_a_after_b vector_concurrent h h' = absurd (not-Exceeds_of_Le b a h.0 h'.1)
Ordered-unique a b vector_b_after_a vector_equal h h' = absurd (not-Exceeds_of_Le b a h'.1 h.1)
Ordered-unique a b vector_b_after_a vector_a_after_b h h' = absurd (not-Exceeds_of_Le b a h'.0 h.1)
Ordered-unique a b vector_b_after_a vector_concurrent h h' = absurd (not-Exceeds_of_Le a b h.0 h'.0)
Ordered-unique a b vector_concurrent vector_equal h h' = absurd (not-Exceeds_of_Le a b h'.0 h.0)
Ordered-unique a b vector_concurrent vector_a_after_b h h' = absurd (not-Exceeds_of_Le b a h'.0 h.1)
Ordered-unique a b vector_concurrent vector_b_after_a h h' = absurd (not-Exceeds_of_Le a b h'.0 h.0)

-- For any two vectors the comparison computes `o` exactly when they stand in the way that `o`
-- names: "equal" means that each has seen all of the other, "a after b" that `a` has seen all of
-- `b` and counts more somewhere, "b after a" the reverse, "concurrent" that each counts more than
-- the other somewhere.
pub compare_vectors_iff :
    (a b : VersionVector) (o : VectorOrder) → (compare_vectors a b ≡ o) ↔ Ordered o a b
compare_vectors_iff a b o = (
  λ e. subst (λ p. Ordered p a b) e (compare_vectors-Ordered a b),
  λ h. Ordered-unique a b _ o (compare_vectors-Ordered a b) h,
)
