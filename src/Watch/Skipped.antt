-- ===== src/Watch/Skipped.antt =====
-- internal/watch/watcher.go: the loop of `underSkippedDir` over the directories above a path.
use jsync.Base.{
  ℕ, zero, suc, ◌+◌, ◌<◌, ◌≡◌, refl, inl, inr, Bool, true, false, ◌||◌, some, [], ◌∷◌, Bytes,
  bytes_eq, ◌==◌, ==-refl, arith, length, ltb, ltb→lt, Bool-cases,
}
use jsync.FilePath.{slash, dot, base, dir}
use jsync.FilePath.Length.{length-dir, dir_short}
use jsync.Watch.{is_skipped_dir, skipped_above}

skipped_above-dot : (fuel : ℕ) → skipped_above (suc fuel) dot ≡ some false
unfolding skipped_above
skipped_above-dot fuel = rw (==-refl dot) refl

-- The loop over the directories above a path ends, with more rounds allowed than the path has bytes.
pub skipped_above_total :
    (fuel : ℕ) (d : Bytes)
    → length d + 1 < fuel
    → (found : Bool) × (skipped_above fuel d ≡ some found)
unfolding skipped_above
skipped_above_total zero d h = absurd (omega arith)
skipped_above_total (suc zero) d h = absurd (omega arith)
skipped_above_total (suc (suc fuel)) d h = elim (Bool-cases (d == dot || d == (slash ∷ []))) [
  | inl e ↦ (false, rw e refl)
  | inr e ↦ elim (Bool-cases (is_skipped_dir (base d))) [
    | inl f ↦ (true, rw (e, f) refl)
    | inr f ↦ elim (Bool-cases (dir d == d)) [
      | inl g ↦ (false, rw (e, f, g) refl)
      | inr g ↦
          rw (e, f, g)
            (elim (Bool-cases (ltb 1 (length d))) [
              | inl long ↦
                  skipped_above_total (suc fuel) (dir d)
                    (omega (arith, length-dir d (ltb→lt 1 (length d) long)))
              | inr short ↦ elim (dir_short d (ground arith)) [
                | inl root ↦ absurd (ground (arith, bytes_eq.beq_iff d (slash ∷ [])))
                | inr up ↦ (false, rw up (skipped_above-dot fuel))
              ]
            ])
    ]
  ]
]
