-- ===== src/Progress/Bounds.antt =====
-- internal/progress/line.go: the loop ends and its index is within the letters.
use native.Mathlib.Nat.{pow-suc}
use jsync.Base.{
  ℕ, zero, suc, ◌+◌, ◌*◌, ◌-◌, ◌/◌, ◌^◌, ◌≤◌, ◌<◌, ◌≡◌, refl, ◌∙◌, inl, inr, false, Option, some,
  [], ◌∷◌, ◌++◌, Bytes, codes, arith, length, leb, leb→le, replicate, length-replicate,
  length-append, ltb, Bool-cases,
}
use jsync.Progress.{
  unit, unit_letters, line_width, letter_at, scale, scale_fuel, Format, human_bytes, known_content,
  line_content, line, pad_right,
}

div-step : (div k : ℕ) → div * unit * 1024 ^ k ≡ div * 1024 ^ suc k
div-step div k = rw (pow-suc 1024 k) (grind arith)

abbrev pair : ℕ → ℕ → Option (ℕ × ℕ)
pair div exp = some (div, exp)

scaled :
    (div exp k : ℕ)
    → pair (div * unit * 1024 ^ k) (exp + 1 + k) ≡ pair (div * 1024 ^ suc k) (exp + suc k)
scaled div exp k = ground (arith, div-step div k)

first : (k : ℕ) → pair (unit * 1024 ^ k) (0 + k) ≡ pair (1024 ^ suc k) k
first k = ground (arith, pow-suc 1024 k)

-- From what is left after one more division to what there was before it.
scale-step :
    (m k : ℕ)
    → 1024 ^ k ≤ m / unit
    → m / unit < 1024 ^ suc k
    → (1024 ^ suc k ≤ m) × (m < 1024 ^ suc (suc k))
scale-step m k low high = (omega (arith, pow-suc 1024 k), omega (arith, pow-suc 1024 (suc k)))

scale_total :
    (fuel m div exp : ℕ)
    → 1 ≤ m
    → m < 1024 ^ fuel
    → (k : ℕ) × (scale fuel m div exp ≡ some (div * 1024 ^ k, exp + k))
      × (k < fuel)
      × (1024 ^ k ≤ m)
      × (m < 1024 ^ suc k)
unfolding scale
scale_total zero m div exp pos h = absurd (omega arith)
scale_total (suc fuel) m div exp pos h = elim (Bool-cases (leb unit m)) [
  | inr small ↦ (0, rw small (ground arith), omega arith, omega arith, ground arith)
  | inl big ↦
      let le = leb→le unit m big in
      let (k, e, lt, low, high) =
        scale_total fuel (m / unit) (div * unit) (exp + 1) (omega arith)
          (omega (arith, pow-suc 1024 fuel)) in
      let (low', high') = scale-step m k low high in
      (suc k, rw big (e ∙ scaled div exp k), omega arith, low', high')
]

letter_at_total : (s : Bytes) (i : ℕ) → i < length s → (c : ℕ) × (letter_at s i ≡ some c)
unfolding letter_at
letter_at_total [] i h = absurd (omega arith)
letter_at_total (c ∷ s) zero h = (c, refl)
letter_at_total (c ∷ s) (suc i) h = letter_at_total s i (omega arith)

-- The divisor is the unit to the power of one more than the exponent, the count is at least the
-- divisor and less than a unit of divisors, and the exponent indexes a letter.
scale_bounds :
    (n : ℕ)
    → unit ≤ n
    → n < 2 ^ 63
    → (exp letter : ℕ) × (scale scale_fuel (n / unit) unit 0 ≡ some (1024 ^ suc exp, exp))
      × (letter_at unit_letters exp ≡ some letter)
      × (1024 ^ suc exp ≤ n)
      × (n < 1024 ^ suc (suc exp))
scale_bounds n le lt =
    let (exp, e, small, low, high) =
      scale_total scale_fuel (n / unit) unit 0 (omega arith) (omega arith) in
    let (letter, found) = letter_at_total unit_letters exp small in
    let (low', high') = scale-step n exp low high in
    (exp, letter, e ∙ first exp, found, low', high')

module _ (F : Format) where
  -- Every int64 of at least one unit is shown: the loop ends and its exponent is the index of a letter.
  -- The number shown is a quotient by the power of the unit that the letter stands for, and the
  -- count is at least that power and less than the next.
  pub human_bytes_scaled :
      (n : ℕ)
      → unit ≤ n
      → n < 2 ^ 63
      → (exp letter : ℕ) × (letter_at unit_letters exp ≡ some letter)
        × (human_bytes F n ≡ some (F.quotient n (1024 ^ suc exp) ++ (b' ' ∷ letter ∷ codes "iB")))
        × (1024 ^ suc exp ≤ n)
        × (n < 1024 ^ suc (suc exp))
  unfolding human_bytes
  human_bytes_scaled n le lt =
      let (exp, letter, e, found, low, high) = scale_bounds n le lt in
      let large : ltb n unit ≡ false = ground arith in
      (exp, letter, found, rw (large, e, found) refl, low, high)

  human_bytes_total : (n : ℕ) → n < 2 ^ 63 → (text : Bytes) × (human_bytes F n ≡ some text)
  human_bytes_total n lt = elim (Bool-cases (ltb n unit)) [
    | inl small ↦ (F.decimal n ++ codes " B", unfold human_bytes in rw small refl)
    | inr large ↦
        let (exp, letter, found, e, low, high) = human_bytes_scaled n (ground arith) lt in
        (F.quotient n (1024 ^ suc exp) ++ (b' ' ∷ letter ∷ codes "iB"), e)
  ]

  length-pad_right : (s : Bytes) (width : ℕ) → width ≤ length (pad_right s width)
  unfolding pad_right
  length-pad_right s width = omega (
    arith,
    length-append s (replicate (width - length s) b' '),
    length-replicate {A = ℕ} (width - length s) b' ',
  )

  line_content_total :
      (received total : ℕ)
      → received < 2 ^ 63
      → total < 2 ^ 63
      → (text : Bytes) × (line_content F received total ≡ some text)
  unfolding line_content
  line_content_total received zero lt lt' =
      let (text, e) = human_bytes_total received lt in (codes "receiving: " ++ text, rw e refl)
  line_content_total received (suc total) lt lt' =
      let (text, e) = human_bytes_total received lt in
      let (of, f) = human_bytes_total (suc total) lt' in
      (known_content F received (suc total) text of, rw (e, f) refl)

  -- For counts that an int64 holds there is always a line, and behind its carriage return it is wide
  -- enough to cover the width that every line is padded to.
  pub line_total :
      (received total : ℕ)
      → received < 2 ^ 63
      → total < 2 ^ 63
      → (text : Bytes) × (line F received total ≡ some text) × (line_width < length text)
  unfolding line
  line_total received total lt lt' =
      let (text, e) = line_content_total received total lt lt' in
      (
        codes "\r" ++ pad_right text line_width,
        rw e refl,
        omega (arith, length-pad_right text line_width),
      )
