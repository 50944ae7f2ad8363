-- ===== src/Progress.antt =====
-- internal/progress/line.go: the line that shows how far a transfer is.
-- fmt's decimals and the quotients in floating point are an argument; a count of bytes is an int64 that
-- is not negative.
pub mod Bounds
use jsync.Base.{
  ℕ, zero, suc, ◌+◌, ◌*◌, ◌-◌, ◌/◌, Bool, true, false, Option, none, some, List, [], ◌∷◌, ◌++◌,
  Bytes, codes, length, replicate, ltb, leb, if◌then◌else◌,
}
use jsync.Base.Options.{◌>>=◌}

abbrev pub line_width : ℕ
line_width = 50

abbrev pub unit : ℕ
unit = 1024

abbrev pub unit_letters : Bytes
unit_letters = codes "KMGTPE"

-- Go panics beyond the end.
unfoldable pub letter_at : Bytes → ℕ → Option ℕ
letter_at [] i = none
letter_at (c ∷ s) zero = some c
letter_at (c ∷ s) (suc i) = letter_at s i

-- The loop, with its divisor and its exponent; `none` means that the fuel ran out.
unfoldable pub scale : ℕ → ℕ → ℕ → ℕ → Option (ℕ × ℕ)
scale zero m div exp = none
scale (suc fuel) m div exp =
    let rest = scale fuel (m / unit) (div * unit) (exp + 1) in
    if leb unit m then rest else some (div, exp)

-- An int64 is below the seventh power of the unit.
abbrev pub scale_fuel : ℕ
scale_fuel = 6

pub record Format : Type 0 where
  -- "%d"
  pub decimal : ℕ → Bytes
  -- "%.1f" of a quotient
  pub quotient : ℕ → ℕ → Bytes
  -- "%.0f" of a quotient in percent, at most 100
  pub percent : ℕ → ℕ → Bytes

-- One blank more until the text is wide enough. The text is ASCII, so its runes are its bytes.
unfoldable pub pad_right : Bytes → ℕ → Bytes
pad_right s width = s ++ replicate (width - length s) b' '

module _ (F : Format) where
  unfoldable pub human_bytes : ℕ → Option Bytes
  human_bytes n = if ltb n unit then some (F.decimal n ++ codes " B") else (do
    (div, exp) ← scale scale_fuel (n / unit) unit 0
    letter ← letter_at unit_letters exp
    some (F.quotient n div ++ (b' ' ∷ letter ∷ codes "iB")))

  abbrev pub known_content : ℕ → ℕ → Bytes → Bytes → Bytes
  known_content received total text of =
      codes "receiving: "
      ++ (text ++ (codes " / " ++ (of ++ (codes " (" ++ (F.percent received total ++ codes "%)")))))

  -- A total of zero or less is not known.
  unfoldable pub line_content : ℕ → ℕ → Option Bytes
  line_content received zero = do text ← human_bytes received; some (codes "receiving: " ++ text)
  line_content received (suc total) = do
    text ← human_bytes received
    of ← human_bytes (suc total)
    some (known_content received (suc total) text of)

  unfoldable pub line : ℕ → ℕ → Option Bytes
  line received total = do
    content ← line_content received total
    some (codes "\r" ++ pad_right content line_width)
