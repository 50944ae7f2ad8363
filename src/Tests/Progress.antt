-- ===== src/Tests/Progress.antt =====
-- Counts of bytes under a format that shows a number as one byte.
use jsync.Base.{ℕ, suc, ◌^◌, ◌≤◌, ◌<◌, ◌≡◌, some, [], ◌∷◌, ◌++◌, Bytes, codes, length, arith}
use jsync.Progress.{Format, unit_letters, letter_at, human_bytes, line, line_width}
use jsync.Progress.Bounds.{human_bytes_scaled, line_total}

abbrev format : Format
format = record { decimal = λ n. n ∷ []; quotient = λ n d. n ∷ d ∷ []; percent = λ n d. n ∷ d ∷ [] }

human_bytes_scaled_example :
    (exp letter : ℕ) × (letter_at unit_letters exp ≡ some letter)
    × (human_bytes format 5000000
        ≡ some (format.quotient 5000000 (1024 ^ suc exp) ++ (b' ' ∷ letter ∷ codes "iB")))
    × (1024 ^ suc exp ≤ 5000000)
    × (5000000 < 1024 ^ suc (suc exp))
human_bytes_scaled_example = human_bytes_scaled format 5000000 (omega arith) (omega arith)

line_total_example :
    (text : Bytes) × (line format 100 5000000 ≡ some text) × (line_width < length text)
line_total_example = line_total format 100 5000000 (omega arith) (omega arith)
