-- ===== src/FilePath/Length.antt =====
-- How long a cleaned path is, and its directory.
use mathlib.Core.List.{reverse, reverse-append}
use jsync.Base.{
  ℕ, suc, ◌+◌, ◌≤◌, ◌<◌, ◌≡◌, ◌≢◌, ◌⊎◌, refl, ◌∙◌, ap, inl, inr, Bool, true, false, List, [], ◌∷◌,
  ◌++◌, Bytes, nat_eq, bytes_eq, ◌==◌, arith, length, length-append, max, list_beq, Bool-cases,
}
use jsync.FilePath.{
  slash, dot, dot_dot, extend_first, split_slash, push_part, push_parts, is_rooted, parse,
  join_slash, render, clean, drop_last, dir,
}

-- The bytes of some elements, each with a slash.
abbrev weight : List Bytes → ℕ
weight [] = 0
weight (w ∷ ws) = length w + 1 + weight ws

-- The same without the empty ones.
abbrev part_weight : Bytes → ℕ
part_weight [] = 0
part_weight (c ∷ w) = length w + 2

abbrev parts_weight : List Bytes → ℕ
parts_weight [] = 0
parts_weight (w ∷ ws) = part_weight w + parts_weight ws

weight-push_part :
    (rooted : Bool) (stack : List Bytes) (part : Bytes)
    → weight (push_part rooted stack part) ≤ weight stack + part_weight part
unfolding push_part list_beq
weight-push_part rooted [] [] = omega arith
weight-push_part rooted (top ∷ below) [] = omega arith
weight-push_part rooted [] (c ∷ w) = ground (arith, bytes_eq.beq_iff (c ∷ w) dot_dot)
weight-push_part rooted (top ∷ below) (c ∷ w) =
    ground (arith, bytes_eq.beq_iff (c ∷ w) dot_dot, bytes_eq.beq_iff top dot_dot)

weight-push_parts :
    (rooted : Bool) (stack parts : List Bytes)
    → weight (push_parts rooted stack parts) ≤ weight stack + parts_weight parts
unfolding push_parts
weight-push_parts rooted stack [] = omega arith
weight-push_parts rooted stack (p ∷ parts) = omega (
  arith,
  weight-push_part rooted stack p,
  weight-push_parts rooted (push_part rooted stack p) parts,
)

weight-append : (xs ys : List Bytes) → weight (xs ++ ys) ≡ weight xs + weight ys
weight-append [] ys = omega arith
weight-append (x ∷ xs) ys = omega (arith, weight-append xs ys)

weight-reverse : (xs : List Bytes) → weight (reverse xs) ≡ weight xs
weight-reverse [] = refl
weight-reverse (x ∷ xs) =
    ap weight (reverse-append (x ∷ []) xs)
    ∙ omega (arith, weight-append (reverse xs) (x ∷ []), weight-reverse xs)

weight-extend_first :
    (c : ℕ) (ws : List Bytes) → ws ≢ [] → weight (extend_first c ws) ≡ suc (weight ws)
unfolding extend_first
weight-extend_first c [] h = absurd (h refl)
weight-extend_first c (w ∷ ws) h = omega arith

split_slash-ne-nil : (s : Bytes) → split_slash s ≢ []
unfolding split_slash extend_first
split_slash-ne-nil [] h = cc
split_slash-ne-nil (c ∷ s) h = ground (arith, split_slash-ne-nil s)

weight-split_slash : (s : Bytes) → weight (split_slash s) ≡ length s + 1
unfolding split_slash
weight-split_slash [] = refl
weight-split_slash (c ∷ s) =
    ground
      (arith, weight-split_slash s, weight-extend_first c (split_slash s) (split_slash-ne-nil s))

parts_weight-le : (ws : List Bytes) → parts_weight ws ≤ weight ws
parts_weight-le [] = omega arith
parts_weight-le ([] ∷ ws) = omega (arith, parts_weight-le ws)
parts_weight-le ((c ∷ w) ∷ ws) = omega (arith, parts_weight-le ws)

extend_first-append :
    (c : ℕ) (ws vs : List Bytes) → ws ≢ [] → extend_first c (ws ++ vs) ≡ extend_first c ws ++ vs
unfolding extend_first
extend_first-append c [] vs h = absurd (h refl)
extend_first-append c (w ∷ ws) vs h = refl

-- A slash at the end adds an empty element.
split_slash-snoc : (s : Bytes) → split_slash (s ++ (slash ∷ [])) ≡ split_slash s ++ ([] ∷ [])
unfolding split_slash
split_slash-snoc [] = refl
split_slash-snoc (c ∷ s) = elim (Bool-cases (c == slash)) [
  | inl e ↦ rw e (rw (split_slash-snoc s) refl)
  | inr e ↦ rw e (
      rw (split_slash-snoc s)
        (extend_first-append c (split_slash s) ([] ∷ []) (split_slash-ne-nil s)))
]

parts_weight-snoc : (ws : List Bytes) → parts_weight (ws ++ ([] ∷ [])) ≡ parts_weight ws
parts_weight-snoc [] = refl
parts_weight-snoc (w ∷ ws) = omega (arith, parts_weight-snoc ws)

length-join_slash :
    (w : Bytes) (ws : List Bytes) → length (join_slash (w ∷ ws)) + 1 ≡ weight (w ∷ ws)
unfolding join_slash
length-join_slash w [] = omega arith
length-join_slash w (w' ∷ ws) =
    omega (arith, length-append w (slash ∷ join_slash (w' ∷ ws)), length-join_slash w' ws)

length-render :
    (rooted : Bool) (parts : List Bytes) (n : ℕ)
    → weight parts ≤ n + 1
    → (rooted ≡ true → weight parts ≤ n)
    → length (render (record { rooted = rooted; parts = parts })) ≤ max 1 n
unfolding render
length-render true [] n h k = unfold join_slash in ground arith
length-render false [] n h k = ground arith
length-render true (w ∷ ws) n h k = ground (arith, length-join_slash w ws, k refl)
length-render false (w ∷ ws) n h k = ground (arith, length-join_slash w ws)

-- A slash in front makes an empty first element.
parts_weight-rooted : (s : Bytes) → is_rooted s ≡ true → parts_weight (split_slash s) ≤ length s
unfolding is_rooted split_slash
parts_weight-rooted [] h = cc
parts_weight-rooted (c ∷ s) h =
    rw h (omega (arith, parts_weight-le (split_slash s), weight-split_slash s))

parse-weight : (s : Bytes) → weight (parse s).parts ≤ parts_weight (split_slash s)
unfolding parse
parse-weight s = omega (
  arith,
  weight-reverse (push_parts (is_rooted s) [] (split_slash s)),
  weight-push_parts (is_rooted s) [] (split_slash s),
)

rooted-snoc :
    (s : Bytes)
    → (parse (s ++ (slash ∷ []))).rooted ≡ true
    → parts_weight (split_slash s) ≤ length s
unfolding parse is_rooted split_slash
rooted-snoc [] h = omega arith
rooted-snoc (c ∷ s) h = parts_weight-rooted (c ∷ s) (unfold is_rooted in h)

-- Cleaning a text that ends in a slash drops that slash, unless nothing is left.
length-clean-join_slash : (s : Bytes) → length (clean (s ++ (slash ∷ []))) ≤ max 1 (length s)
unfolding clean
length-clean-join_slash s =
    let text = s ++ (slash ∷ []) in
    let weighed = parse-weight text in
    let same : parts_weight (split_slash text) ≡ parts_weight (split_slash s) =
      rw (split_slash-snoc s) (parts_weight-snoc (split_slash s)) in
    let whole = parts_weight-le (split_slash s) in
    length-render (parse text).rooted (parse text).parts (length s)
      (omega (arith, weight-split_slash s)) (λ h. omega (arith, rooted-snoc s h))

weight-drop_last : (ws : List Bytes) → ws ≢ [] → weight (drop_last ws) + 1 ≤ weight ws
unfolding drop_last
weight-drop_last [] h = absurd (h refl)
weight-drop_last (w ∷ []) h = omega arith
weight-drop_last (w ∷ w' ∷ ws) h = omega (arith, weight-drop_last (w' ∷ ws) (λ e. cc))

dir-cases :
    (path : Bytes) (ws : List Bytes)
    → drop_last (split_slash path) ≡ ws
    → weight ws ≤ length path
    → 1 < length path
    → length (dir path) < length path
unfolding dir
dir-cases path [] e h long = rw (e, dir) long
dir-cases path (w ∷ ws) e h long =
    rw (e, dir)
      (omega (arith, length-clean-join_slash (join_slash (w ∷ ws)), length-join_slash w ws))

-- The directory of a path of two bytes or more is shorter than the path.
pub length-dir : (path : Bytes) → 1 < length path → length (dir path) < length path
length-dir path long =
    let kept = weight-drop_last (split_slash path) (split_slash-ne-nil path) in
    dir-cases path (drop_last (split_slash path)) refl (omega (arith, weight-split_slash path)) long

-- A single byte is the root, or has the dot as its directory; so has the empty path.
pub dir_short : (path : Bytes) → length path ≤ 1 → (path ≡ slash ∷ []) ⊎ (dir path ≡ dot)
unfolding dir split_slash extend_first drop_last
dir_short [] h = inr refl
dir_short (c ∷ []) h = ground arith
dir_short (c ∷ c' ∷ path) h = absurd (omega arith)
