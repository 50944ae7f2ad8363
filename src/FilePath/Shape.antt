-- ===== src/FilePath/Shape.antt =====
-- The shape of a cleaned path: no element holds a slash or is ".", and ".." stands only at the
-- beginning, and not at all if the path is rooted.
use mathlib.Core.List.{reverse, reverse-append}
use jsync.Base.{
  ℕ, zero, suc, ◌≡◌, refl, ◌≢◌, ◌∙◌, ap, Bool, true, false, List, [], ◌∷◌, ◌++◌, Bytes, nat_eq,
  bytes_eq, ◌==◌, arith, All, All-reverse, replicate, reverse-replicate, Bool-cases, inl, inr,
}
use jsync.FilePath.{
  slash, dot, dot_dot, Cleaned, extend_first, split_slash, push_part, push_parts, is_rooted, parse,
}

abbrev pub NoSlash : Bytes → Type 0
NoSlash w = All (λ c. c ≢ slash) w

abbrev pub IsPart : Bytes → Type 0
IsPart w = NoSlash w × (w ≢ dot)

abbrev pub IsOrdinary : Bytes → Type 0
IsOrdinary w = w ≢ dot_dot

extend_first-NoSlash :
    (c : ℕ) (ws : List Bytes) → c ≢ slash → All NoSlash ws → All NoSlash (extend_first c ws)
unfolding extend_first
extend_first-NoSlash c [] h hs = ((h, tt), tt)
extend_first-NoSlash c (w ∷ ws) h hs = ((h, hs.0), hs.1)

split_slash-NoSlash : (s : Bytes) → All NoSlash (split_slash s)
unfolding split_slash
split_slash-NoSlash [] = (tt, tt)
split_slash-NoSlash (c ∷ s) = elim (Bool-cases (c == slash)) [
  | inl e ↦ rw e (tt, split_slash-NoSlash s)
  | inr ne ↦ rw ne (extend_first-NoSlash c _ (ground arith) (split_slash-NoSlash s))
]

-- What one element does to the stack.
data Pushed (rooted : Bool) (stack : List Bytes) (part : Bytes) (result : List Bytes) : Type 0 where
  kept : result ≡ stack → Pushed rooted stack part result
  popped : (t : Bytes) → t ≢ dot_dot → stack ≡ t ∷ result → Pushed rooted stack part result
  started : rooted ≡ false → stack ≡ [] → result ≡ dot_dot ∷ [] → Pushed rooted stack part result
  dotted :
      (below : List Bytes)
      → stack ≡ dot_dot ∷ below
      → result ≡ dot_dot ∷ stack
      → Pushed rooted stack part result
  added : part ≢ dot → part ≢ dot_dot → result ≡ part ∷ stack → Pushed rooted stack part result

push_part-Pushed :
    (rooted : Bool) (stack : List Bytes) (part : Bytes)
    → Pushed rooted stack part (push_part rooted stack part)
unfolding push_part
push_part-Pushed rooted [] part = elim (Bool-cases (part == [])) [
  | inl e ↦ rw e (kept refl)
  | inr e ↦ elim (Bool-cases (part == dot)) [
    | inl d ↦ rw (e, d) (kept refl)
    | inr d ↦ elim (Bool-cases (part == dot_dot)) [
      | inl dd ↦ elim (Bool-cases rooted) [
        | inl r ↦ rw (e, d, dd, r) (kept refl)
        | inr r ↦ rw (e, d, dd, r) (started refl refl refl)
      ]
      | inr dd ↦
          rw (e, d, dd)
            (added (ground (arith, bytes_eq.beq_iff part dot))
              (ground (arith, bytes_eq.beq_iff part dot_dot)) refl)
    ]
  ]
]
push_part-Pushed rooted (t ∷ below) part = elim (Bool-cases (part == [])) [
  | inl e ↦ rw e (kept refl)
  | inr e ↦ elim (Bool-cases (part == dot)) [
    | inl d ↦ rw (e, d) (kept refl)
    | inr d ↦ elim (Bool-cases (part == dot_dot)) [
      | inl dd ↦ elim (Bool-cases (t == dot_dot)) [
        | inl u ↦
            rw (e, d, dd, u)
              (dotted below (ap (λ x. x ∷ below) ((bytes_eq.beq_iff t dot_dot).0 u)) refl)
        | inr u ↦ rw (e, d, dd, u) (popped t (ground (arith, bytes_eq.beq_iff t dot_dot)) refl)
      ]
      | inr dd ↦
          rw (e, d, dd)
            (added (ground (arith, bytes_eq.beq_iff part dot))
              (ground (arith, bytes_eq.beq_iff part dot_dot)) refl)
    ]
  ]
]

dot_dot-IsPart : IsPart dot_dot
dot_dot-IsPart = (omega arith, cc)

Pushed-IsPart :
    {rooted : Bool} {stack result : List Bytes} {part : Bytes}
    → Pushed rooted stack part result
    → All IsPart stack
    → NoSlash part
    → All IsPart result
Pushed-IsPart (kept e) hs hp = rw e hs
Pushed-IsPart (popped t o e) hs hp = (rw e at hs).1
Pushed-IsPart (started r e f) hs hp = rw f (dot_dot-IsPart, tt)
Pushed-IsPart (dotted below e f) hs hp = rw f (dot_dot-IsPart, hs)
Pushed-IsPart (added d dd f) hs hp = rw f ((hp, d), hs)

-- The stack of a clean in progress: ordinary elements over a run of "..", none if rooted.
abbrev Stacked : Bool → List Bytes → Type 0
Stacked rooted stack =
    (ords : List Bytes) × (n : ℕ) × (stack ≡ ords ++ replicate n dot_dot)
    × All IsOrdinary ords
    × (rooted ≡ true → n ≡ 0)

Pushed-Stacked :
    {rooted : Bool} {stack result : List Bytes} {part : Bytes}
    → Pushed rooted stack part result
    → Stacked rooted stack
    → Stacked rooted result
Pushed-Stacked (kept e) (ords, n, f, ho, hn) = (ords, n, e ∙ f, ho, hn)
Pushed-Stacked (popped t o e) ([], zero, f, ho, hn) = absurd (cc)
Pushed-Stacked (popped t o e) ([], suc n, f, ho, hn) = absurd (o (cc))
Pushed-Stacked (popped t o e) (w ∷ ords, n, f, ho, hn) = (ords, n, cc, ho.1, hn)
Pushed-Stacked (started r e f) (ords, n, g, ho, hn) = ([], 1, f, tt, cc)
Pushed-Stacked (dotted below e f) ([], zero, g, ho, hn) = absurd (cc)
Pushed-Stacked (dotted below e f) ([], suc n, g, ho, hn) =
    ([], suc (suc n), f ∙ ap (◌∷◌ dot_dot) g, tt, λ r. absurd (omega (arith, hn r)))
Pushed-Stacked (dotted below e f) (w ∷ ords, n, g, ho, hn) = absurd (ho.0 (cc))
Pushed-Stacked {part} (added d dd f) (ords, n, g, ho, hn) =
    (part ∷ ords, n, f ∙ ap (◌∷◌ part) g, (dd, ho), hn)

push_parts-shape :
    (rooted : Bool) (parts stack : List Bytes)
    → All NoSlash parts
    → All IsPart stack
    → Stacked rooted stack
    → All IsPart (push_parts rooted stack parts) × Stacked rooted (push_parts rooted stack parts)
unfolding push_parts
push_parts-shape rooted [] stack hp hs st = (hs, st)
push_parts-shape rooted (part ∷ parts) stack hp hs st =
    let pushed = push_part-Pushed rooted stack part in
    push_parts-shape rooted parts (push_part rooted stack part) hp.1 (Pushed-IsPart pushed hs hp.0)
      (Pushed-Stacked pushed st)

-- A cleaned path: elements with no slash, none ".", and ".." only as a first run, which a rooted
-- path does not have.
pub record IsClean (p : Cleaned) : Type 0 where
  pub each : All IsPart p.parts
  pub ups : ℕ
  pub ordinary : List Bytes
  pub split : p.parts ≡ replicate ups dot_dot ++ ordinary
  pub all_ordinary : All IsOrdinary ordinary
  pub none_rooted : p.rooted ≡ true → ups ≡ 0

-- Whatever the text, its cleaned form has that shape.
pub parse-IsClean : (path : Bytes) → IsClean (parse path)
unfolding parse
parse-IsClean path =
    let r = is_rooted path in
    let (each, (ords, n, e, ho, hn)) =
      push_parts-shape r (split_slash path) [] (split_slash-NoSlash path) tt
        ([], 0, refl, tt, λ _. refl) in
    record {
      each = All-reverse IsPart _ each;
      ups = n;
      ordinary = reverse ords;
      split =
          ap reverse e
          ∙ reverse-append ords (replicate n dot_dot)
          ∙ rw (reverse-replicate n dot_dot);
      all_ordinary = All-reverse IsOrdinary ords ho;
      none_rooted = hn;
    }
