-- ===== src/FilePath/Inside.antt =====
-- The test that `Rel` does not begin with "..", and the paths at or below a directory.
use mathlib.Core.List.{append-nil}
use jsync.Base.{
  ℕ, zero, suc, ◌≡◌, refl, sym, ◌≢◌, ◌↔◌, ◌⊎◌, inl, inr, ◌∙◌, ap, Bool, true, false, some, List, [],
  ◌∷◌, ◌++◌, Bytes, nat_eq, bytes_eq, parts_eq, ◌==◌, ==-refl, arith, All, replicate, list_beq,
  Bool-cases, Option-cases,
}
use jsync.FilePath.{
  dot, dot_dot, Cleaned, join_slash, strip_common, target_parts, go_up, cleaned_beq, rel_of,
  from_stripped, same_root, has_prefix, escapes, parse, rel, confined,
}
use jsync.FilePath.Shape.{NoSlash, IsPart, IsOrdinary, IsClean, parse-IsClean}

-- `t` is `b` or below it: its elements are those of `b`, and more that are not "..".
pub record Inside (b t : Cleaned) : Type 0 where
  pub below : List Bytes
  pub same_root : t.rooted ≡ b.rooted
  pub extends : t.parts ≡ b.parts ++ below
  pub goes_down : All IsOrdinary below

-- The test on the joined text looks at the first element alone.
escapes-join_slash :
    (w : Bytes) (ws : List Bytes) → NoSlash w → escapes (join_slash (w ∷ ws)) ≡ (w == dot_dot)
unfolding escapes join_slash has_prefix list_beq
escapes-join_slash [] [] h = refl
escapes-join_slash [] (w' ∷ ws) h = refl
escapes-join_slash (a ∷ []) [] h = ground arith
escapes-join_slash (a ∷ []) (w' ∷ ws) h = ground arith
escapes-join_slash (a ∷ b ∷ []) [] h = ground arith
escapes-join_slash (a ∷ b ∷ []) (w' ∷ ws) h = ground arith
escapes-join_slash (a ∷ b ∷ c ∷ w) [] h = ground arith
escapes-join_slash (a ∷ b ∷ c ∷ w) (w' ∷ ws) h = ground arith

-- After the common beginning, two lists that both go on go on differently.
abbrev Apart : List Bytes → List Bytes → Type 0
Apart (x ∷ xs) (y ∷ ys) = x ≢ y
Apart _ _ = Unit

strip_common-split :
    (bs ts : List Bytes)
    → let (xs, ys) = strip_common bs ts in
      (common : List Bytes) × (bs ≡ common ++ xs) × (ts ≡ common ++ ys) × Apart xs ys
unfolding strip_common
strip_common-split [] ts = ([], refl, refl, tt)
strip_common-split (b ∷ bs) [] = ([], refl, refl, tt)
strip_common-split (b ∷ bs) (t ∷ ts) = elim (Bool-cases (b == t)) [
  | inl e ↦
      let (common, eb, et, ap') = strip_common-split bs ts in
      rw e (b ∷ common, ap (◌∷◌ b) eb, ground (arith, bytes_eq.beq_iff b t), ap')
  | inr e ↦ rw e ([], refl, refl, ground (arith, bytes_eq.beq_iff b t))
]

abbrev FirstOrdinary : List Bytes → Type 0
FirstOrdinary [] = Unit
FirstOrdinary (y ∷ ys) = IsOrdinary y

-- Past a run of "..", a tail that does not begin with ".." has none.
tail-IsOrdinary :
    (n : ℕ) (ords common ys : List Bytes)
    → replicate n dot_dot ++ ords ≡ common ++ ys
    → All IsOrdinary ords
    → FirstOrdinary ys
    → All IsOrdinary ys
tail-IsOrdinary zero ords [] ys e h hy = rw (← e) h
tail-IsOrdinary (suc n) ords [] [] e h hy = tt
tail-IsOrdinary (suc n) ords [] (y ∷ ys) e h hy = absurd (hy (cc))
tail-IsOrdinary zero [] (c ∷ common) ys e h hy = absurd (cc)
tail-IsOrdinary zero (o ∷ ords) (c ∷ common) ys e h hy =
    tail-IsOrdinary zero ords common ys (cc) h.1 hy
tail-IsOrdinary (suc n) ords (c ∷ common) ys e h hy = tail-IsOrdinary n ords common ys (cc) h hy

target_parts-cases :
    (rooted : Bool) (parts : List Bytes)
    → let t : Cleaned = record { rooted = rooted; parts = parts } in
      (target_parts t ≡ parts) ⊎ ((parts ≡ []) × (rooted ≡ false) × (target_parts t ≡ dot ∷ []))
unfolding target_parts
target_parts-cases true [] = inl refl
target_parts-cases false [] = inr (refl, refl, refl)
target_parts-cases rooted (w ∷ ws) = inl refl

-- No element is ".", so the base does not begin with it.
no-dot :
    (parts : List Bytes) (ys common : List Bytes)
    → All IsPart parts
    → parts ≡ common ++ []
    → dot ∷ [] ≡ common ++ ys
    → (parts ≡ []) × (ys ≡ dot ∷ [])
no-dot parts ys [] h e f = (e, sym f)
no-dot [] ys (c ∷ common) h e f = absurd (cc)
no-dot (w ∷ ws) ys (c ∷ common) h e f = absurd (h.0.1 (cc))

pub cleaned_beq_refl : (a : Cleaned) → cleaned_beq a a ≡ true
unfolding cleaned_beq same_root
cleaned_beq_refl a = ground (arith, parts_eq.beq_iff a.parts a.parts)

pub cleaned_beq-parts :
    (a b : Cleaned) → cleaned_beq a b ≡ true → (b.rooted ≡ a.rooted) × (b.parts ≡ a.parts)
unfolding cleaned_beq same_root
cleaned_beq-parts a b h = (
  ground (arith, parts_eq.beq_iff a.parts b.parts),
  ground (arith, parts_eq.beq_iff a.parts b.parts),
)

-- Going up shows as "..".
go_up-escapes :
    (w : Bytes) (ws ys : List Bytes) → ¬ (escapes (join_slash (go_up (w ∷ ws) ys)) ≡ false)
unfolding go_up
go_up-escapes w ws ys h =
    let e = escapes-join_slash dot_dot (go_up ws ys) (omega arith) in
    ground (arith, ==-refl dot_dot)

All-map {κ μ} :
    (Q : Bytes → Type κ) (R : Bytes → Type μ) (ws : List Bytes)
    → ((w : Bytes) → Q w → R w)
    → All Q ws
    → All R ws
All-map Q R [] f h = tt
All-map Q R (w ∷ ws) f h = (f w h.0, All-map Q R ws f h.1)

All-suffix {κ} : (Q : Bytes → Type κ) (xs ys : List Bytes) → All Q (xs ++ ys) → All Q ys
All-suffix Q [] ys h = h
All-suffix Q (x ∷ xs) ys h = All-suffix Q xs ys h.1

strip_common-append : (bs ys : List Bytes) → strip_common bs (bs ++ ys) ≡ ([], ys)
unfolding strip_common
strip_common-append [] ys = refl
strip_common-append (b ∷ bs) ys = rw (==-refl b) (strip_common-append bs ys)

nil-ne-append : (bs : List Bytes) (w : Bytes) (ws : List Bytes) → [] ≢ bs ++ (w ∷ ws)
nil-ne-append [] w ws h = cc
nil-ne-append (b ∷ bs) w ws h = cc

module _ (b t : Cleaned) (cb : IsClean b) (ct : IsClean t) where
  Inside-same : (b.rooted ≡ t.rooted) → t.parts ≡ b.parts → Inside b t
  Inside-same r e = record {
    below = [];
    same_root = sym r;
    extends = e ∙ sym (append-nil b.parts);
    goes_down = tt;
  }

  -- The base is used up, and the first element that is left is not "..".
  Inside-stripped :
      (common ys : List Bytes)
      → b.rooted ≡ t.rooted
      → b.parts ≡ common ++ []
      → target_parts t ≡ common ++ ys
      → FirstOrdinary ys
      → Inside b t
  Inside-stripped common ys r eb et first = elim (target_parts-cases t.rooted t.parts) [
    | inl plain ↦ record {
      below = ys;
      same_root = sym r;
      extends = sym plain ∙ et ∙ rw (eb, append-nil);
      goes_down =
          tail-IsOrdinary ct.ups ct.ordinary common ys (sym ct.split ∙ sym plain ∙ et)
            ct.all_ordinary first;
    }
    | inr (empty, free, dotted) ↦
        let (none_left, _) = no-dot b.parts ys common cb.each eb (sym dotted ∙ et) in
        Inside-same r (cc)
  ]

  from_stripped-Inside :
      (xs ys common : List Bytes) {r : Bytes}
      → b.rooted ≡ t.rooted
      → All NoSlash ys
      → b.parts ≡ common ++ xs
      → target_parts t ≡ common ++ ys
      → from_stripped xs ys ≡ some r
      → escapes r ≡ false
      → Inside b t
  unfolding from_stripped
  from_stripped-Inside [] [] common root hs eb et e free = Inside-stripped common [] root eb et tt
  from_stripped-Inside [] (y ∷ ys) common root hs eb et e free =
      Inside-stripped common (y ∷ ys) root eb et
        (ground (arith, escapes-join_slash y ys hs.0, bytes_eq.beq_iff y dot_dot))
  from_stripped-Inside (w ∷ ws) ys common root hs eb et e free =
      absurd (go_up-escapes w ws ys (ground arith))

  target_parts-NoSlash : All NoSlash (target_parts t)
  target_parts-NoSlash = elim (target_parts-cases t.rooted t.parts) [
    | inl plain ↦ rw plain (All-map IsPart NoSlash t.parts (λ w h. h.0) ct.each)
    | inr (empty, free, dotted) ↦ rw dotted (omega arith)
  ]

  -- A result of `Rel` that does not escape means that the target is inside the base.
  pub rel_of-Inside : {r : Bytes} → rel_of b t ≡ some r → escapes r ≡ false → Inside b t
  unfolding rel_of
  rel_of-Inside {r} e free = elim (Bool-cases (cleaned_beq b t)) [
    | inl equal ↦ let (root, parts) = cleaned_beq-parts b t equal in Inside-same (sym root) parts
    | inr differ ↦ elim (Bool-cases (same_root b t)) [
      | inl root ↦
          let (common, eb, et, _) = strip_common-split b.parts (target_parts t) in
          let (xs, ys) = strip_common b.parts (target_parts t) in
          from_stripped-Inside xs ys common (unfold same_root in ground arith)
            (All-suffix NoSlash common ys (rw et at target_parts-NoSlash)) eb et (ground arith) free
      | inr apart ↦ absurd (ground arith)
    ]
  ]

  cleaned_beq-intro : t.rooted ≡ b.rooted → t.parts ≡ b.parts → cleaned_beq b t ≡ true
  unfolding cleaned_beq same_root
  cleaned_beq-intro root parts = ground (arith, parts_eq.beq_iff b.parts t.parts)

  rel_of_below :
      (below : List Bytes)
      → t.rooted ≡ b.rooted
      → t.parts ≡ b.parts ++ below
      → All IsOrdinary below
      → cleaned_beq b t ≡ false
      → (r : Bytes) × (rel_of b t ≡ some r) × (escapes r ≡ false)
  unfolding rel_of from_stripped
  rel_of_below [] root parts down differ =
      absurd (ground (arith, cleaned_beq-intro root (parts ∙ append-nil b.parts)))
  rel_of_below (w ∷ ws) root parts down differ = elim (target_parts-cases t.rooted t.parts) [
    | inl plain ↦
        let stripped : strip_common b.parts (target_parts t) ≡ ([], w ∷ ws) =
          rw (plain, parts) (strip_common-append b.parts (w ∷ ws)) in
        let slashless : NoSlash w =
          (All-suffix IsPart b.parts (w ∷ ws) (rw parts at ct.each)).0.0 in
        let same : same_root b t ≡ true = unfold same_root in ground arith in
        (
          join_slash (w ∷ ws),
          ground arith,
          ground (arith, escapes-join_slash w ws slashless, bytes_eq.beq_iff w dot_dot, down.0),
        )
    | inr (empty, free, dotted) ↦ absurd (nil-ne-append b.parts w ws (sym empty ∙ parts))
  ]

  -- For a target inside the base `Rel` gives a result that does not escape.
  pub Inside-rel_of : Inside b t → (r : Bytes) × (rel_of b t ≡ some r) × (escapes r ≡ false)
  Inside-rel_of i = elim (Bool-cases (cleaned_beq b t)) [
    | inl equal ↦ (dot, unfold rel_of in ground arith, unfold escapes has_prefix list_beq in refl)
    | inr differ ↦ rel_of_below i.below i.same_root i.extends i.goes_down differ
  ]

-- A target passes exactly when, both cleaned, it is the base or lies below it.
pub confined_iff :
    (base target : Bytes) → (confined base target ≡ true) ↔ Inside (parse base) (parse target)
unfolding confined rel
confined_iff base target =
    let b = parse base in
    let t = parse target in
    let cb = parse-IsClean base in
    let ct = parse-IsClean target in
    (
      λ h. elim (Option-cases (rel_of b t)) [
        | inl failed ↦ absurd (ground arith)
        | inr (r, made) ↦ rel_of-Inside b t cb ct made (ground arith)
      ],
      λ i. let (r, made, free) = Inside-rel_of b t cb ct i in ground arith,
    )
