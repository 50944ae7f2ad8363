-- ===== src/Identity/Authorized/Persisted.antt =====
-- internal/identity/authorized_clients.go: what is read back from the file that was written.
use mathlib.Core.List.{append_assoc, append-nil}
use jsync.Base.{
  ℕ, ◌≡◌, ◌≢◌, refl, sym, ◌∙◌, ap, inl, inr, Bool, true, false, not, ◌&&◌, ◌||◌, Option, none, some,
  List, [], ◌∷◌, ◌++◌, Bytes, nat_eq, bytes_eq, ◌==◌, ==-refl, length, arith, All, Bool-cases,
  Option-cases, if◌then◌else◌,
}
use jsync.Base.Dict
use jsync.Base.Dict.{Dict}
use jsync.Identity.Authorized.{
  AuthorizedClients, TextLibrary, text, newline, drop_cr, scan_lines, decode_public_key,
  skipped_line, load_lines, load_authorized_clients, or_false, is_authorized, key_list, join_lines,
  saved, add, remove,
}

abbrev pub NoNewline : Bytes → Type 0
NoNewline line = All (λ c. c ≢ newline) line

module _ (X : TextLibrary) where
  -- A line that is read back as itself and holds a key.
  pub record IsKeyLine (line : Bytes) : Type 0 where
    pub unbroken : NoNewline line
    pub no_cr : drop_cr line ≡ line
    pub trimmed : X.trim_space line ≡ line
    pub counts : skipped_line X line ≡ false
    pub key : Bytes
    pub decodes : decode_public_key X line ≡ some key

  abbrev pub listed : Bytes → List Bytes → Bool
  listed k [] = false
  listed k (line ∷ lines) = line == k || listed k lines

  -- base64 of a key of 32 bytes is such a line, and sorting keeps the lines.
  pub record IsLawful : Type 0 where
    pub encode-IsKeyLine : (pub_key : Bytes) → length pub_key ≡ 32 → IsKeyLine (X.encode pub_key)
    pub sort_All : (lines : List Bytes) → All IsKeyLine lines → All IsKeyLine (X.sort lines)
    pub listed-sort : (k : Bytes) (lines : List Bytes) → listed k (X.sort lines) ≡ listed k lines

  -- Every key of the list is a line of this kind, and is trusted.
  pub record IsWellKept (ac : AuthorizedClients) : Type 0 where
    pub lines : All IsKeyLine (key_list X ac.keys)
    pub trusted : All (λ (k, b). b ≡ true) ac.keys

  scan_lines-line :
      (before line rest : Bytes)
      → NoNewline line
      → scan_lines before (line ++ (newline ∷ rest)) ≡ drop_cr (before ++ line) ∷ scan_lines [] rest
  unfolding scan_lines
  scan_lines-line before [] rest h = rw (append-nil before) refl
  scan_lines-line before (c ∷ line) rest h = elim (Bool-cases (c == newline)) [
    | inl e ↦ absurd (h.0 ((nat_eq.beq_iff c newline).0 e))
    | inr e ↦ rw e (
        scan_lines-line (before ++ (c ∷ [])) line rest h.1
        ∙ ap (λ whole. drop_cr whole ∷ scan_lines [] rest) (append_assoc before (c ∷ []) line))
  ]

  scan_lines-join_lines :
      (lines : List Bytes) → All IsKeyLine lines → scan_lines [] (join_lines X lines) ≡ lines
  unfolding join_lines scan_lines jsync.Base.list_beq
  scan_lines-join_lines [] h = refl
  scan_lines-join_lines (line ∷ lines) h =
      scan_lines-line [] line (join_lines X lines) h.0.unbroken
      ∙ rw (h.0.no_cr, scan_lines-join_lines lines h.1) refl

  insert_all : List Bytes → Dict Bytes Bool → Dict Bytes Bool
  insert_all [] keys = keys
  insert_all (line ∷ lines) keys = insert_all lines (Dict.insert line true keys)

  load_lines-insert_all :
      (lines : List Bytes) (keys : Dict Bytes Bool)
      → All IsKeyLine lines
      → load_lines X lines keys ≡ some (insert_all lines keys)
  unfolding load_lines insert_all
  load_lines-insert_all [] keys h = refl
  load_lines-insert_all (line ∷ lines) keys h =
      let kept = h.0.trimmed in
      let counts : skipped_line X (X.trim_space line) ≡ false = rw kept h.0.counts in
      let decodes : decode_public_key X (X.trim_space line) ≡ some h.0.key = rw kept h.0.decodes in
      rw (counts, decodes)
        (ap (λ t. load_lines X lines (Dict.insert t true keys)) kept
          ∙ load_lines-insert_all lines (Dict.insert line true keys) h.1)

  lookup-insert_all :
      (k : Bytes) (lines : List Bytes) (keys : Dict Bytes Bool)
      → Dict.lookup k (insert_all lines keys)
        ≡ (if listed k lines then some true else Dict.lookup k keys)
  unfolding insert_all
  lookup-insert_all k [] keys = refl
  lookup-insert_all k (line ∷ lines) keys =
      lookup-insert_all k lines (Dict.insert line true keys)
      ∙ ground (arith, Dict.lookup-insert line k true keys)

  lookup-trusted :
      (k : Bytes) (keys : Dict Bytes Bool)
      → All (λ (k, b). b ≡ true) keys
      → Dict.lookup k keys ≡ (if listed k (key_list X keys) then some true else none)
  unfolding Dict.lookup key_list
  lookup-trusted k [] h = refl
  lookup-trusted k ((j, b) ∷ keys) h = ground (arith, lookup-trusted k keys, h.0)

  All-insert :
      (line : Bytes) (keys : Dict Bytes Bool)
      → IsKeyLine line
      → All IsKeyLine (key_list X keys)
      → All IsKeyLine (key_list X (Dict.insert line true keys))
  unfolding key_list Dict.insert
  All-insert line [] l h = (l, tt)
  All-insert line ((j, b) ∷ keys) l h = elim (Bool-cases (j == line)) [
    | inl e ↦ rw e (l, h.1)
    | inr e ↦ rw e (h.0, All-insert line keys l h.1)
  ]

  All-delete :
      (line : Bytes) (keys : Dict Bytes Bool)
      → All IsKeyLine (key_list X keys)
      → All IsKeyLine (key_list X (Dict.delete line keys))
  unfolding key_list Dict.delete
  All-delete line [] h = tt
  All-delete line ((j, b) ∷ keys) h = elim (Bool-cases (j == line)) [
    | inl e ↦ rw e (All-delete line keys h.1)
    | inr e ↦ rw e (h.0, All-delete line keys h.1)
  ]

  insert_trusted :
      (line : Bytes) (keys : Dict Bytes Bool)
      → All (λ (k, b). b ≡ true) keys
      → All (λ (k, b). b ≡ true) (Dict.insert line true keys)
  unfolding Dict.insert
  insert_trusted line [] h = (refl, tt)
  insert_trusted line ((j, b) ∷ keys) h = elim (Bool-cases (j == line)) [
    | inl e ↦ rw e (refl, h.1)
    | inr e ↦ rw e (h.0, insert_trusted line keys h.1)
  ]

  delete_trusted :
      (line : Bytes) (keys : Dict Bytes Bool)
      → All (λ (k, b). b ≡ true) keys
      → All (λ (k, b). b ≡ true) (Dict.delete line keys)
  unfolding Dict.delete
  delete_trusted line [] h = tt
  delete_trusted line ((j, b) ∷ keys) h = elim (Bool-cases (j == line)) [
    | inl e ↦ rw e (delete_trusted line keys h.1)
    | inr e ↦ rw e (h.0, delete_trusted line keys h.1)
  ]

  module _ (L : IsLawful) where
    -- The file that a list writes is read back, and the list that is read trusts the same keys.
    load-saved :
        (ac : AuthorizedClients) (path : Bytes)
        → IsWellKept ac
        → (loaded : AuthorizedClients) × (load_authorized_clients X path (text (saved X ac))
            ≡ some loaded)
          × ((k : Bytes) → is_authorized X loaded k ≡ is_authorized X ac k)
    unfolding load_authorized_clients saved is_authorized
    load-saved ac path w =
        let lines = X.sort (key_list X ac.keys) in
        let good = L.sort_All (key_list X ac.keys) w.lines in
        let same : (k : Bytes) → Dict.lookup k (insert_all lines []) ≡ Dict.lookup k ac.keys = λ k.
          lookup-insert_all k lines []
          ∙ (rw (L.listed-sort k (key_list X ac.keys), Dict.lookup-nil {V = Bool} k) refl
              ∙ sym (lookup-trusted k ac.keys w.trusted)) in
        let loaded : AuthorizedClients = record { path = path; keys = insert_all lines [] } in
        (
          loaded,
          rw
              (
                scan_lines-join_lines lines good,
                load_lines-insert_all lines [] good,
                load_authorized_clients,
                saved,
              )
              refl,
          λ k. ap (or_false X) (same (X.encode k)),
        )

    add-IsWellKept :
        (ac : AuthorizedClients) (pub_key : Bytes)
        → length pub_key ≡ 32
        → IsWellKept ac
        → IsWellKept (add X ac pub_key).0
    unfolding add
    add-IsWellKept ac pub_key size w = record {
      lines = All-insert (X.encode pub_key) ac.keys (L.encode-IsKeyLine pub_key size) w.lines;
      trusted = insert_trusted (X.encode pub_key) ac.keys w.trusted;
    }

    remove-IsWellKept :
        (ac : AuthorizedClients) (pub_key : Bytes)
        → IsWellKept ac
        → IsWellKept (remove X ac pub_key).0
    unfolding remove
    remove-IsWellKept ac pub_key w = record {
      lines = All-delete (X.encode pub_key) ac.keys w.lines;
      trusted = delete_trusted (X.encode pub_key) ac.keys w.trusted;
    }

    -- With lawful text functions and a well kept list: the file that is written when a key of 32 bytes
    -- is added can be read, and the list that is read trusts that key and those that were trusted; the
    -- file that is written when a key is removed can be read too, and the list that is read trusts
    -- those that were trusted but that key.
    pub load-add_remove :
        (ac : AuthorizedClients) (path pub_key : Bytes)
        → IsWellKept ac
        → length pub_key ≡ 32
        → ((loaded : AuthorizedClients) × (load_authorized_clients X path
                (text (add X ac pub_key).1)
              ≡ some loaded)
            × ((k : Bytes)
                → is_authorized X loaded k
                  ≡ (X.encode pub_key == X.encode k || is_authorized X ac k)))
          × ((loaded : AuthorizedClients) × (load_authorized_clients X path
                  (text (remove X ac pub_key).1)
                ≡ some loaded)
              × ((k : Bytes)
                  → is_authorized X loaded k
                    ≡ (not (X.encode pub_key == X.encode k) && is_authorized X ac k)))
    load-add_remove ac path pub_key w size =
        let (added, e, same) =
          load-saved (add X ac pub_key).0 path (add-IsWellKept ac pub_key size w) in
        let (left, f, same') =
          load-saved (remove X ac pub_key).0 path (remove-IsWellKept ac pub_key w) in
        (
          (
            added,
            unfold add in e,
            λ k.
                same k
                ∙ unfold add is_authorized in
                  (ap (or_false X) (Dict.lookup-insert (X.encode pub_key) (X.encode k) true ac.keys)
                    ∙ ground arith),
          ),
          (
            left,
            unfold remove in f,
            λ k.
                same' k
                ∙ unfold remove is_authorized in
                  (ap (or_false X) (Dict.lookup-delete (X.encode pub_key) (X.encode k) ac.keys)
                    ∙ ground arith),
          ),
        )
