-- ===== src/Auditlog/Size.antt =====
-- internal/auditlog/auditlog.go: how large the live file grows.
use jsync.Base.{
  ℕ, zero, suc, ◌+◌, ◌-◌, ◌≤◌, ◌<◌, ◌≡◌, ◌≢◌, refl, sym, ◌∙◌, ap, subst, ◌⊎◌, inl, inr, Bool, true,
  false, Option, none, some, List, [], ◌∷◌, ◌++◌, Bytes, codes, length, length-append,
  length-take_of_le, take, arith, All, if◌then◌else◌, Bool-cases, Option-cases,
}
use jsync.FilePath.{parse}
use jsync.Auditlog.Files.{LogFiles, IsLawful, opened}
use jsync.Auditlog.{
  Record, Logger, LogError, rename_failed, Formats, line_of, shift, backup_path, max_backups,
  open_failed, reopen, rotate, append_line, is_full, write_line, log_open, log, log_all,
}

module _ (X : Formats) (F : LogFiles) where
  -- With a file handle the live file is there, and its length is the size that the logger counts.
  abbrev pub Counted : Bool → Bytes → ℕ → F.State → Type 0
  Counted true path size s = (text : Bytes) × (F.content path s ≡ some text) × (length text ≡ size)
  Counted false path size s = Unit

  -- The live file has at most that many bytes, if it is there.
  abbrev pub FitsFile : ℕ → Bytes → F.State → Type 0
  FitsFile bound path s = length (opened (F.content path s)) ≤ bound

  -- A logger with a limit, whose live file is within a bound that is no less than the limit, and
  -- whose rotated files have other names.
  pub record IsWithin (bound : ℕ) (session : Bytes) (l : Logger) (s : F.State) : Type 0 where
    pub counted : Counted l.is_open l.path l.size s
    pub within : l.size ≤ bound
    pub live : FitsFile bound l.path s
    pub limited : 0 < l.max_bytes
    pub limit : l.max_bytes ≤ bound
    pub own_session : l.session ≡ session
    pub first_apart : parse l.path ≢ parse (l.path ++ codes ".1")
    pub backups_apart : (n : ℕ) → n ≤ max_backups → parse l.path ≢ parse (backup_path X l.path n)

  -- The line of a record is within the bound, if it has one.
  abbrev pub FitsLine : ℕ → Option Bytes → Type 0
  FitsLine bound none = Unit
  FitsLine bound (some text) = length text ≤ bound

  module _ (L : IsLawful F) (bound : ℕ) (session : Bytes) where
    -- Shifting the older generations leaves the live file alone.
    content-shift :
        (path : Bytes) (n : ℕ) (s : F.State)
        → suc n ≤ max_backups
        → ((k : ℕ) → k ≤ max_backups → parse path ≢ parse (backup_path X path k))
        → F.content path (shift X F path n s) ≡ F.content path s
    unfolding shift
    content-shift path zero s le apart = refl
    content-shift path (suc n) s le apart =
        content-shift path n
          (F.rename (backup_path X path (suc n)) (backup_path X path (suc (suc n))) s).0
          (omega arith) apart
        ∙ L.content-rename_ne (backup_path X path (suc n)) (backup_path X path (suc (suc n))) path s
            (apart (suc n) (omega arith)) (apart (suc (suc n)) le)

    append_line-IsWithin :
        (text : Bytes) (l : Logger) (s : F.State)
        → l.is_open ≡ true
        → IsWithin bound session l s
        → l.size + length text ≤ bound
        → IsWithin bound session (append_line X F text l s).1 (append_line X F text l s).0
    unfolding append_line
    append_line-IsWithin text l s is_open w fits =
        let (old, e, n) = subst (λ b. Counted b l.path l.size s) is_open w.counted in
        let written = (F.write l.path text s).1 in
        let le = L.write-le l.path text s in
        let grown : Counted true l.path (l.size + written) (F.write l.path text s).0 = (
          old ++ take written text,
          L.content-write l.path text old s e,
          length-append old (take written text) ∙ omega (arith, length-take_of_le written text le),
        ) in
        let (_, holds, counts) = grown in
        record {
          counted =
              subst (λ b. Counted b l.path (l.size + written) (F.write l.path text s).0)
                (sym is_open) grown;
          within = omega arith;
          live = subst (λ o. length (opened o) ≤ bound) (sym holds) (omega (arith, counts));
          limited = w.limited;
          limit = w.limit;
          own_session = w.own_session;
          first_apart = w.first_apart;
          backups_apart = w.backups_apart;
        }

    -- After a rotation the logger has an empty file, or none.
    rotate-IsWithin :
        (l : Logger) (s : F.State)
        → IsWithin bound session l s
        → IsWithin bound session (rotate X F l s).1 (rotate X F l s).0
          × (((rotate X F l s).1.is_open ≡ false)
              ⊎ (((rotate X F l s).1.is_open ≡ true) × ((rotate X F l s).1.size ≡ 0)))
    unfolding rotate reopen
    rotate-IsWithin l s w =
        let removed = (F.remove (backup_path X l.path max_backups) s).0 in
        let shifted = shift X F l.path (max_backups - 1) removed in
        let moved = (F.rename l.path (l.path ++ codes ".1") shifted).0 in
        let same : F.content l.path shifted ≡ F.content l.path s =
          content-shift l.path (max_backups - 1) removed (omega arith) w.backups_apart
          ∙ L.content-remove_ne (backup_path X l.path max_backups) l.path s
              (w.backups_apart max_backups (omega arith)) in
        let lost : (e : LogError) (t : F.State)
            → FitsFile bound l.path t
            → IsWithin bound session (record l { is_open = false; err = some e }) t =
          λ e t live. record {
            counted = tt;
            within = w.within;
            live = live;
            limited = w.limited;
            limit = w.limit;
            own_session = w.own_session;
            first_apart = w.first_apart;
            backups_apart = w.backups_apart;
          } in
        elim (Bool-cases (F.rename l.path (l.path ++ codes ".1") shifted).1) [
          | inl e ↦
              let unmoved =
                L.content-rename_failed l.path (l.path ++ codes ".1") l.path shifted e ∙ same in
              let live = subst (λ o. length (opened o) ≤ bound) (sym unmoved) w.live in
              rw (e, rotate) (lost rename_failed moved live, inl refl)
          | inr e ↦
              let gone =
                L.content-rename_old l.path (l.path ++ codes ".1") shifted w.first_apart e in
              elim (Bool-cases (F.open_append l.path moved).1) [
                | inl f ↦
                    let still_gone = L.content-open_failed l.path moved f ∙ gone in
                    let live =
                      subst (λ o. length (opened o) ≤ bound) (sym still_gone) (omega arith) in
                    rw (e, f, rotate)
                      (lost open_failed (F.open_append l.path moved).0 live, inl refl)
                | inr f ↦
                    let empty = L.content-open l.path moved f ∙ ap (λ o. some (opened o)) gone in
                    rw (e, f, rotate)
                      (
                        record {
                          counted = ([], empty, refl);
                          within = omega arith;
                          live = subst (λ o. length (opened o) ≤ bound) (sym empty) (omega arith);
                          limited = w.limited;
                          limit = w.limit;
                          own_session = w.own_session;
                          first_apart = w.first_apart;
                          backups_apart = w.backups_apart;
                        },
                        inr (refl, refl),
                      )
              ]
        ]

    write_line-IsWithin :
        (text : Bytes) (l : Logger) (s : F.State)
        → l.is_open ≡ true
        → IsWithin bound session l s
        → length text ≤ bound
        → IsWithin bound session (write_line X F text l s).1 (write_line X F text l s).0
    unfolding write_line
    write_line-IsWithin text l s is_open w fits = elim (Bool-cases (is_full X F l text)) [
      | inr room ↦
          let limited = w.limited in
          let limit = w.limit in rw room (append_line-IsWithin text l s is_open w (ground arith))
      | inl full ↦
          let (turned, result) = rotate-IsWithin l s w in
          elim result [
            | inl closed ↦ rw (full, closed, write_line) turned
            | inr (is_open', empty) ↦
                rw (full, is_open', write_line)
                  (append_line-IsWithin text (rotate X F l s).1 (rotate X F l s).0 is_open' turned
                    (omega arith))
          ]
    ]

    log_open-IsWithin :
        (r : Record) (now : ℕ) (l : Logger) (s : F.State)
        → l.is_open ≡ true
        → IsWithin bound session l s
        → FitsLine bound (line_of X session now r)
        → IsWithin bound session (log_open X F r now l s).1 (log_open X F r now l s).0
    unfolding log_open
    log_open-IsWithin r now l s is_open w fits = elim (Option-cases (line_of X l.session now r)) [
      | inl e ↦
          rw (e, log_open)
            (record {
              counted = w.counted;
              within = w.within;
              live = w.live;
              limited = w.limited;
              limit = w.limit;
              own_session = w.own_session;
              first_apart = w.first_apart;
              backups_apart = w.backups_apart;
            })
      | inr (text, e) ↦
          let same : line_of X session now r ≡ some text =
            ap (λ own. line_of X own now r) (sym w.own_session) ∙ e in
          rw (e, log_open)
            (write_line-IsWithin text l s is_open w (subst (FitsLine bound) same fits))
    ]

    log-IsWithin :
        (r : Record) (now : ℕ) (l : Logger) (s : F.State)
        → IsWithin bound session l s
        → FitsLine bound (line_of X session now r)
        → IsWithin bound session (log X F r now l s).1 (log X F r now l s).0
    unfolding log
    log-IsWithin r now l s w fits =
        let Kept : F.State × Logger → Type 0 = λ p. IsWithin bound session p.1 p.0 in
        let branch : Bool → F.State × Logger = λ b. if b then log_open X F r now l s else (s, l) in
        elim (Bool-cases l.is_open) [
          | inl is_open ↦
              subst (λ b. Kept (branch b)) (sym is_open)
                (log_open-IsWithin r now l s is_open w fits)
          | inr closed ↦ subst (λ b. Kept (branch b)) (sym closed) w
        ]

    -- On lawful files, for a logger with a limit whose rotated files have other names, and any records
    -- whose lines are within a bound that is no less than the limit: after logging them, rotations
    -- and failures included, the live file is within that bound if it is there, also when the logger
    -- has lost it, and as long as the logger has the file it counts its size rightly.
    pub log_all-IsWithin :
        (rs : List (Record × ℕ)) (l : Logger) (s : F.State)
        → IsWithin bound session l s
        → All (λ (r, now). FitsLine bound (line_of X session now r)) rs
        → IsWithin bound session (log_all X F rs l s).1 (log_all X F rs l s).0
    unfolding log_all
    log_all-IsWithin [] l s w fits = w
    log_all-IsWithin ((r, now) ∷ rs) l s w fits =
        log_all-IsWithin rs (log X F r now l s).1 (log X F r now l s).0
          (log-IsWithin r now l s w fits.0) fits.1
