-- ===== src/Daemon/Resume/Claims.antt =====
-- internal/daemon/resume.go: what a peer finds in the registry over a run of calls.
use mathlib.Core.List.{Memᴰ}
use mathlib.Core.List.Memᴰ
use jsync.Base.{
  ℕ, ◌+◌, ◌≡◌, refl, sym, ap, subst, ◌∙◌, ◌≤◌, ◌<◌, ◌↔◌, true, inl, inr, Option, none, some, [],
  ◌∷◌, Bytes, ◌==◌, ltb, arith, Bool-cases, Option-cases, if◌then◌else◌,
}
use jsync.Base.Dict
use jsync.Base.Dict.{Dict}
use jsync.Daemon.Resume.{
  ResumeKey, ResumeEntry, ResumeRegistry, key_eq, new_resume_key, park, claim, resumed_files, peek,
  sweep_entries, sweep,
}

-- What an entry is worth at a time.
pub offer : Option ResumeEntry → ℕ → Option (Bytes × Dict Bytes Bytes)
offer none now = none
offer (some entry) now =
    if ltb entry.expires_at now then none else some (entry.sandbox_dir, entry.completed)

claim-offer :
    (r : ResumeRegistry) (peer dest : Bytes) (now : ℕ)
    → (claim r peer dest now).1 ≡ offer (Dict.lookup (new_resume_key peer dest) r.entries) now
unfolding claim offer
claim-offer r peer dest now =
    elim (Option-cases (Dict.lookup (new_resume_key peer dest) r.entries)) [
      | inl e ↦ rw (e, claim) refl
      | inr (entry, e) ↦ rw (e, claim) (ground arith)
    ]

lookup-claim :
    (r : ResumeRegistry) (peer dest : Bytes) (now : ℕ) (k : ResumeKey)
    → Dict.lookup k (claim r peer dest now).0.entries
      ≡ (if new_resume_key peer dest == k then none else Dict.lookup k r.entries)
unfolding claim
lookup-claim r peer dest now k =
    let key = new_resume_key peer dest in
    elim (Option-cases (Dict.lookup key r.entries)) [
      | inl e ↦ rw (e, claim) (ground (arith, key_eq.beq_iff key k))
      | inr (entry, e) ↦ rw (e, claim) (ground (arith, Dict.lookup-delete key k r.entries))
    ]

pub claim-park :
    (r : ResumeRegistry) (peer dest sandbox : Bytes) (completed : Dict Bytes Bytes)
    → (grace now : ℕ) (peer' dest' : Bytes) (later : ℕ)
    → (claim (park r peer dest sandbox completed grace now) peer' dest' later).1 ≡ (
        if new_resume_key peer dest == new_resume_key peer' dest'
        then (if ltb (now + grace) later then none else some (sandbox, completed))
        else (claim r peer' dest' later).1)
unfolding park offer
claim-park r peer dest sandbox completed grace now peer' dest' later =
    let mine = new_resume_key peer dest in
    let theirs = new_resume_key peer' dest' in
    let after = claim-offer (park r peer dest sandbox completed grace now) peer' dest' later in
    let before = claim-offer r peer' dest' later in
    elim (Bool-cases (mine == theirs)) [
      | inl e ↦ rw e (after ∙ rw (Dict.lookup-insert, e) refl)
      | inr e ↦ rw e (after ∙ rw (Dict.lookup-insert, e) (sym before))
    ]

-- A parked sandbox is handed out once: after a claim the same peer and destination find nothing at
-- any time, and every other peer or destination finds what it found before.
pub claim-claim :
    (r : ResumeRegistry) (peer dest : Bytes) (now : ℕ) (peer' dest' : Bytes) (later : ℕ)
    → (claim (claim r peer dest now).0 peer' dest' later).1 ≡ (
        if new_resume_key peer dest == new_resume_key peer' dest'
        then none
        else (claim r peer' dest' later).1)
unfolding offer
claim-claim r peer dest now peer' dest' later =
    let after = claim-offer (claim r peer dest now).0 peer' dest' later in
    let before = claim-offer r peer' dest' later in
    let found = lookup-claim r peer dest now (new_resume_key peer' dest') in
    elim (Bool-cases (new_resume_key peer dest == new_resume_key peer' dest')) [
      | inl e ↦ rw e (after ∙ rw (found, e) refl)
      | inr e ↦ rw e (after ∙ rw (found, e) (sym before))
    ]

-- What the requester is told it can skip is what a claim at the same time would hand over, and
-- looking changes nothing.
pub peek-claim :
    (r : ResumeRegistry) (peer dest : Bytes) (now : ℕ)
    → peek r peer dest now ≡ elim ((claim r peer dest now).1) [
      | none ↦ []
      | some (sandbox, completed) ↦ resumed_files completed
    ]
unfolding peek claim
peek-claim r peer dest now =
    elim (Option-cases (Dict.lookup (new_resume_key peer dest) r.entries)) [
      | inl e ↦ rw (e, peek, claim) refl
      | inr (entry, e) ↦ rw (e, peek, claim) (ground arith)
    ]

lookup-sweep_entries :
    (entries : Dict ResumeKey ResumeEntry) (now later : ℕ) (k : ResumeKey)
    → Dict.NodupKeys entries
    → now ≤ later
    → offer (Dict.lookup k (sweep_entries entries now).0) later
      ≡ offer (Dict.lookup k entries) later
unfolding sweep_entries Dict.lookup offer
lookup-sweep_entries [] now later k h le = refl
lookup-sweep_entries ((j, entry) ∷ entries) now later k h le =
    ground (arith, key_eq.beq_iff j k, lookup-sweep_entries entries now later k h.1 le)

-- What a sweep keeps under a key.
abbrev pub unexpired : ℕ → Option ResumeEntry → Option ResumeEntry
unexpired now none = none
unexpired now (some entry) = if ltb entry.expires_at now then none else some entry

lookup-sweep_entries_kept :
    (entries : Dict ResumeKey ResumeEntry) (now : ℕ) (k : ResumeKey)
    → Dict.NodupKeys entries
    → Dict.lookup k (sweep_entries entries now).0 ≡ unexpired now (Dict.lookup k entries)
unfolding sweep_entries Dict.lookup
lookup-sweep_entries_kept [] now k h = refl
lookup-sweep_entries_kept ((j, entry) ∷ entries) now k h =
    ground (arith, key_eq.beq_iff j k, lookup-sweep_entries_kept entries now k h.1)

-- An entry of the registry with this sandbox that has expired.
pub record HasExpired (entries : Dict ResumeKey ResumeEntry) (now : ℕ) (dir : Bytes) : Type 0 where
  pub key : ResumeKey
  pub entry : ResumeEntry
  pub listed : Memᴰ (key, entry) entries
  pub expired : entry.expires_at < now
  pub sandbox : entry.sandbox_dir ≡ dir

HasExpired-cons :
    (e : ResumeKey × ResumeEntry) (entries : Dict ResumeKey ResumeEntry) (now : ℕ) (dir : Bytes)
    → HasExpired entries now dir
    → HasExpired (e ∷ entries) now dir
HasExpired-cons e entries now dir h = record {
  key = h.key;
  entry = h.entry;
  listed = Memᴰ.tail h.listed;
  expired = h.expired;
  sandbox = h.sandbox;
}

sweep_entries-HasExpired :
    (entries : Dict ResumeKey ResumeEntry) (now : ℕ) (dir : Bytes)
    → Memᴰ dir (sweep_entries entries now).1
    → HasExpired entries now dir
unfolding sweep_entries
sweep_entries-HasExpired [] now dir h = absurd (Memᴰ.not-nil h)
sweep_entries-HasExpired ((j, entry) ∷ entries) now dir h =
    elim (Bool-cases (ltb entry.expires_at now)) [
      | inl old ↦ elim (Memᴰ.cases_cons (rw old at h)) [
        | inl same ↦ record {
          key = j;
          entry = entry;
          listed = Memᴰ.head refl;
          expired = ground arith;
          sandbox = sym same;
        }
        | inr later ↦
            HasExpired-cons (j, entry) entries now dir
              (sweep_entries-HasExpired entries now dir later)
      ]
      | inr young ↦
          HasExpired-cons (j, entry) entries now dir
            (sweep_entries-HasExpired entries now dir (rw young at h))
    ]

Memᴰ-sweep_entries :
    (entries : Dict ResumeKey ResumeEntry) (now : ℕ) (key : ResumeKey) (entry : ResumeEntry)
    → Memᴰ (key, entry) entries
    → entry.expires_at < now
    → Memᴰ entry.sandbox_dir (sweep_entries entries now).1
unfolding sweep_entries
Memᴰ-sweep_entries [] now key entry h old = absurd (Memᴰ.not-nil h)
Memᴰ-sweep_entries ((j, e) ∷ entries) now key entry h old = elim (Memᴰ.cases_cons h) [
  | inl same ↦
      let is_old : ltb e.expires_at now ≡ true =
        subst (λ p. ltb p.1.expires_at now ≡ true) same (ground arith) in
      rw is_old (Memᴰ.head (ap (λ p. p.1.sandbox_dir) same))
  | inr later ↦
      let found = Memᴰ-sweep_entries entries now key entry later old in
      elim (Bool-cases (ltb e.expires_at now)) [
        | inl o ↦ rw o (Memᴰ.tail found)
        | inr y ↦ rw y found
      ]
]

-- In a registry with one entry for each key, a sweep keeps exactly the entries that have not expired,
-- and hands over exactly the sandboxes of those that have; it takes nothing away that could be
-- claimed then or later.
pub claim-sweep :
    (r : ResumeRegistry) (now : ℕ) (peer dest : Bytes) (later : ℕ) (key : ResumeKey) (dir : Bytes)
    → Dict.NodupKeys r.entries
    → now ≤ later
    → ((claim (sweep r now).0 peer dest later).1 ≡ (claim r peer dest later).1)
      × (Dict.lookup key (sweep r now).0.entries ≡ unexpired now (Dict.lookup key r.entries))
      × (Memᴰ dir (sweep r now).1 ↔ HasExpired r.entries now dir)
unfolding sweep
claim-sweep r now peer dest later key dir h le =
    let mine = new_resume_key peer dest in
    let swept = lookup-sweep_entries r.entries now later mine h le in
    let after = claim-offer (sweep r now).0 peer dest later in
    let before = claim-offer r peer dest later in
    (
      after ∙ (swept ∙ sym before),
      lookup-sweep_entries_kept r.entries now key h,
      (
        sweep_entries-HasExpired r.entries now dir,
        λ e.
            subst (λ d. Memᴰ d (sweep_entries r.entries now).1) e.sandbox
              (Memᴰ-sweep_entries r.entries now e.key e.entry e.listed e.expired),
      ),
    )
