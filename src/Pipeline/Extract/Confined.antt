-- ===== src/Pipeline/Extract/Confined.antt =====
-- internal/pipeline/extract.go: the calls that an extraction makes.
use jsync.Base.{
  ℕ, ◌≡◌, inl, inr, false, Option, none, some, Bytes, arith, nat_eq, ◌==◌, if◌then◌else◌,
  Bool-cases, Option-cases,
}
use jsync.FilePath.{parse, dir, join, confined}
use jsync.FilePath.Inside.{Inside, confined_iff}
use jsync.Pipeline.Extract.{
  safe_join, TypeFlag, type_dir, type_reg, type_symlink, type_other, TarHeader, Body, whole, cut,
  TarStream, eof, broken, entry, looks_absolute, safe_symlink_target, Reports, write_regular_file,
  make_link, write_symlink, extract_dir, extract_reg, extract_symlink, extract_at, extract_entry,
  extract_entries, extract_archive, is_symlink_unsupported,
}
use jsync.Pipeline.Extract.Storage.{Volume, not_exist, not_permitted, not_supported, failure}
use jsync.Syncfs.Event.Confined.{Inside-refl}

-- A link at a place inside the sandbox, to a relative target that lies inside the sandbox, seen from
-- the directory of the link.
pub record IsSafeLink (sandbox place linkname : Bytes) : Type 0 where
  pub placed : Inside (parse sandbox) (parse place)
  pub relative : looks_absolute linkname ≡ false
  pub pointed : Inside (parse sandbox) (parse (join (dir place) linkname))

module _ (V : Volume) (sandbox : Bytes) where
  abbrev Within : Bytes → Type 0
  Within p = Inside (parse sandbox) (parse p)

  -- What a sequence of calls inside the sandbox makes of a state. Directories are made at a place
  -- inside or above one.
  pub data Touched (s : V.State) : V.State → Type 0 where
    start : Touched s s
    mkdir : {t : V.State} (p : Bytes) → Within p → Touched s t → Touched s (V.mkdir_all p t).0
    mkdir_above :
        {t : V.State} (p : Bytes) → Within p → Touched s t → Touched s (V.mkdir_all (dir p) t).0
    create :
        {t : V.State} (p : Bytes) (mode : ℕ)
        → Within p
        → Touched s t
        → Touched s (V.create p mode t).0
    append :
        {t : V.State} (p text : Bytes) → Within p → Touched s t → Touched s (V.append p text t).0
    remove : {t : V.State} (p : Bytes) → Within p → Touched s t → Touched s (V.remove p t).0
    symlink :
        {t : V.State} (p linkname : Bytes)
        → IsSafeLink sandbox p linkname
        → Touched s t
        → Touched s (V.symlink linkname p t).0

  safe_join-Within :
      (name : Bytes) {target : Bytes} → safe_join sandbox name ≡ some target → Within target
  unfolding safe_join
  safe_join-Within name {target} h = elim (Bool-cases (confined sandbox (join sandbox name))) [
    | inl e ↦
        let same : join sandbox name ≡ target = ground arith in
        rw same at ((confined_iff sandbox (join sandbox name)).0 e)
    | inr e ↦ absurd (ground arith)
  ]

  safe_symlink_target-IsSafeLink :
      (target linkname : Bytes)
      → Within target
      → safe_symlink_target sandbox target linkname ≡ none
      → IsSafeLink sandbox target linkname
  unfolding safe_symlink_target
  safe_symlink_target-IsSafeLink target linkname w h = record {
    placed = w;
    relative = ground arith;
    pointed = (confined_iff sandbox (join (dir target) linkname)).0 (ground arith);
  }

  module _ (sha256 : Bytes → Bytes) {s : V.State} where
    write_regular_file-Touched :
        (target : Bytes) (body : Body) (mode : ℕ) {t : V.State}
        → Within target
        → Touched s t
        → Touched s (write_regular_file V sha256 target body mode t).0
    unfolding write_regular_file
    write_regular_file-Touched target (cut text) mode {t} w h =
        let m = if mode == 0 then 0o600 else mode in
        let opened = create target m w h in
        elim (Option-cases (V.create target m t).1) [
          | inl e ↦ rw (e, write_regular_file) (append target text w opened)
          | inr (cause, e) ↦ rw (e, write_regular_file) opened
        ]
    write_regular_file-Touched target (whole text) mode {t} w h =
        let m = if mode == 0 then 0o600 else mode in
        let opened = create target m w h in
        let written = append target text w opened in
        elim (Option-cases (V.create target m t).1) [
          | inl e ↦ elim (Option-cases (V.append target text (V.create target m t).0).1) [
            | inl f ↦ rw (e, f, write_regular_file) written
            | inr (cause, f) ↦ rw (e, f, write_regular_file) written
          ]
          | inr (cause, e) ↦ rw (e, write_regular_file) opened
        ]

    make_link-Touched :
        (target linkname : Bytes) {t : V.State}
        → IsSafeLink sandbox target linkname
        → Touched s t
        → Touched s (make_link V sha256 target linkname t).0
    unfolding make_link
    make_link-Touched target linkname {t} l h =
        elim (Option-cases (V.symlink linkname target t).1) [
          | inl e ↦ rw (e, make_link) (symlink target linkname l h)
          | inr (cause, e) ↦ rw (e, make_link) (symlink target linkname l h)
        ]

    write_symlink-Touched :
        (target linkname : Bytes) {t : V.State}
        → IsSafeLink sandbox target linkname
        → Touched s t
        → Touched s (write_symlink V sha256 target linkname t).0
    unfolding write_symlink
    write_symlink-Touched target linkname {t} l h =
        let cleared = remove target l.placed h in
        elim (Option-cases (V.remove target t).1) [
          | inl e ↦ rw (e, write_symlink) (make_link-Touched target linkname l cleared)
          | inr (not_exist, e) ↦ rw (e, write_symlink) (make_link-Touched target linkname l cleared)
          | inr (not_permitted, e) ↦ rw (e, write_symlink) cleared
          | inr (not_supported, e) ↦ rw (e, write_symlink) cleared
          | inr (failure, e) ↦ rw (e, write_symlink) cleared
        ]

    extract_dir-Touched :
        (target : Bytes) {t : V.State}
        → Within target
        → Touched s t
        → Touched s (extract_dir V sha256 target t).0
    unfolding extract_dir
    extract_dir-Touched target {t} w h = elim (Option-cases (V.mkdir_all target t).1) [
      | inl e ↦ rw (e, extract_dir) (mkdir target w h)
      | inr (cause, e) ↦ rw (e, extract_dir) (mkdir target w h)
    ]

    extract_reg-Touched :
        (hdr : TarHeader) (body : Body) (target : Bytes) {t : V.State} (log : Reports)
        → Within target
        → Touched s t
        → Touched s (extract_reg V sha256 hdr body target t log).0
    unfolding extract_reg
    extract_reg-Touched hdr body target {t} log w h =
        let made = mkdir_above target w h in
        let t' = (V.mkdir_all (dir target) t).0 in
        let written = write_regular_file-Touched target body hdr.mode w made in
        elim (Option-cases (V.mkdir_all (dir target) t).1) [
          | inr (cause, e) ↦ rw (e, extract_reg) made
          | inl e ↦ elim (Option-cases (write_regular_file V sha256 target body hdr.mode t').1) [
            | inl f ↦ rw (e, f, extract_reg) written
            | inr (error, f) ↦ rw (e, f, extract_reg) written
          ]
        ]

    extract_symlink-Touched :
        (hdr : TarHeader) (target : Bytes) {t : V.State} (log : Reports)
        → Within target
        → Touched s t
        → Touched s (extract_symlink V sha256 sandbox hdr target t log).0
    unfolding extract_symlink
    extract_symlink-Touched hdr target {t} log w h =
        elim (Option-cases (safe_symlink_target sandbox target hdr.linkname)) [
          | inr (error, e) ↦ rw (e, extract_symlink) h
          | inl e ↦
              let l = safe_symlink_target-IsSafeLink target hdr.linkname w e in
              let made = mkdir_above target w h in
              let t' = (V.mkdir_all (dir target) t).0 in
              let linked = write_symlink-Touched target hdr.linkname l made in
              elim (Option-cases (V.mkdir_all (dir target) t).1) [
                | inr (cause, f) ↦ rw (e, f, extract_symlink) made
                | inl f ↦ elim (Option-cases (write_symlink V sha256 target hdr.linkname t').1) [
                  | inl g ↦ rw (e, f, g, extract_symlink) linked
                  | inr (error, g) ↦ elim (Bool-cases (is_symlink_unsupported error)) [
                    | inl k ↦ rw (e, f, g, k, extract_symlink) linked
                    | inr k ↦ rw (e, f, g, k, extract_symlink) linked
                  ]
                ]
              ]
        ]

    extract_at-Touched :
        (flag : TypeFlag) (hdr : TarHeader) (body : Body) (target : Bytes) {t : V.State}
        → (log : Reports) → Within target
        → Touched s t
        → Touched s (extract_at V sha256 flag sandbox hdr body target t log).0
    unfolding extract_at
    extract_at-Touched type_dir hdr body target log w h = extract_dir-Touched target w h
    extract_at-Touched type_reg hdr body target log w h =
        extract_reg-Touched hdr body target log w h
    extract_at-Touched type_symlink hdr body target log w h =
        extract_symlink-Touched hdr target log w h
    extract_at-Touched type_other hdr body target log w h = h

    extract_entry-Touched :
        (hdr : TarHeader) (body : Body) {t : V.State} (log : Reports)
        → Touched s t
        → Touched s (extract_entry V sha256 sandbox hdr body t log).0
    unfolding extract_entry
    extract_entry-Touched hdr body {t} log h = elim (Option-cases (safe_join sandbox hdr.name)) [
      | inl e ↦ rw (e, extract_entry) h
      | inr (target, e) ↦
          rw (e, extract_entry)
            (extract_at-Touched hdr.typeflag hdr body target log (safe_join-Within hdr.name e) h)
    ]

    extract_entries-Touched :
        (entries : TarStream) {t : V.State} (log : Reports)
        → Touched s t
        → Touched s (extract_entries V sha256 sandbox entries t log).0
    unfolding extract_entries
    extract_entries-Touched eof log h = h
    extract_entries-Touched broken log h = h
    extract_entries-Touched (entry hdr body rest) {t} log h =
        let reached = extract_entry-Touched hdr body log h in
        elim (Option-cases (extract_entry V sha256 sandbox hdr body t log).2) [
          | inr (error, e) ↦ rw (e, extract_entries) reached
          | inl e ↦
              rw (e, extract_entries)
                (extract_entries-Touched rest (extract_entry V sha256 sandbox hdr body t log).1
                  reached)
        ]

  -- Whatever the archive holds and wherever it fails, extracting it is a sequence of calls that name
  -- places inside the sandbox alone, except that directories are also made above such a place; each
  -- link that it makes has a relative target that lies inside the sandbox, seen from the link.
  pub extract_archive-Touched :
      (sha256 : Bytes → Bytes) (stream : Option TarStream) (s : V.State)
      → Touched s (extract_archive V sha256 sandbox stream s).0
  unfolding extract_archive
  extract_archive-Touched sha256 stream s =
      let made : Touched s (V.mkdir_all sandbox s).0 =
        mkdir sandbox (Inside-refl (parse sandbox)) start in
      elim (Option-cases (V.mkdir_all sandbox s).1) [
        | inr (cause, e) ↦ rw (e, extract_archive) made
        | inl e ↦ elim (Option-cases stream) [
          | inl f ↦ rw (e, f, extract_archive) made
          | inr (entries, f) ↦
              rw (e, f, extract_archive) (extract_entries-Touched sha256 entries _ made)
        ]
      ]
