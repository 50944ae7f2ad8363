-- ===== src/Syncfs/Session/Scanning.antt =====
-- internal/syncfs/reconcile.go: what ScanManifest lists.
use mathlib.Core.Option.{some-injective}
use jsync.Base.{
  ◌≡◌, refl, sym, ◌∙◌, ap, subst, ◌⊎◌, inl, inr, Bool, false, Option, none, some, [], Bytes,
  bytes_eq, ◌==◌, arith, Bool-cases, Option-cases, length, if◌then◌else◌,
}
use jsync.Base.Dict
use jsync.FilePath.{rel}
use jsync.Syncfs.Event.{ManifestEntry, Manifest}
use jsync.Syncfs.Session.{
  Scanned, broken, entry, folder, ScannedList, nil, cons, scan_file, scan_tree, scan_list,
  scan_manifest,
}

module _ (content_hash_of : Bytes → Bytes) (excludes : Bytes → Bool) (root : Bytes) where
  -- An entry of the walk that is a file with this relative path and content, and is not excluded.
  pub record IsFileOf (r : Bytes) (listed : ManifestEntry) (path : Bytes) (content : Option Bytes)
      : Type 0 where
    pub text : Bytes
    pub readable : content ≡ some text
    pub relative : rel root path ≡ some r
    pub included : excludes r ≡ false
    pub described : listed ≡ record { hash = content_hash_of text; size = length text }

  -- The walk enters a directory unless its relative path is excluded.
  abbrev pub IsEntered : Bytes → Type 0
  IsEntered path = (r : Bytes) → rel root path ≡ some r → excludes r ≡ false

  -- Such a file is in the tree, below entered directories only.
  unfoldable mutual
    pub Holds : Bytes → ManifestEntry → Scanned → Type 0
    Holds r listed broken = ⊥
    Holds r listed (entry path content) = IsFileOf r listed path content
    Holds r listed (folder path entries) = IsEntered path × HoldsIn r listed entries

    pub HoldsIn : Bytes → ManifestEntry → ScannedList → Type 0
    HoldsIn r listed nil = ⊥
    HoldsIn r listed (cons t ts) = Holds r listed t ⊎ HoldsIn r listed ts

  scan_file_included :
      (q path : Bytes) (content : Option Bytes) (text : Bytes) (m : Manifest)
      → rel root path ≡ some q
      → excludes q ≡ false
      → content ≡ some text
      → scan_file content_hash_of excludes root path content m
        ≡ Dict.insert q (record { hash = content_hash_of text; size = length text }) m
  unfolding scan_file
  scan_file_included q path content text m e x c = ground arith

  scan_file-lookup :
      (r : Bytes) (listed : ManifestEntry) (path : Bytes) (content : Option Bytes) (m : Manifest)
      → Dict.lookup r (scan_file content_hash_of excludes root path content m) ≡ some listed
      → (Dict.lookup r m ≡ some listed) ⊎ IsFileOf r listed path content
  unfolding scan_file
  scan_file-lookup r listed path content m h = elim (Option-cases (rel root path)) [
    | inl e ↦ inl (ground arith)
    | inr (q, e) ↦ elim (Bool-cases (excludes q)) [
      | inl x ↦ inl (ground arith)
      | inr x ↦ elim (Option-cases content) [
        | inl c ↦ inl (ground arith)
        | inr (text, c) ↦
            let found : ManifestEntry = record {
              hash = content_hash_of text;
              size = length text;
            } in
            let inserted = scan_file_included q path content text m e x c in
            let now_listed : (if q == r then some found else Dict.lookup r m) ≡ some listed =
              sym (Dict.lookup-insert q r found m) ∙ ap (Dict.lookup r) (sym inserted) ∙ h in
            elim (Bool-cases (q == r)) [
              | inl same ↦ inr (record {
                text = text;
                readable = c;
                relative = e ∙ ap some ((bytes_eq.beq_iff q r).0 same);
                included = subst (λ p. excludes p ≡ false) ((bytes_eq.beq_iff q r).0 same) x;
                described = sym (some-injective found listed (rw same at now_listed));
              })
              | inr other ↦ inl (rw other at now_listed)
            ]
      ]
    ]
  ]

  mutual
    unfolding scan_tree scan_list Holds HoldsIn

    scan_tree-lookup :
        (r : Bytes) (listed : ManifestEntry) (t : Scanned) (m m' : Manifest)
        → scan_tree content_hash_of excludes root t m ≡ some m'
        → Dict.lookup r m' ≡ some listed
        → (Dict.lookup r m ≡ some listed) ⊎ Holds r listed t
    scan_tree-lookup r listed broken m m' h l = absurd (cc)
    scan_tree-lookup r listed (entry path content) m m' h l =
        scan_file-lookup r listed path content m (ground arith)
    scan_tree-lookup r listed (folder path entries) m m' h l = elim (Option-cases (rel root path)) [
      | inl e ↦ elim (scan_list-lookup r listed entries m m' (ground arith) l) [
        | inl before ↦ inl before
        | inr inside ↦ inr ((λ q f. absurd (ground arith)), inside)
      ]
      | inr (q, e) ↦ elim (Bool-cases (excludes q)) [
        | inl x ↦ inl (ground arith)
        | inr x ↦ elim (scan_list-lookup r listed entries m m' (ground arith) l) [
          | inl before ↦ inl before
          | inr inside ↦ inr ((λ p f. ground arith), inside)
        ]
      ]
    ]

    scan_list-lookup :
        (r : Bytes) (listed : ManifestEntry) (ts : ScannedList) (m m' : Manifest)
        → scan_list content_hash_of excludes root ts m ≡ some m'
        → Dict.lookup r m' ≡ some listed
        → (Dict.lookup r m ≡ some listed) ⊎ HoldsIn r listed ts
    scan_list-lookup r listed nil m m' h l = inl (ground arith)
    scan_list-lookup r listed (cons t ts) m m' h l =
        elim (Option-cases (scan_tree content_hash_of excludes root t m)) [
          | inl e ↦ absurd (ground arith)
          | inr (n, e) ↦ elim (scan_list-lookup r listed ts n m' (ground arith) l) [
            | inr later ↦ inr (inr later)
            | inl before ↦ elim (scan_tree-lookup r listed t m n e before) [
              | inl kept ↦ inl kept
              | inr here ↦ inr (inl here)
            ]
          ]
        ]

  abbrev pub IsListed : Bytes → Manifest → Type 0
  IsListed r m = (listed : ManifestEntry) × (Dict.lookup r m ≡ some listed)

  insert-IsListed :
      (r q : Bytes) (found : ManifestEntry) (m : Manifest)
      → IsListed r m ⊎ (q ≡ r)
      → IsListed r (Dict.insert q found m)
  insert-IsListed r q found m h = elim (Bool-cases (q == r)) [
    | inl same ↦ (found, Dict.lookup-insert q r found m ∙ (rw same refl))
    | inr other ↦ elim h [
      | inl (e, l) ↦ (e, Dict.lookup-insert q r found m ∙ (rw other l))
      | inr same ↦ absurd (ground (arith, bytes_eq.beq_iff q r))
    ]
  ]

  scan_file-keeps :
      (r path : Bytes) (content : Option Bytes) (m : Manifest)
      → IsListed r m
      → IsListed r (scan_file content_hash_of excludes root path content m)
  unfolding scan_file
  scan_file-keeps r path content m (was, l) = elim (Option-cases (rel root path)) [
    | inl e ↦ (was, ground arith)
    | inr (q, e) ↦ elim (Bool-cases (excludes q)) [
      | inl x ↦ (was, ground arith)
      | inr x ↦ elim (Option-cases content) [
        | inl c ↦ (was, ground arith)
        | inr (text, c) ↦
            subst (IsListed r) (sym (scan_file_included q path content text m e x c))
              (insert-IsListed r q _ m (inl (was, l)))
      ]
    ]
  ]

  scan_file-lists :
      (r : Bytes) (listed : ManifestEntry) (path : Bytes) (content : Option Bytes) (m : Manifest)
      → IsFileOf r listed path content
      → IsListed r (scan_file content_hash_of excludes root path content m)
  scan_file-lists r listed path content m f =
      subst (IsListed r)
        (sym (scan_file_included r path content f.text m f.relative f.included f.readable))
        (insert-IsListed r r _ m (inr refl))

  below :
      (r path : Bytes) (listed : ManifestEntry) (m : Manifest) (entries : ScannedList)
      → IsListed r m ⊎ Holds r listed (folder path entries)
      → IsListed r m ⊎ HoldsIn r listed entries
  unfolding Holds
  below r path listed m entries (inl before) = inl before
  below r path listed m entries (inr (_, inside)) = inr inside

  mutual
    unfolding scan_tree scan_list Holds HoldsIn

    scan_tree-IsListed :
        (r : Bytes) (listed : ManifestEntry) (t : Scanned) (m m' : Manifest)
        → scan_tree content_hash_of excludes root t m ≡ some m'
        → IsListed r m ⊎ Holds r listed t
        → IsListed r m'
    scan_tree-IsListed r listed broken m m' h was = absurd (cc)
    scan_tree-IsListed r listed (entry path content) m m' h was =
        subst (IsListed r) (some-injective _ _ h) (elim was [
          | inl before ↦ scan_file-keeps r path content m before
          | inr here ↦ scan_file-lists r listed path content m here
        ])
    scan_tree-IsListed r listed (folder path entries) m m' h was =
        elim (Option-cases (rel root path)) [
          | inl e ↦
              scan_list-IsListed r listed entries m m' (ground arith)
                (below r path listed m entries was)
          | inr (q, e) ↦ elim (Bool-cases (excludes q)) [
            | inl x ↦ elim was [
              | inl before ↦ subst (IsListed r) (some-injective m m' (ground arith)) before
              | inr (entered, _) ↦ (let y = entered q e in absurd (ground arith))
            ]
            | inr x ↦
                scan_list-IsListed r listed entries m m' (ground arith)
                  (below r path listed m entries was)
          ]
        ]

    scan_list-IsListed :
        (r : Bytes) (listed : ManifestEntry) (ts : ScannedList) (m m' : Manifest)
        → scan_list content_hash_of excludes root ts m ≡ some m'
        → IsListed r m ⊎ HoldsIn r listed ts
        → IsListed r m'
    scan_list-IsListed r listed nil m m' h was =
        subst (IsListed r) (some-injective m m' h)
          (elim was [ inl before ↦ before | inr none_left ↦ absurd none_left ])
    scan_list-IsListed r listed (cons t ts) m m' h was =
        elim (Option-cases (scan_tree content_hash_of excludes root t m)) [
          | inl e ↦ absurd (ground arith)
          | inr (n, e) ↦ scan_list-IsListed r listed ts n m' (ground arith) (elim was [
            | inl before ↦ inl (scan_tree-IsListed r listed t m n e (inl before))
            | inr (inl here) ↦ inl (scan_tree-IsListed r listed t m n e (inr here))
            | inr (inr later) ↦ inr later
          ])
        ]

  -- After a scan without an error, a relative path is in the inventory, with the hash and the size of
  -- a file that the walk sees there, or no file of the walk has it: the walk sees the readable files
  -- that are neither excluded nor in an excluded directory.
  pub scan_manifest-HoldsIn :
      (entries : ScannedList) (m : Manifest) (r : Bytes)
      → scan_manifest content_hash_of excludes root entries ≡ some m
      → ((listed : ManifestEntry) × (Dict.lookup r m ≡ some listed) × HoldsIn r listed entries)
        ⊎ ((Dict.lookup r m ≡ none) × ((listed : ManifestEntry) → ¬ HoldsIn r listed entries))
  unfolding scan_manifest
  scan_manifest-HoldsIn entries m r h = elim (Option-cases (Dict.lookup r m)) [
    | inl e ↦ inr (
      e,
      λ listed inside.
          (let (found, l) = scan_list-IsListed r listed entries [] m h (inr inside) in
            absurd (ground arith)),
    )
    | inr (listed, e) ↦ inl (
      listed,
      e,
      elim (scan_list-lookup r listed entries [] m h e) [
        | inl before ↦ absurd (ground (arith, Dict.lookup-nil {V = ManifestEntry} r))
        | inr inside ↦ inside
      ],
    )
  ]
