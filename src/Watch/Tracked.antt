-- ===== src/Watch/Tracked.antt =====
-- internal/watch/watcher.go: the two maps of the index agree.
use jsync.Base.{
  ℕ, ◌≡◌, refl, sym, ◌∙◌, ap, inl, inr, Bool, true, false, Option, none, some, List, [], ◌∷◌, Bytes,
  bytes_eq, ◌==◌, ==-refl, arith, Bool-cases, Option-cases, if◌then◌else◌, ◌&&◌, not,
}
use jsync.Base.Dict
use jsync.Base.Dict.{Dict}
use jsync.FilePath.{dir, join, rel}
use jsync.Watch.{
  ChangeKind, modified, removed, renamed, rescan, PendingEvent, RawEvent, create, modify, remove,
  rename, buffer_overflow, other, FsWatcher, excluded, list_file, unlist_file, add_file, Tree,
  unreadable, file, folder, Trees, nil, cons, register_file, register_tree, register_trees,
  Snapshot, path_key, schedule, listed_name, new_file_watcher,
}
use jsync.Watch.Handlers.{
  forget, move_entry, pending_of, handle_write, keys, handle_create, drop_files, schedule_removals,
  handle_remove, schedule_rename, handle_rename, handle_event, settle_kind, fire, Input, raw, fired,
  failed, loop_round, loop, watch,
}
use jsync.Watch.Index.{listed, listed-list_file, listed-unlist_file, listed-delete, listed_in}

abbrev pub Covered : Dict Bytes (Dict Bytes Bool) → Bytes → Option Bytes → Type 0
Covered dir_files r none = Unit
Covered dir_files r (some d) = listed dir_files d r ≡ some true

-- Every file that has a directory is listed under that directory.
pub record IsTracked (w : FsWatcher) : Type 0 where
  pub covered : (r : Bytes) → Covered w.dir_files r (Dict.lookup r w.file_dir)

-- The state is tracked when it has the same index as one that is.
IsTracked-same :
    {w w' : FsWatcher}
    → w'.dir_files ≡ w.dir_files
    → w'.file_dir ≡ w.file_dir
    → IsTracked w
    → IsTracked w'
IsTracked-same {w} {w'} e f t = record { covered = λ r. rw (e, f) (t.covered r) }

Covered-list_file :
    (dir_files : Dict Bytes (Dict Bytes Bool)) (d r r' : Bytes) (o : Option Bytes)
    → Covered dir_files r' o
    → Covered (list_file dir_files d r) r' (if r == r' then some d else o)
Covered-list_file dir_files d r r' none h = elim (Bool-cases (r == r')) [
  | inl e ↦ rw e (listed-list_file dir_files d r d r' ∙ ground (arith, ==-refl d))
  | inr e ↦ rw e tt
]
Covered-list_file dir_files d r r' (some d') h = elim (Bool-cases (r == r')) [
  | inl e ↦ rw e (listed-list_file dir_files d r d r' ∙ ground (arith, ==-refl d))
  | inr e ↦ rw e (listed-list_file dir_files d r d' r' ∙ ground arith)
]

Covered-unlist_file :
    (dir_files : Dict Bytes (Dict Bytes Bool)) (d r r' : Bytes) (o : Option Bytes)
    → Covered dir_files r' o
    → Covered (unlist_file dir_files d r) r' (if r == r' then none else o)
Covered-unlist_file dir_files d r r' none h = elim (Bool-cases (r == r')) [
  | inl e ↦ rw e tt
  | inr e ↦ rw e tt
]
Covered-unlist_file dir_files d r r' (some d') h = elim (Bool-cases (r == r')) [
  | inl e ↦ rw e tt
  | inr e ↦ rw e (listed-unlist_file dir_files d r d' r' ∙ ground arith)
]

add_file-IsTracked :
    (w : FsWatcher) (r parent : Bytes) → IsTracked w → IsTracked (add_file w r parent)
unfolding add_file
add_file-IsTracked w r parent t = record {
  covered = λ r'.
      rw (Dict.lookup-insert r r' parent w.file_dir)
        (Covered-list_file w.dir_files parent r r' (Dict.lookup r' w.file_dir) (t.covered r'));
}

forget-IsTracked : (w : FsWatcher) (r : Bytes) → IsTracked w → IsTracked (forget w r)
unfolding forget
forget-IsTracked w r t = elim (Option-cases (Dict.lookup r w.file_dir)) [
  | inl e ↦ rw (e, forget) t
  | inr (d, e) ↦
      rw (e, forget)
        (record {
          covered = λ r'.
              rw (Dict.lookup-delete r r' w.file_dir)
                (Covered-unlist_file w.dir_files d r r' (Dict.lookup r' w.file_dir) (t.covered r'));
        })
]

move_entry-IsTracked :
    (w : FsWatcher) (old_rel new_rel : Bytes)
    → IsTracked w
    → IsTracked (move_entry w old_rel new_rel)
unfolding move_entry
move_entry-IsTracked w old_rel new_rel t = elim (Option-cases (Dict.lookup old_rel w.file_dir)) [
  | inl e ↦ rw (e, move_entry) t
  | inr (d, e) ↦
      let new_dir = dir (join w.root new_rel) in
      let left_out = Dict.delete old_rel w.file_dir in
      rw (e, move_entry)
        (record {
          covered = λ r. rw (Dict.lookup-insert new_rel r new_dir left_out) (
              Covered-list_file (unlist_file w.dir_files d old_rel) new_dir new_rel r
                (Dict.lookup r left_out)
                (rw (Dict.lookup-delete old_rel r w.file_dir) (
                  Covered-unlist_file w.dir_files d old_rel r (Dict.lookup r w.file_dir)
                    (t.covered r))));
        })
]

schedule-IsTracked :
    (key : Bytes) (pe : PendingEvent) (w : FsWatcher) → IsTracked w → IsTracked (schedule key pe w)
unfolding schedule
schedule-IsTracked key pe w t = IsTracked-same refl refl t

schedule_removals-IsTracked :
    (rels : List Bytes) (w : FsWatcher) → IsTracked w → IsTracked (schedule_removals rels w)
unfolding schedule_removals
schedule_removals-IsTracked [] w t = t
schedule_removals-IsTracked (r ∷ rels) w t =
    schedule_removals-IsTracked rels _ (schedule-IsTracked _ _ w t)

handle_write-IsTracked :
    (disk : Snapshot) (p : Bytes) (w : FsWatcher) → IsTracked w → IsTracked (handle_write disk p w)
unfolding handle_write
handle_write-IsTracked disk p w t = elim (Bool-cases (excluded w p)) [
  | inl e ↦ rw e t
  | inr e ↦
      rw e
        (elim (disk.stat p)
          as (λ o. IsTracked (elim o [
            | none ↦ w
            | some true ↦ w
            | some false ↦ elim (rel w.root p) [
              | none ↦ w
              | some r ↦ schedule (path_key r) (pending_of modified p r) (add_file w r (dir p))
            ]
          ])) [
            | none ↦ t
            | some true ↦ t
            | some false ↦ elim (Option-cases (rel w.root p)) [
              | inl f ↦ rw (f) t
              | inr (r, f) ↦ rw (f) (schedule-IsTracked _ _ _ (add_file-IsTracked w r (dir p) t))
            ]
          ])
]

register_file-IsTracked : (w : FsWatcher) (p : Bytes) → IsTracked w → IsTracked (register_file w p)
unfolding register_file
register_file-IsTracked w p t = elim (Bool-cases (excluded w p)) [
  | inl e ↦ rw e t
  | inr e ↦ elim (Option-cases (rel w.root p)) [
    | inl f ↦ rw (e, f, register_file) t
    | inr (r, f) ↦ rw (e, f, register_file) (add_file-IsTracked w r (dir p) t)
  ]
]

mutual
  unfolding register_tree

  register_tree-IsTracked :
      (t : Tree) (top : Bytes) (w : FsWatcher) → IsTracked w → IsTracked (register_tree t top w)
  register_tree-IsTracked unreadable top w h = h
  register_tree-IsTracked (file p) top w h = register_file-IsTracked w p h
  register_tree-IsTracked (folder p entries) top w h =
      elim (Bool-cases (not (p == top) && excluded w p)) [
        | inl e ↦ rw e h
        | inr e ↦ rw e (register_trees-IsTracked entries top w h)
      ]

  register_trees-IsTracked :
      (ts : Trees) (top : Bytes) (w : FsWatcher) → IsTracked w → IsTracked (register_trees ts top w)
  register_trees-IsTracked nil top w h = h
  register_trees-IsTracked (cons t ts) top w h =
      register_trees-IsTracked ts top _ (register_tree-IsTracked t top w h)

handle_create-IsTracked :
    (disk : Snapshot) (p : Bytes) (w : FsWatcher)
    → IsTracked w
    → IsTracked (handle_create disk p w).0
unfolding handle_create
handle_create-IsTracked disk p w t = elim (Bool-cases (excluded w p)) [
  | inl e ↦ rw e t
  | inr e ↦ elim (Option-cases (disk.stat p)) [
    | inl f ↦ rw (e, f, handle_create) t
    | inr (true, f) ↦ rw (e, f, handle_create) (register_tree-IsTracked (disk.tree p) p w t)
    | inr (false, f) ↦ rw (e, f, handle_create) (handle_write-IsTracked disk p w t)
  ]
]

pub lookup-drop_files :
    (rels : List Bytes) (file_dir : Dict Bytes Bytes) (r : Bytes)
    → Dict.lookup r (drop_files rels file_dir)
      ≡ (if listed_name r rels then none else Dict.lookup r file_dir)
unfolding drop_files listed_name
lookup-drop_files [] file_dir r = refl
lookup-drop_files (q ∷ rels) file_dir r =
    lookup-drop_files rels (Dict.delete q file_dir) r
    ∙ ground (arith, Dict.lookup-delete q r file_dir, bytes_eq.beq_iff q r, bytes_eq.beq_iff r q)

-- The names of a set hold every name that it has.
pub listed_name-keys :
    (files : Dict Bytes Bool) (r : Bytes) {b : Bool}
    → Dict.lookup r files ≡ some b
    → listed_name r (keys files) ≡ true
unfolding keys listed_name Dict.lookup
listed_name-keys [] r {b} h = cc
listed_name-keys ((q, v) ∷ files) r {b} h =
    ground (arith, bytes_eq.beq_iff q r, bytes_eq.beq_iff r q, listed_name-keys files r {b = b})

-- The files of a directory leave the index together with it.
Covered-drop_files :
    (w : FsWatcher) (p r : Bytes) {files : Dict Bytes Bool} (o : Option Bytes)
    → Dict.lookup p w.dir_files ≡ some files
    → Covered w.dir_files r o
    → Covered (Dict.delete p w.dir_files) r (if listed_name r (keys files) then none else o)
unfolding listed
Covered-drop_files w p r {files} none e h = elim (Bool-cases (listed_name r (keys files))) [
  | inl f ↦ rw f tt
  | inr f ↦ rw f tt
]
Covered-drop_files w p r {files} (some d) e h = elim (Bool-cases (listed_name r (keys files))) [
  | inl f ↦ rw f tt
  | inr f ↦ rw f (elim (Bool-cases (p == d)) [
    | inl same ↦
        let here : Dict.lookup d w.dir_files ≡ some files =
          ap (λ q. Dict.lookup q w.dir_files) (sym ((bytes_eq.beq_iff p d).0 same)) ∙ e in
        let inside : Dict.lookup r files ≡ some true = ap (λ o. listed_in o r) (sym here) ∙ h in
        absurd (ground (arith, listed_name-keys files r inside))
    | inr apart ↦ listed-delete w.dir_files p d r ∙ rw apart h
  ])
]

handle_remove-IsTracked : (p : Bytes) (w : FsWatcher) → IsTracked w → IsTracked (handle_remove p w)
unfolding handle_remove
handle_remove-IsTracked p w t = elim (Option-cases (Dict.lookup p w.dir_files)) [
  | inr (files, e) ↦
      rw (e, handle_remove)
        (schedule_removals-IsTracked (keys files) _ (record {
          covered = λ r.
              rw (lookup-drop_files (keys files) w.file_dir r)
                (Covered-drop_files w p r (Dict.lookup r w.file_dir) e (t.covered r));
        }))
  | inl e ↦ elim (Option-cases (rel w.root p)) [
    | inl f ↦ rw (e, f, handle_remove) t
    | inr (r, f) ↦ elim (Option-cases (Dict.lookup r w.file_dir)) [
      | inl g ↦ rw (e, f, g, handle_remove) t
      | inr (d, g) ↦ rw (e, f, g, handle_remove) (schedule-IsTracked _ _ w t)
    ]
  ]
]

schedule_rename-IsTracked :
    (p q : Bytes) (w : FsWatcher) → IsTracked w → IsTracked (schedule_rename p q w)
unfolding schedule_rename
schedule_rename-IsTracked p q w t = elim (Option-cases (rel w.root p)) [
  | inl e ↦ rw (e, schedule_rename) t
  | inr (r, e) ↦ elim (Option-cases (rel w.root q)) [
    | inl f ↦ rw (e, f, schedule_rename) t
    | inr (r', f) ↦ rw (e, f, schedule_rename) (schedule-IsTracked _ _ w t)
  ]
]

handle_rename-IsTracked :
    (disk : Snapshot) (p q : Bytes) (w : FsWatcher)
    → IsTracked w
    → IsTracked (handle_rename disk p q w).0
unfolding handle_rename
handle_rename-IsTracked disk p q w t = elim (Bool-cases (excluded w p)) [
  | inl e ↦ elim (Bool-cases (excluded w q)) [
    | inl f ↦ rw (e, f) t
    | inr f ↦ rw (e, f) (handle_create-IsTracked disk q w t)
  ]
  | inr e ↦ elim (Bool-cases (excluded w q)) [
    | inl f ↦ rw (e, f) (handle_remove-IsTracked p w t)
    | inr f ↦ rw (e, f) (schedule_rename-IsTracked p q w t)
  ]
]

handle_event-IsTracked :
    (disk : Snapshot) (ev : RawEvent) (w : FsWatcher)
    → IsTracked w
    → IsTracked (handle_event disk ev w).0
unfolding handle_event
handle_event-IsTracked disk (create p) w t = handle_create-IsTracked disk p w t
handle_event-IsTracked disk (modify p) w t = handle_write-IsTracked disk p w t
handle_event-IsTracked disk (remove p) w t = handle_remove-IsTracked p w t
handle_event-IsTracked disk (rename p q) w t = handle_rename-IsTracked disk p q w t

settle_kind-IsTracked :
    (kind : ChangeKind) (old_rel r : Bytes) (w : FsWatcher)
    → IsTracked w
    → IsTracked (settle_kind kind old_rel r w)
unfolding settle_kind
settle_kind-IsTracked modified old_rel r w t = t
settle_kind-IsTracked removed old_rel r w t = forget-IsTracked w r t
settle_kind-IsTracked renamed old_rel r w t = move_entry-IsTracked w old_rel r t
settle_kind-IsTracked rescan old_rel r w t = t

loop_round-IsTracked :
    (input : Input) (w : FsWatcher) → IsTracked w → IsTracked (loop_round input w).0
unfolding loop_round fire
loop_round-IsTracked (raw disk ev) w t = handle_event-IsTracked disk ev w t
loop_round-IsTracked (fired pe) w t =
    settle_kind-IsTracked pe.kind pe.old_rel pe.rel_path _ (IsTracked-same refl refl t)
loop_round-IsTracked (failed buffer_overflow) w t = t
loop_round-IsTracked (failed other) w t = t

loop-IsTracked : (inputs : List Input) (w : FsWatcher) → IsTracked w → IsTracked (loop inputs w).0
unfolding loop
loop-IsTracked [] w t = t
loop-IsTracked (input ∷ inputs) w t =
    loop-IsTracked inputs (loop_round input w).0 (loop_round-IsTracked input w t)

-- A watcher that starts on any tree and then sees any notifications, timers and errors in any
-- order has every file that its index places in a directory listed under that directory.
pub watch-IsTracked :
    (debounce buffer_size : ℕ) (matcher : Option (Bytes → Bool)) (root : Bytes) (tree : Tree)
    → (inputs : List Input)
    → IsTracked (loop inputs (watch debounce buffer_size matcher root tree)).0
unfolding watch new_file_watcher
watch-IsTracked debounce buffer_size matcher root tree inputs =
    loop-IsTracked inputs _
      (register_tree-IsTracked tree root _ (record { covered = λ r. rw (Dict.lookup-nil r) tt }))
