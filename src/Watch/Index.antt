-- ===== src/Watch/Index.antt =====
-- internal/watch/watcher.go: the two maps of the index, read together.
use jsync.Base.{
  ◌≡◌, inl, inr, Bool, true, ◌&&◌, Option, none, some, [], Bytes, bytes_eq, ◌==◌, ◌∙◌, ap, arith,
  Option-cases, if◌then◌else◌,
}
use jsync.Base.Dict
use jsync.Base.Dict.{Dict}
use jsync.Watch.{list_file, unlist_file}

abbrev pub listed_in : Option (Dict Bytes Bool) → Bytes → Option Bool
listed_in none r = none
listed_in (some files) r = Dict.lookup r files

-- The value of a file in the inner map of a directory.
unfoldable pub listed : Dict Bytes (Dict Bytes Bool) → Bytes → Bytes → Option Bool
listed dir_files d r = listed_in (Dict.lookup d dir_files) r

-- After the inner map of one directory was replaced.
listed-insert :
    (dir_files : Dict Bytes (Dict Bytes Bool)) (d : Bytes) (files : Dict Bytes Bool) (d' r : Bytes)
    → listed (Dict.insert d files dir_files) d' r
      ≡ (if d == d' then Dict.lookup r files else listed dir_files d' r)
unfolding listed
listed-insert dir_files d files d' r =
    ap (λ o. listed_in o r) (Dict.lookup-insert d d' files dir_files) ∙ ground arith

pub listed-list_file :
    (dir_files : Dict Bytes (Dict Bytes Bool)) (d r d' r' : Bytes)
    → listed (list_file dir_files d r) d' r'
      ≡ (if d == d' && r == r' then some true else listed dir_files d' r')
unfolding listed list_file
listed-list_file dir_files d r d' r' = elim (Option-cases (Dict.lookup d dir_files)) [
  | inl e ↦
      rw (e, list_file)
        (listed-insert dir_files d (Dict.insert r true []) d' r'
          ∙ ground (
            arith,
            bytes_eq.beq_iff d d',
            Dict.lookup-insert r r' true [],
            Dict.lookup-nil {V = Bool} r',
          ))
  | inr (files, e) ↦
      rw (e, list_file)
        (listed-insert dir_files d (Dict.insert r true files) d' r'
          ∙ ground (arith, bytes_eq.beq_iff d d', Dict.lookup-insert r r' true files))
]

pub listed-unlist_file :
    (dir_files : Dict Bytes (Dict Bytes Bool)) (d r d' r' : Bytes)
    → listed (unlist_file dir_files d r) d' r'
      ≡ (if d == d' && r == r' then none else listed dir_files d' r')
unfolding listed unlist_file
listed-unlist_file dir_files d r d' r' = elim (Option-cases (Dict.lookup d dir_files)) [
  | inl e ↦ rw (e, unlist_file) (ground (arith, bytes_eq.beq_iff d d'))
  | inr (files, e) ↦
      rw (e, unlist_file)
        (listed-insert dir_files d (Dict.delete r files) d' r'
          ∙ ground (arith, bytes_eq.beq_iff d d', Dict.lookup-delete r r' files))
]

pub listed-delete :
    (dir_files : Dict Bytes (Dict Bytes Bool)) (d d' r : Bytes)
    → listed (Dict.delete d dir_files) d' r ≡ (if d == d' then none else listed dir_files d' r)
unfolding listed
listed-delete dir_files d d' r =
    ap (λ o. listed_in o r) (Dict.lookup-delete d d' dir_files) ∙ ground arith
