-- ===== src/Yamledit/Edits.antt =====
-- internal/yamledit/yamledit.go: what an edit changes and what it leaves.
use jsync.Base.{
  ◌≡◌, refl, inl, inr, true, false, Option, none, some, Bytes, bytes_eq, ◌==◌, ==-refl, arith,
  Bool-cases, if◌then◌else◌,
}
use jsync.FilePath.{clean}
use jsync.Yamledit.{
  Node, Nodes, nil, cons, value_of, scalar_node, get, carry_comments, set, delete, same_path,
  is_scalar, holds_path, snoc, append_unique,
}

-- Keys and values come in pairs, and no key comes twice.
abbrev pub IsMapping : Nodes → Type 0
IsMapping nil = Unit
IsMapping (cons k nil) = ⊥
IsMapping (cons k (cons v rest)) = (get rest (value_of k) ≡ none) × IsMapping rest

-- The value as it is stored: with the comments of the value that it replaces, if there is one.
abbrev pub stored : Option Node → Node → Node
stored none val = val
stored (some old) val = carry_comments val old

pub get-set :
    (m : Nodes) (key key' : Bytes) (val : Node)
    → IsMapping m
    → get (set m key val) key' ≡ (if key == key' then some (stored (get m key) val) else get m key')
unfolding get set
get-set nil key key' val h = ground (arith, bytes_eq.beq_iff key key')
get-set (cons k nil) key key' val h = absurd h
get-set (cons k (cons v rest)) key key' val h = ground (
  arith,
  get-set rest key key' val h.1,
  bytes_eq.beq_iff (value_of k) key,
  bytes_eq.beq_iff (value_of k) key',
  bytes_eq.beq_iff key key',
)

pub set-IsMapping : (m : Nodes) (key : Bytes) (val : Node) → IsMapping m → IsMapping (set m key val)
unfolding get set
set-IsMapping nil key val h = (refl, tt)
set-IsMapping (cons k nil) key val h = absurd h
set-IsMapping (cons k (cons v rest)) key val h = elim (Bool-cases (value_of k == key)) [
  | inl e ↦ rw e h
  | inr e ↦ rw e (
    ground (
      arith,
      h.0,
      get-set rest key (value_of k) val h.1,
      bytes_eq.beq_iff (value_of k) key,
      bytes_eq.beq_iff key (value_of k),
    ),
    set-IsMapping rest key val h.1,
  )
]

get-delete :
    (m : Nodes) (key key' : Bytes)
    → IsMapping m
    → get (delete m key).0 key' ≡ (if key == key' then none else get m key')
unfolding get delete
get-delete nil key key' h = ground arith
get-delete (cons k nil) key key' h = absurd h
get-delete (cons k (cons v rest)) key key' h = ground (
  arith,
  get-delete rest key key' h.1,
  bytes_eq.beq_iff (value_of k) key,
  bytes_eq.beq_iff (value_of k) key',
  bytes_eq.beq_iff key key',
)

delete-IsMapping : (m : Nodes) (key : Bytes) → IsMapping m → IsMapping (delete m key).0
unfolding get delete
delete-IsMapping nil key h = tt
delete-IsMapping (cons k nil) key h = absurd h
delete-IsMapping (cons k (cons v rest)) key h = elim (Bool-cases (value_of k == key)) [
  | inl e ↦ rw e h.1
  | inr e ↦ rw e (
    ground (
      arith,
      h.0,
      get-delete rest key (value_of k) h.1,
      bytes_eq.beq_iff (value_of k) key,
      bytes_eq.beq_iff key (value_of k),
    ),
    delete-IsMapping rest key h.1,
  )
]

delete-get : (m : Nodes) (key : Bytes) → (delete m key).1 ≡ get m key
unfolding get delete
delete-get nil key = refl
delete-get (cons k nil) key = refl
delete-get (cons k (cons v rest)) key = ground (arith, delete-get rest key)

-- In a mapping whose keys come once: a value that is set is found under its key, with the comments of the
-- value before it where it has none itself, and every other key keeps its value; a key that is
-- deleted gives back its value and is not found any more, and every other key keeps its value; and
-- both leave a mapping whose keys come once.
pub get-set-delete :
    (m : Nodes) (key key' : Bytes) (val : Node)
    → IsMapping m
    → (get (set m key val) key'
        ≡ (if key == key' then some (stored (get m key) val) else get m key'))
      × (get (delete m key).0 key' ≡ (if key == key' then none else get m key'))
      × ((delete m key).1 ≡ get m key)
      × IsMapping (set m key val)
      × IsMapping (delete m key).0
get-set-delete m key key' val h = (
  get-set m key key' val h,
  get-delete m key key' h,
  delete-get m key,
  set-IsMapping m key val h,
  delete-IsMapping m key h,
)

holds_path-snoc :
    (seq : Nodes) (value : Bytes) → holds_path (snoc seq (scalar_node value)) value ≡ true
unfolding holds_path snoc is_scalar same_path
holds_path-snoc nil value = ground (arith, ==-refl (clean value))
holds_path-snoc (cons item rest) value = ground (arith, holds_path-snoc rest value)

-- A path that was added is not added again.
append_unique_again :
    (seq : Nodes) (value : Bytes)
    → append_unique (append_unique seq value).0 value ≡ ((append_unique seq value).0, false)
unfolding append_unique
append_unique_again seq value = elim (Bool-cases (holds_path seq value)) [
  | inl e ↦ rw (e, e) refl
  | inr e ↦ rw (e, holds_path-snoc seq value) refl
]
