-- ===== src/Yamledit.antt =====
-- internal/yamledit/yamledit.go: edits of a configuration, key by key, on the nodes of yaml.v3.
-- A function that changes a node behind a pointer gives the changed mapping. Reading and printing YAML
-- are library code; the file calls of a write go through a record of functions.
pub mod Edits
use jsync.Base.{
  ℕ, Bool, true, false, not, ◌&&◌, Option, none, some, List, [], ◌∷◌, ◌++◌, Bytes, bytes_eq, ◌==◌,
  codes, if◌then◌else◌,
}
use jsync.FilePath.{clean, dir}

pub data Kind : Type 0 where
  no_kind document mapping sequence scalar alias : Kind

pub record Comments : Type 0 where
  pub head : Bytes
  pub line : Bytes
  pub foot : Bytes

-- A node with its kind, tag, value, comments and content.
mutual
  pub data Node : Type 0 where
    node : Kind → Bytes → Bytes → Comments → Nodes → Node

  pub data Nodes : Type 0 where
    nil : Nodes
    cons : Node → Nodes → Nodes

abbrev pub no_comments : Comments
no_comments = record { head = []; line = []; foot = [] }

abbrev pub kind_of : Node → Kind
kind_of (node kind tag value comments content) = kind

abbrev pub value_of : Node → Bytes
value_of (node kind tag value comments content) = value

abbrev pub comments_of : Node → Comments
comments_of (node kind tag value comments content) = comments

abbrev pub content_of : Node → Nodes
content_of (node kind tag value comments content) = content

abbrev pub scalar_node : Bytes → Node
scalar_node value = node scalar (codes "!!str") value no_comments nil

-- With the decimal text of the number.
abbrev pub int_scalar : Bytes → Node
int_scalar text = node scalar (codes "!!int") text no_comments nil

abbrev pub new_mapping : Node
new_mapping = node mapping (codes "!!map") [] no_comments nil

abbrev pub new_sequence : Node
new_sequence = node sequence (codes "!!seq") [] no_comments nil

-- An empty document gets a mapping; the top node, with the document that holds it.
unfoldable pub document_root : Node → Node × Node
document_root (node kind tag value comments nil) = (
  node (elim kind [ no_kind ↦ document | k ↦ k ]) tag value comments (cons new_mapping nil),
  new_mapping,
)
document_root (node kind tag value comments (cons top rest)) =
    (node (elim kind [ no_kind ↦ document | k ↦ k ]) tag value comments (cons top rest), top)

-- The value of a key in the content of a mapping, keys and values in turn.
unfoldable pub get : Nodes → Bytes → Option Node
get nil key = none
get (cons k nil) key = none
get (cons k (cons v rest)) key =
    let later = get rest key in if value_of k == key then some v else later

unfoldable pub or_old : Bytes → Bytes → Bytes
or_old new old = if new == [] then old else new

-- The comments of an old value go over to a new one that has none.
unfoldable pub carry_comments : Node → Node → Node
carry_comments (node kind tag value comments content) old =
    let had = comments_of old in
    node kind tag value
      (record {
        head = or_old comments.head had.head;
        line = or_old comments.line had.line;
        foot = or_old comments.foot had.foot;
      })
      content

unfoldable pub set : Nodes → Bytes → Node → Nodes
set nil key val = cons (scalar_node key) (cons val nil)
set (cons k nil) key val = cons k (cons (scalar_node key) (cons val nil))
set (cons k (cons v rest)) key val =
    let later = set rest key val in
    if value_of k == key then cons k (cons (carry_comments val v) rest) else cons k (cons v later)

abbrev pub set_string : Nodes → Bytes → Bytes → Nodes
set_string m key value = set m key (scalar_node value)

abbrev pub set_int : Nodes → Bytes → Bytes → Nodes
set_int m key text = set m key (int_scalar text)

-- The first entry of a key goes; its value is given back.
unfoldable pub delete : Nodes → Bytes → Nodes × Option Node
delete nil key = (nil, none)
delete (cons k nil) key = (cons k nil, none)
delete (cons k (cons v rest)) key =
    let (left, found) = delete rest key in
    if value_of k == key then (rest, some v) else (cons k (cons v left), found)

-- Another value in the place of the one that a key has, as a write through the pointer of `get` does.
unfoldable pub replace : Nodes → Bytes → Node → Nodes
replace nil key val = nil
replace (cons k nil) key val = cons k nil
replace (cons k (cons v rest)) key val =
    let later = replace rest key val in
    if value_of k == key then cons k (cons val rest) else cons k (cons v later)

-- The mapping after the call and the node of the key; `none` is an error.
unfoldable pub ensure_mapping : Nodes → Bytes → Option (Nodes × Node)
ensure_mapping m key = elim (get m key) [
  | none ↦ some (set m key new_mapping, new_mapping)
  | some n ↦ elim (kind_of n) [ mapping ↦ some (m, n) | _ ↦ none ]
]

-- A lone scalar becomes the one item of a sequence, comments and all.
abbrev pub promoted : Node → Node
promoted n = node sequence (codes "!!seq") [] no_comments (cons n nil)

unfoldable pub ensure_sequence : Nodes → Bytes → Option (Nodes × Node)
ensure_sequence m key = elim (get m key) [
  | none ↦ some (set m key new_sequence, new_sequence)
  | some n ↦ elim (kind_of n) [
    | scalar ↦ some (replace m key (promoted n), promoted n)
    | sequence ↦ some (m, n)
    | _ ↦ none
  ]
]

unfoldable pub same_path : Bytes → Bytes → Bool
same_path a b = clean a == clean b

unfoldable pub is_scalar : Node → Bool
is_scalar n = elim (kind_of n) [ scalar ↦ true | _ ↦ false ]

unfoldable pub holds_path : Nodes → Bytes → Bool
holds_path nil value = false
holds_path (cons item rest) value =
    if is_scalar item && same_path (value_of item) value then true else holds_path rest value

unfoldable pub snoc : Nodes → Node → Nodes
snoc nil n = cons n nil
snoc (cons item rest) n = cons item (snoc rest n)

-- The items of a sequence after the call, and whether one was added.
unfoldable pub append_unique : Nodes → Bytes → Nodes × Bool
append_unique seq value =
    if holds_path seq value then (seq, false) else (snoc seq (scalar_node value), true)

-- The file calls of `AtomicWrite`; each says whether it failed.
pub record WriteCalls : Type 1 where
  pub State : Type 0
  pub mkdir_all : Bytes → State → State × Bool
  pub write_file : Bytes → Bytes → State → State × Bool
  pub rename : Bytes → Bytes → State → State × Bool
  pub remove : Bytes → State → State × Bool

pub data WriteError : Type 0 where
  create_parent write_temp replace_file : WriteError

abbrev pub temp_path : Bytes → Bytes
temp_path path = path ++ codes ".tmp"

unfoldable pub atomic_write :
    (F : WriteCalls) → Bytes → Bytes → F.State → F.State × Option WriteError
atomic_write F path data_bytes s =
    let (made, no_parent) = F.mkdir_all (dir path) s in
    let (written, no_temp) = F.write_file (temp_path path) data_bytes made in
    let (moved, no_move) = F.rename (temp_path path) path written in
    if no_parent
    then (made, some create_parent)
    else if no_temp
    then (written, some write_temp)
    else if no_move
    then ((F.remove (temp_path path) moved).0, some replace_file)
    else (moved, none)
