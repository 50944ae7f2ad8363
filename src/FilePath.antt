-- ===== src/FilePath.antt =====
-- Go's path/filepath on a POSIX system, as the program uses it: Clean, Join, Rel, Dir and IsAbs,
-- by their documented behaviour, over texts as bytes.
pub mod Shape
pub mod Inside
pub mod Length
use jsync.Base.{
  ℕ, Bool, true, false, not, ◌&&◌, ◌||◌, Option, none, some, List, [], ◌∷◌, ◌++◌, Bytes, nat_eq,
  bytes_eq, parts_eq, ◌==◌, if◌then◌else◌,
}
use mathlib.Core.List.{reverse}

abbrev pub slash : ℕ
slash = b'/'

abbrev pub dot : Bytes
dot = b'.' ∷ []

abbrev pub dot_dot : Bytes
dot_dot = b'.' ∷ b'.' ∷ []

-- A cleaned path: whether it starts at the root, and its elements.
pub record Cleaned : Type 0 where
  pub rooted : Bool
  pub parts : List Bytes

unfoldable pub extend_first : ℕ → List Bytes → List Bytes
extend_first c [] = (c ∷ []) ∷ []
extend_first c (w ∷ ws) = (c ∷ w) ∷ ws

-- The texts between slashes.
unfoldable pub split_slash : Bytes → List Bytes
split_slash [] = [] ∷ []
split_slash (c ∷ s) =
    let rest = split_slash s in if c == slash then [] ∷ rest else extend_first c rest

-- One element, onto the elements so far, the last first.
unfoldable pub push_part : Bool → List Bytes → Bytes → List Bytes
push_part rooted [] part =
    if part == []
    then []
    else if part == dot
    then []
    else if part == dot_dot
    then (if rooted then [] else dot_dot ∷ [])
    else part ∷ []
push_part rooted (top ∷ below) part =
    if part == []
    then top ∷ below
    else if part == dot
    then top ∷ below
    else if part == dot_dot
    then (if top == dot_dot then dot_dot ∷ top ∷ below else below)
    else part ∷ top ∷ below

unfoldable pub push_parts : Bool → List Bytes → List Bytes → List Bytes
push_parts rooted stack [] = stack
push_parts rooted stack (part ∷ parts) = push_parts rooted (push_part rooted stack part) parts

unfoldable pub is_rooted : Bytes → Bool
is_rooted [] = false
is_rooted (c ∷ s) = c == slash

-- `Clean`, before the text is put together again.
unfoldable pub parse : Bytes → Cleaned
parse path = record {
  rooted = is_rooted path;
  parts = reverse (push_parts (is_rooted path) [] (split_slash path));
}

unfoldable pub join_slash : List Bytes → Bytes
join_slash [] = []
join_slash (w ∷ []) = w
join_slash (w ∷ w' ∷ ws) = w ++ (slash ∷ join_slash (w' ∷ ws))

unfoldable pub render : Cleaned → Bytes
render p =
    if p.rooted
    then slash ∷ join_slash p.parts
    else elim p.parts [ [] ↦ dot | w ∷ ws ↦ join_slash (w ∷ ws) ]

unfoldable pub clean : Bytes → Bytes
clean path = render (parse path)

-- `Join` of two elements.
unfoldable pub join : Bytes → Bytes → Bytes
join [] [] = []
join [] (c ∷ s) = clean (c ∷ s)
join (b ∷ base) s = clean ((b ∷ base) ++ (slash ∷ s))

-- What is left of two lists of elements after their common beginning.
unfoldable pub strip_common : List Bytes → List Bytes → List Bytes × List Bytes
strip_common [] ts = ([], ts)
strip_common (b ∷ bs) [] = (b ∷ bs, [])
strip_common (b ∷ bs) (t ∷ ts) =
    let rest = strip_common bs ts in if b == t then rest else (b ∷ bs, t ∷ ts)

-- The elements of a target as `Rel` sees them: the empty path is a dot.
unfoldable pub target_parts : Cleaned → List Bytes
target_parts t = elim t.parts [ [] ↦ if t.rooted then [] else dot ∷ [] | w ∷ ws ↦ w ∷ ws ]

unfoldable pub go_up : List Bytes → List Bytes → List Bytes
go_up [] ts = ts
go_up (b ∷ bs) ts = dot_dot ∷ go_up bs ts

-- Both start at the root, or neither does.
unfoldable pub same_root : Cleaned → Cleaned → Bool
same_root b t = if b.rooted then t.rooted else not t.rooted

unfoldable pub cleaned_beq : Cleaned → Cleaned → Bool
cleaned_beq a b = same_root a b && (a.parts == b.parts)

-- The text of `Rel` from what is left of both sides.
unfoldable pub from_stripped : List Bytes → List Bytes → Option Bytes
from_stripped [] ts = some (join_slash ts)
from_stripped (w ∷ ws) ts = if w == dot_dot then none else some (join_slash (go_up (w ∷ ws) ts))

-- `Rel`: `none` is its error.
unfoldable pub rel_of : Cleaned → Cleaned → Option Bytes
rel_of b t =
    if cleaned_beq b t
    then some dot
    else if same_root b t
    then (let (bs, ts) = strip_common b.parts (target_parts t) in from_stripped bs ts)
    else none

unfoldable pub rel : Bytes → Bytes → Option Bytes
rel base target = rel_of (parse base) (parse target)

unfoldable pub has_prefix : Bytes → Bytes → Bool
has_prefix s [] = true
has_prefix [] (p ∷ ps) = false
has_prefix (c ∷ s) (p ∷ ps) = c == p && has_prefix s ps

-- The test that the callers of `Rel` make: `rel == ".."` or a prefix "../".
unfoldable pub escapes : Bytes → Bool
escapes r = r == dot_dot || has_prefix r (b'.' ∷ b'.' ∷ slash ∷ [])

-- The test as the program makes it: an error of `Rel` or an escaping result is a refusal.
unfoldable pub confined : Bytes → Bytes → Bool
confined base target = elim (rel base target) [ none ↦ false | some r ↦ not (escapes r) ]

unfoldable pub drop_last : List Bytes → List Bytes
drop_last [] = []
drop_last (w ∷ []) = []
drop_last (w ∷ w' ∷ ws) = w ∷ drop_last (w' ∷ ws)

-- `Dir`: what stands before the last slash, with the slash, cleaned.
unfoldable pub dir : Bytes → Bytes
dir path = elim (drop_last (split_slash path)) [
  | [] ↦ dot
  | w ∷ ws ↦ clean (join_slash (w ∷ ws) ++ (slash ∷ []))
]

unfoldable pub is_abs : Bytes → Bool
is_abs path = is_rooted path

-- The last element of a list that is not empty, or what is given.
unfoldable pub last_element : Bytes → List Bytes → Bytes
last_element found [] = found
last_element found (w ∷ ws) = last_element (if w == [] then found else w) ws

-- `Base`: the last element, slashes at the end left aside; a dot for the empty path.
unfoldable pub base : Bytes → Bytes
base path = if path == [] then dot else last_element (slash ∷ []) (split_slash path)
