-- ===== src/Tests/Yamledit.antt =====
-- A mapping with a port and its comment.
use jsync.Base.{◌≡◌, refl, [], codes, bytes_eq, ◌==◌, some, none, if◌then◌else◌}
use jsync.Yamledit.{Node, node, scalar, Nodes, nil, cons, Comments, scalar_node, get, set, delete}

abbrev port : Nodes
port = cons (scalar_node (codes "port")) (
    cons
      (node scalar (codes "!!int") (codes "4222")
        (record { head = []; line = codes "# fixed"; foot = [] }) nil)
      nil)

-- A new number keeps the comment of the old one.
get-set_number :
    get (set port (codes "port") (scalar_node (codes "1"))) (codes "port")
    ≡ some (
        node scalar
          (codes "!!str")
          (codes "1")
          (record { head = []; line = codes "# fixed"; foot = [] })
          nil)
unfolding get set jsync.Yamledit.carry_comments jsync.Yamledit.or_old jsync.Base.list_beq
get-set_number = refl

delete-host : (delete port (codes "host")).1 ≡ none
unfolding delete jsync.Base.list_beq
delete-host = refl
