-- ===== src/Syncfs/Echo.antt =====
-- internal/syncfs/echo.go: what this node has just applied, so that its own watcher's report of it
-- is not published again.
pub mod Laws
use jsync.Base.{Bool, true, false, none, some, [], Bytes, bytes_eq, ◌==◌, codes, if◌then◌else◌}
use jsync.Base.Dict
use jsync.Base.Dict.{Dict}

-- `removedSentinel`.
abbrev pub removed_sentinel : Bytes
removed_sentinel = codes "removed"

pub record EchoGuard : Type 0 where
  -- path to expected content hash, or the sentinel
  pub entries : Dict Bytes Bytes
  -- new path to old path
  pub renamed : Dict Bytes Bytes

abbrev pub new_echo_guard : EchoGuard
new_echo_guard = record { entries = []; renamed = [] }

unfoldable pub mark_applied : EchoGuard → Bytes → Bytes → EchoGuard
mark_applied g rel_path hash = record g { entries = Dict.insert rel_path hash g.entries }

unfoldable pub mark_removed : EchoGuard → Bytes → EchoGuard
mark_removed g rel_path = record g { entries = Dict.insert rel_path removed_sentinel g.entries }

unfoldable pub is_echo : EchoGuard → Bytes → Bytes → EchoGuard × Bool
is_echo g rel_path hash = elim (Dict.lookup rel_path g.entries) [
  | none ↦ (g, false)
  | some want ↦
      if want == hash
      then (record g { entries = Dict.delete rel_path g.entries }, true)
      else (g, false)
]

unfoldable pub is_echo_remove : EchoGuard → Bytes → EchoGuard × Bool
is_echo_remove g rel_path = elim (Dict.lookup rel_path g.entries) [
  | none ↦ (g, false)
  | some want ↦
      if want == removed_sentinel
      then (record g { entries = Dict.delete rel_path g.entries }, true)
      else (g, false)
]

unfoldable pub mark_renamed : EchoGuard → Bytes → Bytes → EchoGuard
mark_renamed g old_rel_path new_rel_path = record g {
  renamed = Dict.insert new_rel_path old_rel_path g.renamed;
}

unfoldable pub is_echo_rename : EchoGuard → Bytes → Bytes → EchoGuard × Bool
is_echo_rename g old_rel_path new_rel_path = elim (Dict.lookup new_rel_path g.renamed) [
  | none ↦ (g, false)
  | some want ↦
      if want == old_rel_path
      then (record g { renamed = Dict.delete new_rel_path g.renamed }, true)
      else (g, false)
]
