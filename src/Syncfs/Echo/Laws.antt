-- ===== src/Syncfs/Echo/Laws.antt =====
-- internal/syncfs/echo.go: the marks and the questions about them.
use jsync.Base.{◌≡◌, true, false, Bytes, bytes_eq, ◌==◌, ==-refl, arith, if◌then◌else◌}
use jsync.Base.Dict
use jsync.Syncfs.Echo.{
  EchoGuard, removed_sentinel, mark_applied, mark_removed, is_echo, is_echo_remove, mark_renamed,
  is_echo_rename,
}

-- After a write is marked, the guard recognises a local write of that path with that hash, and
-- recognises it no second time.
pub is_echo-mark_applied :
    (g : EchoGuard) (p h h' : Bytes)
    → let (t, first) = is_echo (mark_applied g p h) p h in
      (first ≡ true) × ((is_echo t p h').1 ≡ false)
unfolding is_echo mark_applied
is_echo-mark_applied g p h h' = ground (
  arith,
  Dict.lookup-insert_self p h g.entries,
  ==-refl h,
  Dict.lookup-delete_self p (Dict.insert p h g.entries),
)

-- What `is_echo` answers after any mark of a write or a removal, at any path.
is_echo-mark :
    (g : EchoGuard) (p q h h' : Bytes)
    → ((is_echo (mark_applied g p h) q h').1 ≡ (if p == q then h == h' else (is_echo g q h').1))
      × ((is_echo_remove (mark_removed g p) q).1
          ≡ (if p == q then true else (is_echo_remove g q).1))
      × ((is_echo (mark_removed g p) q h').1
          ≡ (if p == q then removed_sentinel == h' else (is_echo g q h').1))
unfolding is_echo is_echo_remove mark_applied mark_removed
is_echo-mark g p q h h' =
    let written = Dict.lookup-insert p q h g.entries in
    let removed = Dict.lookup-insert p q removed_sentinel g.entries in
    let same = ==-refl removed_sentinel in (ground arith, ground arith, ground arith)

-- A rename is recognised for its exact pair of paths, once.
pub is_echo_rename-mark_renamed :
    (g : EchoGuard) (old new old' : Bytes)
    → let (t, first) = is_echo_rename (mark_renamed g old new) old' new in
      (first ≡ (old == old'))
      × (old ≡ old' → (old'' : Bytes) → (is_echo_rename t old'' new).1 ≡ false)
unfolding is_echo_rename mark_renamed
is_echo_rename-mark_renamed g old new old' =
    let marked = Dict.lookup-insert_self new old g.renamed in
    let dropped = Dict.lookup-delete_self new (Dict.insert new old g.renamed) in
    let same = ==-refl old in
    let iff = bytes_eq.beq_iff old old' in (ground arith, λ e old''. ground arith)
