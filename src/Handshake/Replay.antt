-- ===== src/Handshake/Replay.antt =====
-- internal/handshake/challenge.go: the guard against repeated requests.
use jsync.Base.{
  ℕ, ◌+◌, ◌≤◌, ◌<◌, ◌≡◌, inl, inr, none, some, List, [], ◌∷◌, Bytes, bytes_eq, arith, All,
  Option-cases,
}
use jsync.Base.Dict
use jsync.Base.Dict.{Dict}
use jsync.Crypto.Primitives.{Primitives}
use jsync.Handshake.{
  clock_skew, Request, replayed, ReplayGuard, evict_old, check, skew_of, verify_request,
}

-- An entry of a nonce that is not too old stays.
lookup-evict_old :
    (now : ℕ) (nonce : Bytes) (seen_at : ℕ) (seen : Dict Bytes ℕ)
    → Dict.lookup nonce seen ≡ some seen_at
    → now ≤ seen_at + clock_skew
    → Dict.lookup nonce (evict_old now seen) ≡ some seen_at
unfolding evict_old Dict.lookup
lookup-evict_old now nonce seen_at [] h le = h
lookup-evict_old now nonce seen_at ((n, t) ∷ seen) h le =
    ground (arith, lookup-evict_old now nonce seen_at seen)

-- One that was not there is not there.
pub lookup-evict_old-none :
    (now : ℕ) (nonce : Bytes) (seen : Dict Bytes ℕ)
    → Dict.lookup nonce seen ≡ none
    → Dict.lookup nonce (evict_old now seen) ≡ none
unfolding evict_old Dict.lookup
lookup-evict_old-none now nonce [] h = h
lookup-evict_old-none now nonce ((n, t) ∷ seen) h =
    ground (arith, lookup-evict_old-none now nonce seen)

-- The guard after a run of checks, each with its nonce and its time.
pub check_all : ReplayGuard → List (Bytes × ℕ) → ReplayGuard
check_all g [] = g
check_all g ((nonce, now) ∷ checks) = check_all (check g nonce now).0 checks

lookup-check :
    (g : ReplayGuard) (nonce other : Bytes) (seen_at now : ℕ)
    → Dict.lookup nonce g.seen ≡ some seen_at
    → now ≤ seen_at + clock_skew
    → Dict.lookup nonce (check g other now).0.seen ≡ some seen_at
unfolding check
lookup-check g nonce other seen_at now h le =
    let kept = lookup-evict_old now nonce seen_at g.seen h le in
    ground (
      arith,
      Dict.lookup-insert other nonce now (evict_old now g.seen),
      bytes_eq.beq_iff other nonce,
    )

lookup-check_all :
    (g : ReplayGuard) (nonce : Bytes) (seen_at : ℕ) (checks : List (Bytes × ℕ))
    → Dict.lookup nonce g.seen ≡ some seen_at
    → All (λ c. c.1 ≤ seen_at + clock_skew) checks
    → Dict.lookup nonce (check_all g checks).seen ≡ some seen_at
unfolding check_all
lookup-check_all g nonce seen_at [] h le = h
lookup-check_all g nonce seen_at ((other, now) ∷ checks) h le =
    lookup-check_all (check g other now).0 nonce seen_at checks
      (lookup-check g nonce other seen_at now h (le.0)) (le.1)

-- A nonce that was accepted is refused as a repetition for as long as the skew allows, whatever
-- else is checked in between.
pub check-replayed :
    (g : ReplayGuard) (nonce : Bytes) (seen_at now : ℕ) (checks : List (Bytes × ℕ))
    → (check g nonce seen_at).1 ≡ none
    → All (λ c. c.1 ≤ seen_at + clock_skew) checks
    → now ≤ seen_at + clock_skew
    → (check (check_all (check g nonce seen_at).0 checks) nonce now).1 ≡ some replayed
unfolding check
check-replayed g nonce seen_at now checks h le last =
    let stored : Dict.lookup nonce (check g nonce seen_at).0.seen ≡ some seen_at =
      unfold check in
      ground (arith, Dict.lookup-insert_self nonce seen_at (evict_old seen_at g.seen)) in
    let later = lookup-check_all (check g nonce seen_at).0 nonce seen_at checks stored le in
    let kept =
      lookup-evict_old now nonce seen_at (check_all (check g nonce seen_at).0 checks).seen later
        last in
    ground arith

lookup-evict_old-insert :
    (nonce : Bytes) (seen_at now : ℕ) (seen : Dict Bytes ℕ)
    → Dict.lookup nonce seen ≡ none
    → seen_at + clock_skew < now
    → Dict.lookup nonce (evict_old now (Dict.insert nonce seen_at seen)) ≡ none
unfolding evict_old Dict.lookup Dict.insert
lookup-evict_old-insert nonce seen_at now [] h old = ground arith
lookup-evict_old-insert nonce seen_at now ((n, t) ∷ seen) h old =
    ground (arith, lookup-evict_old-insert nonce seen_at now seen, bytes_eq.beq_iff n nonce)

-- A nonce older than the skew is accepted again.
check-forgotten :
    (g : ReplayGuard) (nonce : Bytes) (seen_at now : ℕ)
    → (check g nonce seen_at).1 ≡ none
    → seen_at + clock_skew < now
    → (check (check g nonce seen_at).0 nonce now).1 ≡ none
unfolding check
check-forgotten g nonce seen_at now first old =
    elim (Option-cases (Dict.lookup nonce (evict_old seen_at g.seen))) [
      | inl fresh ↦
          let gone =
            lookup-evict_old-insert nonce seen_at now (evict_old seen_at g.seen) fresh old in
          ground arith
      | inr (t, e) ↦ absurd (ground arith)
    ]

-- A request that was accepted is accepted once more at any later time that is more than the skew
-- after the first and within the skew of the request's own timestamp, as it can be for a timestamp
-- that was ahead of the clock.
pub verify_request-twice :
    (P : Primitives) (req : Request) (authorized : List Bytes) (g : ReplayGuard) (now later : ℕ)
    → let (g', first) = verify_request P req authorized g now in
      first ≡ none
      → now + clock_skew < later
      → skew_of later req.timestamp ≤ clock_skew
      → (verify_request P req authorized g' later).1 ≡ none
unfolding verify_request
verify_request-twice P req authorized g now later first old close =
    let again : (check g req.nonce now).1 ≡ none
        → (check (check g req.nonce now).0 req.nonce later).1 ≡ none =
      λ h. check-forgotten g req.nonce now later h old in
    ground arith
