-- ===== src/Handshake/Sessions.antt =====
-- internal/handshake/session.go: how long a session is found.
use jsync.Base.{
  ℕ, ◌+◌, ◌≡◌, refl, sym, ◌∙◌, ap, inl, inr, Option, none, some, [], ◌∷◌, Bytes, bytes_eq, ltb,
  arith, Option-cases, if◌then◌else◌,
}
use jsync.Base.Dict
use jsync.Base.Dict.{Dict}
use jsync.Handshake.{session_ttl, Params, Session, SessionStore, create, get, sweep, sweep_entries}

-- What the store answers for an id at a time, when nothing is swept.
pub live : Option Session → ℕ → Option Session
live none now = none
live (some sess) now = if ltb sess.expires_at now then none else some sess

get-live :
    (s : SessionStore) (id : Bytes) (now : ℕ)
    → (get s id now).1 ≡ live (Dict.lookup id s.sessions) now
unfolding get live
get-live s id now = elim (Option-cases (Dict.lookup id s.sessions)) [
  | inl e ↦ rw (e, get) refl
  | inr (sess, e) ↦ rw (e, get) (ground arith)
]

-- A session is found under its id until its time has passed and not afterwards.
pub get-create :
    (s : SessionStore) (id machine key dest : Bytes) (params : Params) (now later : ℕ)
    → let (t, made) = create s (some id) now machine key params dest in
      (get t id later).1 ≡ (if ltb (now + session_ttl) later then none else made)
unfolding create live
get-create s id machine key dest params now later =
    rw (get-live _ id later, Dict.lookup-insert_self) refl

lookup-sweep_entries :
    (now : ℕ) (id : Bytes) (sessions : Dict Bytes Session)
    → Dict.NodupKeys sessions
    → Dict.lookup id (sweep_entries now sessions).0 ≡ live (Dict.lookup id sessions) now
unfolding sweep_entries Dict.lookup live
lookup-sweep_entries now id [] h = refl
lookup-sweep_entries now id ((i, sess) ∷ sessions) h =
    ground (arith, lookup-sweep_entries now id sessions, bytes_eq.beq_iff i id)

live-live : (o : Option Session) (now : ℕ) → live (live o now) now ≡ live o now
unfolding live
live-live none now = refl
live-live (some sess) now = ground arith

-- In a store that lists each id once, sweeping at a time removes exactly the sessions that would
-- not be found then, and an answer of the store at that time is the same before and after.
pub get-sweep :
    (s : SessionStore) (id : Bytes) (now : ℕ)
    → Dict.NodupKeys s.sessions
    → (Dict.lookup id (sweep s now).0.sessions ≡ (get s id now).1)
      × ((get (sweep s now).0 id now).1 ≡ (get s id now).1)
unfolding sweep
get-sweep s id now h =
    let swept = lookup-sweep_entries now id s.sessions h in
    let before = get-live s id now in
    let after = get-live (sweep s now).0 id now in
    (
      swept ∙ sym before,
      after
          ∙ (ap (λ o. live o now) swept ∙ (live-live (Dict.lookup id s.sessions) now ∙ sym before)),
    )
