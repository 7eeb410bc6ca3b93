-- ===== src/Transport/Auth/Lifetime.antt =====
-- The life of a session in an `AuthHandler`.
use mathlib.Core.Path.{subst}
use net_conduit.Base.{
  ℕ, ◌+◌, ◌-◌, ◌≤◌, ◌<◌, ◌≡◌, refl, ap, ◌∙◌, true, Option, none, some, List, [], ◌∷◌, String, arith,
  all_le, sum, Option-cases, inl, inr,
}
use net_conduit.Base.Dict.{
  lookup, erase, HasKeys, lookup-insert_self, lookup_of_contains, contains-erase_self,
  erase-HasKeys, insert-HasKeys,
}
use net_conduit.Transport.Auth.{
  Session, AuthHandler, Crypto, create_session, get_session, update_activity,
}

module _ {ℓ} {Info : Type ℓ} (no_info : Info) (k : Crypto) where
  -- What `get_session` finds of a session that has not expired.
  get_session-live :
      (t : String) (now : ℕ) (s : Session Info) (h : AuthHandler Info)
      → lookup t h.sessions ≡ some s
      → now - s.last_activity ≤ h.session_timeout
      → ((get_session no_info k t now h).1 ≡ some (update_activity no_info k now s))
        × (lookup t (get_session no_info k t now h).0.sessions
            ≡ some (update_activity no_info k now s))
        × ((get_session no_info k t now h).0.session_timeout ≡ h.session_timeout)
  unfolding get_session
  get_session-live t now s h e live =
      ground (arith, e, live, lookup-insert_self t (update_activity no_info k now s) h.sessions)

  -- Calls of get_session with one token, each some seconds after the one before.
  unfoldable pub visits : String → List ℕ → ℕ → AuthHandler Info → AuthHandler Info
  visits t [] now h = h
  visits t (dt ∷ rest) now h = visits t rest (now + dt) (get_session no_info k t (now + dt) h).0

  -- The session of `t` was last active at `now`.
  record ActiveAt (t : String) (now : ℕ) (c : String) (created timeout : ℕ) (h : AuthHandler Info)
      : Type ℓ where
    session : Session Info
    found : lookup t h.sessions ≡ some session
    active : session.last_activity ≡ now
    client : session.client_id ≡ c
    made : session.created_at ≡ created
    limit : h.session_timeout ≡ timeout

  visit-ActiveAt :
      (t c : String) (now dt created timeout : ℕ) (h : AuthHandler Info)
      → dt ≤ timeout
      → ActiveAt t now c created timeout h
      → ActiveAt t (now + dt) c created timeout (get_session no_info k t (now + dt) h).0
  visit-ActiveAt t c now dt created timeout h d a =
      let live =
        get_session-live t (now + dt) a.session h a.found (omega (arith, a.active, a.limit, d)) in
      record {
        session = update_activity no_info k (now + dt) a.session;
        found = live.1;
        active = refl;
        client = a.client;
        made = a.made;
        limit = live.2 ∙ a.limit;
      }

  visits-ActiveAt :
      (t c : String) (gaps : List ℕ) (now created timeout : ℕ) (h : AuthHandler Info)
      → all_le timeout gaps ≡ true
      → ActiveAt t now c created timeout h
      → ActiveAt t (now + sum gaps) c created timeout (visits t gaps now h)
  unfolding visits
  visits-ActiveAt t c [] now created timeout h g a =
      subst (λ n. ActiveAt t n c created timeout h) (omega arith) a
  visits-ActiveAt t c (dt ∷ rest) now created timeout h g a =
      subst (λ n. ActiveAt t n c created timeout (visits t (dt ∷ rest) now h)) (omega arith)
        (visits-ActiveAt t c rest (now + dt) created timeout
          (get_session no_info k t (now + dt) h).0 (ground (arith, g))
          (visit-ActiveAt t c now dt created timeout h (ground (arith, g)) a))

  get_session-expired :
      (t : String) (now : ℕ) (s : Session Info) (h : AuthHandler Info)
      → HasKeys h.sessions
      → lookup t h.sessions ≡ some s
      → h.session_timeout < now - s.last_activity
      → ((get_session no_info k t now h).1 ≡ none)
        × (lookup t (get_session no_info k t now h).0.sessions ≡ none)
  unfolding get_session
  get_session-expired t now s h keys e dead =
      let gone =
        lookup_of_contains t (erase t h.sessions) (contains-erase_self t h.sessions keys) in
      ground (arith, e, dead, gone)

  get_session-absent :
      (t : String) (now : ℕ) (h : AuthHandler Info)
      → lookup t h.sessions ≡ none
      → (get_session no_info k t now h).1 ≡ none
  unfolding get_session
  get_session-absent t now h e = ground (arith, e)

  get_session-HasKeys :
      (t : String) (now : ℕ) (h : AuthHandler Info)
      → HasKeys h.sessions
      → HasKeys (get_session no_info k t now h).0.sessions
  unfolding get_session
  get_session-HasKeys t now h keys = elim (Option-cases (lookup t h.sessions)) [
    | inl e ↦ ground (arith, e, keys)
    | inr (s, e) ↦ ground (
      arith,
      e,
      erase-HasKeys t h.sessions keys,
      insert-HasKeys t (update_activity no_info k now s) h.sessions keys,
    )
  ]

  visits-HasKeys :
      (t : String) (gaps : List ℕ) (now : ℕ) (h : AuthHandler Info)
      → HasKeys h.sessions
      → HasKeys (visits t gaps now h).sessions
  unfolding visits
  visits-HasKeys t [] now h keys = keys
  visits-HasKeys t (dt ∷ rest) now h keys =
      visits-HasKeys t rest (now + dt) (get_session no_info k t (now + dt) h).0
        (get_session-HasKeys t (now + dt) h keys)

  abbrev pub client_of : Option (Session Info) → Option String
  client_of none = none
  client_of (some s) = some s.client_id

  -- The handler after a login at `now` and visits of its token `gaps` apart.
  abbrev pub after_visits : String → String → List ℕ → ℕ → AuthHandler Info → AuthHandler Info
  after_visits c t gaps now h = visits t gaps now (create_session no_info k c none t now h).0

  created :
      (c t : String) (now : ℕ) (h : AuthHandler Info)
      → ActiveAt t now c now h.session_timeout (create_session no_info k c none t now h).0
  unfolding create_session
  created c t now h = record {
    session = (create_session no_info k c none t now h).1;
    found = lookup-insert_self t (create_session no_info k c none t now h).1 h.sessions;
    active = refl;
    client = refl;
    made = refl;
    limit = refl;
  }

  created-HasKeys :
      (c t : String) (now : ℕ) (h : AuthHandler Info)
      → HasKeys h.sessions
      → HasKeys (create_session no_info k c none t now h).0.sessions
  unfolding create_session
  created-HasKeys c t now h keys =
      insert-HasKeys t (create_session no_info k c none t now h).1 h.sessions keys

  -- A session that is visited at intervals of at most the timeout is given to its client at the
  -- next visit within the timeout, however long it has lived.
  session_kept :
      (c t : String) (gaps : List ℕ) (now wait : ℕ) (h : AuthHandler Info)
      → all_le h.session_timeout gaps ≡ true
      → wait ≤ h.session_timeout
      → client_of (get_session no_info k t (now + sum gaps + wait) (after_visits c t gaps now h)).1
        ≡ some c
  session_kept c t gaps now wait h g near =
      let a =
        visits-ActiveAt t c gaps now now h.session_timeout
          (create_session no_info k c none t now h).0 g (created c t now h) in
      let live =
        get_session-live t (now + sum gaps + wait) a.session (after_visits c t gaps now h) a.found
          (omega (arith, a.active, a.limit, near)) in
      ap client_of live.0 ∙ ap some a.client

  -- Where no token stands twice: after a session was visited at intervals of at most the timeout, a
  -- visit later than the timeout after the last one finds no session, and no visit of that token
  -- after it does, at whatever time.
  pub session_expires :
      (c t : String) (gaps : List ℕ) (now wait later : ℕ) (h : AuthHandler Info)
      → HasKeys h.sessions
      → all_le h.session_timeout gaps ≡ true
      → h.session_timeout < wait
      → ((get_session no_info k t (now + sum gaps + wait) (after_visits c t gaps now h)).1 ≡ none)
        × ((get_session no_info k t later
              (get_session no_info k t (now + sum gaps + wait) (after_visits c t gaps now h)).0).1
            ≡ none)
  session_expires c t gaps now wait later h keys g far =
      let a =
        visits-ActiveAt t c gaps now now h.session_timeout
          (create_session no_info k c none t now h).0 g (created c t now h) in
      let h' = after_visits c t gaps now h in
      let keys' =
        visits-HasKeys t gaps now (create_session no_info k c none t now h).0
          (created-HasKeys c t now h keys) in
      let dead =
        get_session-expired t (now + sum gaps + wait) a.session h' keys' a.found
          (omega (arith, a.active, a.limit, far)) in
      (
        dead.0,
        get_session-absent t later (get_session no_info k t (now + sum gaps + wait) h').0 dead.1,
      )
