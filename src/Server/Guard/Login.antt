-- ===== src/Server/Guard/Login.antt =====
-- Logins and changes of the pool keep the log of a server guarded.
use net_conduit.Base.{ℕ, refl, Option, List, ◌∷◌, String, arith, eq_iff, Option-cases, inl, inr}
use net_conduit.Base.Dict.{lookup, insert}
use net_conduit.Connection.{Connection, set_session, new_connection, set_disconnect_handler}
use net_conduit.Connection.Pool
use net_conduit.Connection.Pool.{ConnectionPool}
use net_conduit.Server.{
  Server, Session, Incoming, Calls, Moment, Effect, auth_failure, auth_success, put,
}
use net_conduit.Server.Credentials.{UserProfile}
use net_conduit.Server.Guard.{
  AreSafe, IsDue, has_login, is_accounted-insert, is_accounted-erase, cons-AreSafe,
}
use net_conduit.Server.Login.{
  Admission, admitted, refused, failed, process_auth, succeed, fail, decided, checked, resumed,
}

module _ {J : Type 0} where
  pub remove-AreSafe :
      (id : String) (log : List (Effect J)) (p : ConnectionPool Session J)
      → AreSafe log p.connections
      → AreSafe log (Pool.remove id p).0.connections
  unfolding Pool.remove
  remove-AreSafe id log p h =
      let less = is_accounted-erase id log p.connections h.1 in (h.0, ground (arith, h.1, less))

  pub add-AreSafe :
      (id : String) (counter : ℕ) (log : List (Effect J)) (p : ConnectionPool Session J)
      → AreSafe log p.connections
      → AreSafe log (Pool.add (new_connection id id counter) p).0.connections
  unfolding Pool.add new_connection set_disconnect_handler
  add-AreSafe id counter log p h =
      let more =
        is_accounted-insert id (set_disconnect_handler (new_connection id id counter)) log
          p.connections h.1 (λ a. ground (arith, a)) in
      (h.0, ground (arith, h.1, more))

module _ {J T : Type 0} where
  abbrev pub IsSafe : Server J T → Type 0
  IsSafe s = AreSafe s.log s.pool.connections

  pub put-AreSafe :
      (id : String) (c : Connection Session J) (s : Server J T)
      → IsSafe s
      → IsDue id c s.log
      → IsSafe (put id c s)
  put-AreSafe id c s h due = (h.0, is_accounted-insert id c s.log s.pool.connections h.1 due)

module _ {J T : Type 0} (k : Calls J T) where
  succeed-IsSafe :
      (id : String) (m : Incoming J) (t : Moment J) (token : String) (profile : Option UserProfile)
      (c : Connection Session J) (s : Server J T)
      → IsSafe s
      → IsSafe (succeed k id m t token profile c s)
  unfolding succeed set_session has_login
  succeed-IsSafe id m t token profile c s h =
      let logged_in = cons-AreSafe (auth_success id token) s.log s.pool.connections h refl in
      (
        logged_in.0,
        is_accounted-insert id _ (auth_success id token ∷ s.log) s.pool.connections logged_in.1
            (λ a. ground (arith, eq_iff id id)),
      )

  fail-IsSafe : (id text : String) (s : Server J T) → IsSafe s → IsSafe (fail k id text s)
  unfolding fail
  fail-IsSafe id text s h =
      remove-AreSafe id (auth_failure id text ∷ s.log) s.pool
        (cons-AreSafe (auth_failure id text) s.log s.pool.connections h refl)

  decided-IsSafe :
      (id : String) (m : Incoming J) (t : Moment J) (c : Connection Session J) (a : Admission)
      (s : Server J T)
      → IsSafe s
      → IsSafe (decided k id m t c a s)
  decided-IsSafe id m t c (refused text) s h = fail-IsSafe id text s h
  decided-IsSafe id m t c failed s h = h
  decided-IsSafe id m t c (admitted profile) s h =
      succeed-IsSafe id m t t.token profile c
        (record s {
          valid_sessions =
              insert t.token (lookup "username" m.client_info, profile) s.valid_sessions;
        })
        h

  pub process_auth-IsSafe :
      (id : String) (m : Incoming J) (t : Moment J) (c : Connection Session J) (s : Server J T)
      → IsSafe s
      → IsSafe (process_auth k id m t c s)
  unfolding process_auth
  process_auth-IsSafe id m t c s h = elim (Option-cases (resumed k m s)) [
    | inl e ↦ rw (process_auth, e) (decided-IsSafe id m t c (checked k m s) s h)
    | inr ((token, profile), e) ↦ rw (process_auth, e) (succeed-IsSafe id m t token profile c s h)
  ]
