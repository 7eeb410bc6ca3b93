-- ===== src/Server/Tokens.antt =====
-- What authenticates a client of the server: a password, and a session token.
use net_conduit.Base.{
  ◌≡◌, ◌↔◌, ap, ◌∙◌, Bool, true, false, Option, none, some, List, String, arith, Bool-cases,
  Option-cases, inl, inr,
}
use net_conduit.Base.Dict.{
  lookup, contains, insert, erase, HasKeys, lookup-insert_self, contains-erase_self,
  lookup_of_contains,
}
use net_conduit.Connection.{Connection, is_authenticated, set_session}
use net_conduit.Connection.Pool
use net_conduit.Connection.Pool.{ConnectionPool}
use net_conduit.Protocol.Format
use net_conduit.Server.{Server, Session, Incoming, Calls, Moment, is_type, truthy}
use net_conduit.Server.Credentials.{UserProfile}
use net_conduit.Server.Dispatch.{process_connected, process_message}
use net_conduit.Server.Events.{Event, run}
use net_conduit.Server.Hooks.{is_fresh, run-IsKept}
use net_conduit.Server.Login.{
  admitted, process_auth, succeed, fail, decided, checked, by_password, admin_profile,
}
use net_conduit.Transport.Auth.{IsDigestComparison, verify_simple}

-- The client has a connection that is authenticated.
abbrev pub is_logged_in : {J T : Type 0} → String → Server J T → Bool
is_logged_in id s = elim (Pool.get id s.pool) [ none ↦ false | some c ↦ is_authenticated c ]

abbrev pub session_at : {J T : Type 0} → String → Server J T → Option Session
session_at id s = elim (Pool.get id s.pool) [ none ↦ none | some c ↦ c.session ]

module _ {J T : Type 0} (k : Calls J T) where
  succeed-session :
      (id : String) (m : Incoming J) (t : Moment J) (token : String) (profile : Option UserProfile)
      (c : Connection Session J) (s : Server J T)
      → (is_logged_in id (succeed k id m t token profile c s) ≡ true)
        × (session_at id (succeed k id m t token profile c s)
            ≡ some (record {
              token = token;
              client_id = id;
              client_info = m.client_info;
              profile = profile;
            }))
  unfolding succeed set_session
  succeed-session id m t token profile c s =
      let there =
        lookup-insert_self id
          (set_session
            (record {
              token = token;
              client_id = id;
              client_info = m.client_info;
              profile = profile;
            })
            c)
          s.pool.connections in
      (ground (arith, there), ground (arith, there))

  -- A token that the server knows stays good: after any further events, whose random tokens differ
  -- from it, an AUTH_REQUEST of any connected client with it, whatever its password hash and however
  -- late, logs that client in with the profile of the token's first login.
  pub run-resumed :
      (id token : String) (username : Option String) (profile : Option UserProfile) (m : Incoming J)
      (t : Moment J) (c : Connection Session J) (es : List (Event J)) (s : Server J T)
      → lookup token s.valid_sessions ≡ some (username, profile)
      → is_fresh k token es ≡ true
      → Pool.get id (run k es s).pool ≡ some c
      → is_type m.message_type Format.auth_request ≡ true
      → truthy (lookup "session_token" m.client_info) ≡ some token
      → session_at id (process_message k id m t (run k es s))
        ≡ some (record {
          token = token;
          client_id = id;
          client_info = m.client_info;
          profile = profile;
        })
  unfolding process_message process_connected process_auth
  run-resumed id token username profile m t c es s known fresh there auth sent =
      let now : lookup token (run k es s).valid_sessions ≡ some (username, profile) =
        (run-IsKept k token es s fresh).0 ∙ known in
      rw (process_message, there, process_connected, auth, process_auth, sent, now)
        (succeed-session id m t token profile c (run k es s)).1

  fail-out :
      (id text : String) (s : Server J T)
      → HasKeys s.pool.connections
      → is_logged_in id (fail k id text s) ≡ false
  unfolding fail Pool.remove
  fail-out id text s keys =
      let gone = contains-erase_self id s.pool.connections keys in
      let missing = lookup_of_contains id (erase id s.pool.connections) gone in
      elim (Bool-cases (contains id s.pool.connections)) [
        | inl e ↦ ground (arith, e, missing)
        | inr e ↦ let out = lookup_of_contains id s.pool.connections e in ground (arith, e, out)
      ]

  by_password-digest :
      (id : String) (m : Incoming J) (t : Moment J) (c : Connection Session J) (s : Server J T)
      → IsDigestComparison k.crypto
      → HasKeys s.pool.connections
      → is_logged_in id s ≡ false
      → (is_logged_in id (decided k id m t c (by_password k m.password_hash s) s) ≡ true)
        ↔ (m.password_hash ≡ k.crypto.sha256_hex (k.crypto.encode s.auth_handler.password))
  unfolding verify_simple
  by_password-digest id m t c s digest keys out =
      let right = k.crypto.sha256_hex (k.crypto.encode s.auth_handler.password) in
      let same : m.password_hash ≡ right
          → k.crypto.compare_digest m.password_hash right ≡ some true =
        λ e. ap (λ h. k.crypto.compare_digest h right) e ∙ digest.hex _ in
      let passed : k.crypto.compare_digest m.password_hash right ≡ some true
          → by_password k m.password_hash s ≡ admitted (some admin_profile) =
        λ e. ground (arith, e) in
      let failing = fail-out id "Invalid password" s keys in
      elim (Option-cases (k.crypto.compare_digest m.password_hash right)) [
        | inl e ↦
            (λ a. ground (arith, a, e, out), λ q. let agree = same q in ground (arith, agree, e))
        | inr (false, e) ↦ (
          λ a. ground (arith, a, e, failing),
          λ q. let agree = same q in ground (arith, agree, e),
        )
        | inr (true, e) ↦ (
          λ a. digest.sound m.password_hash right e,
          λ q.
              rw (passed e)
                (succeed-session id m t t.token (some admin_profile) c (record s {
                  valid_sessions =
                      insert t.token (lookup "username" m.client_info, some admin_profile)
                        s.valid_sessions;
                })).0,
        )
      ]

  -- On a server without a credentials manager, a client whose AUTH_REQUEST has no session token is
  -- logged in exactly where the request's hash is the digest of the server's password.
  pub process_auth-password :
      (id : String) (m : Incoming J) (t : Moment J) (c : Connection Session J) (s : Server J T)
      → IsDigestComparison k.crypto
      → HasKeys s.pool.connections
      → Pool.get id s.pool ≡ some c
      → is_authenticated c ≡ false
      → s.credentials_manager ≡ none
      → truthy (lookup "session_token" m.client_info) ≡ none
      → (is_logged_in id (process_auth k id m t c s) ≡ true)
        ↔ (m.password_hash ≡ k.crypto.sha256_hex (k.crypto.encode s.auth_handler.password))
  unfolding process_auth checked
  process_auth-password id m t c s digest keys there out no_manager no_token =
      let by : checked k m s ≡ by_password k m.password_hash s = ground (arith, no_manager) in
      rw (process_auth, no_token, by)
        (by_password-digest id m t c s digest keys (ground (arith, there, out)))
