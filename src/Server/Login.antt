-- ===== src/Server/Login.antt =====
-- conduit/server.py: the AUTH_REQUEST part of `Server._process_message`.
use net_conduit.Base.{true, false, Option, none, some, [], ◌∷◌, String, if◌then◌else◌}
use net_conduit.Base.Dict.{lookup, insert}
use net_conduit.Connection.{Connection, set_session}
use net_conduit.Connection.Pool
use net_conduit.Connection.Pool.{ConnectionPool}
use net_conduit.Heartbeat
use net_conduit.Server.{
  Server, Session, Incoming, Calls, Moment, auth_failure, auth_success, emit, put, truthy,
}
use net_conduit.Server.Credentials.{UserProfile, CredentialsManager, verify, get_profile}
use net_conduit.Transport.Auth.{verify_simple}

-- What the credentials of a request come to; `failed` is the exception of the comparison.
pub data Admission : Type 0 where
  admitted : Option UserProfile → Admission
  refused : String → Admission
  failed : Admission

abbrev pub admin_profile : UserProfile
admin_profile = record {
  username = "admin";
  roles = "admin" ∷ [];
  permissions = "read" ∷ "write" ∷ [];
}

module _ {J T : Type 0} (k : Calls J T) where
  -- `session_token and session_token in self._valid_sessions`, and what stands there
  abbrev pub known_token : Option String → Server J T → Option (String × Option UserProfile)
  known_token none s = none
  known_token (some token) s = elim (lookup token s.valid_sessions) [
    | none ↦ none
    | some (username, profile) ↦ some (token, profile)
  ]

  abbrev pub resumed : Incoming J → Server J T → Option (String × Option UserProfile)
  resumed m s = known_token (truthy (lookup "session_token" m.client_info)) s

  abbrev pub by_password : String → Server J T → Admission
  by_password password_hash s = elim (verify_simple [] k.crypto password_hash s.auth_handler) [
    | none ↦ failed
    | some false ↦ refused "Invalid password"
    | some true ↦ admitted (some admin_profile)
  ]

  abbrev pub by_credentials : String → String → CredentialsManager → Admission
  by_credentials username password_hash c =
      if verify username password_hash c
      then admitted (get_profile username c)
      else refused "Invalid credentials"

  unfoldable pub checked : Incoming J → Server J T → Admission
  checked m s = elim s.credentials_manager [
    | none ↦ by_password m.password_hash s
    | some c ↦ elim (truthy (lookup "username" m.client_info)) [
      | none ↦ by_password m.password_hash s
      | some username ↦ by_credentials username m.password_hash c
    ]
  ]

  -- the pool's hook, which runs the hooks of the application
  abbrev pub connect_hook : String → ConnectionPool Session J → ConnectionPool Session J
  connect_hook id p = record p {
    connect_calls = if p.has_connect_hook then id ∷ p.connect_calls else p.connect_calls;
  }

  -- the session, the answer, the heartbeat and the hook
  unfoldable pub succeed :
      String
      → Incoming J
      → Moment J
      → String
      → Option UserProfile
      → Connection Session J
      → Server J T
      → Server J T
  unfolding set_session
  succeed id m t token profile c s =
      let session : Session = record {
        token = token;
        client_id = id;
        client_info = m.client_info;
        profile = profile;
      } in
      let s' = emit (auth_success id token) (put id (set_session session c) s) in
      record s' {
        pool = connect_hook c.id s'.pool;
        heartbeat = Heartbeat.register id (k.sender id) t.now s'.heartbeat;
      }

  unfoldable pub fail : String → String → Server J T → Server J T
  fail id text s =
      let s' = emit (auth_failure id text) s in record s' { pool = (Pool.remove id s'.pool).0 }

  abbrev pub decided :
      String → Incoming J → Moment J → Connection Session J → Admission → Server J T → Server J T
  decided id m t c (refused text) s = fail id text s
  decided id m t c failed s = s
  decided id m t c (admitted profile) s = succeed id m t t.token profile c (record s {
    valid_sessions = insert t.token (lookup "username" m.client_info, profile) s.valid_sessions;
  })

  unfoldable pub process_auth :
      String → Incoming J → Moment J → Connection Session J → Server J T → Server J T
  unfolding checked succeed fail
  process_auth id m t c s = elim (resumed m s) as (λ _. Server J T) [
    | some (token, profile) ↦ succeed id m t token profile c s
    | none ↦ decided id m t c (checked m s) s
  ]
