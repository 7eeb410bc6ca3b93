-- ===== src/Client.antt =====
-- conduit/client.py: how `Client` connects, logs in, loses its connection and connects again. The
-- link of the Rust transport, what arrives on it and `delay * reconnect_delay_multiplier` are
-- arguments; times are in ticks. The hooks of the application and the login requests are recorded,
-- the latest first.
pub mod Login
pub mod Reconnect
pub mod Examples
use net_conduit.Base.{
  ℕ, zero, suc, ◌+◌, ◌≤◌, Bool, true, false, not, ◌&&◌, Option, none, some, List, [], ◌∷◌, ◌++◌,
  String, str_eq, leb, ltb, if◌then◌else◌, is_some,
}
use net_conduit.Base.Dict.{Dict}
use net_conduit.Connection.{Connection, new_connection, set_session, mark_authenticated}
use net_conduit.Server.{truthy}

-- The fields of ClientDescriptor that are read here; `password_hash` is the hex digest of the
-- password.
pub record Config : Type 0 where
  pub name : String
  pub version : String
  pub username : Option String
  pub password_hash : String
  pub reconnect_enabled : Bool
  pub reconnect_attempts : ℕ
  pub reconnect_delay : ℕ
  pub reconnect_delay_max : ℕ

pub data AuthFuture : Type 0 where
  unset pending : AuthFuture
  settled : Bool → AuthFuture

-- What the client sends or calls.
pub data Effect : Type 0 where
  auth_request : (password_hash : String) (client_info : Dict String) → Effect
  connect_hooks disconnect_hooks reconnect_hooks : Effect

pub record Client (J : Type 0) : Type 0 where
  pub config : Config
  pub has_rust_client : Bool
  pub connection : Option (Connection String J)
  pub auth_future : AuthFuture
  pub session_token : Option String
  pub cached_session_token : Option String
  pub server_info : Dict String
  pub attempts : ℕ
  pub should_reconnect : Bool
  pub is_reconnecting : Bool
  pub log : List Effect

-- What arrives while a login is waited for.
pub data Arrival : Type 0 where
  auth_success : (session_token : String) (server_info : Dict String) → Arrival
  auth_failure disconnected : Arrival

-- One attempt: whether the link comes about, the id of the connection, and what arrives until the
-- wait ends.
pub record Attempt : Type 0 where
  pub link : Bool
  pub connection_id : String
  pub arrivals : List Arrival

abbrev pub with_text : String → Option String → Dict String
with_text key none = []
with_text key (some text) = (key, text) ∷ []

abbrev pub settle : Bool → AuthFuture → AuthFuture
settle b pending = settled b
settle b f = f

module _ {J : Type 0} where
  abbrev pub emit : Effect → Client J → Client J
  emit e c = record c { log = e ∷ c.log }

  abbrev pub with_session : String → Option (Connection String J) → Option (Connection String J)
  with_session token none = none
  with_session token (some x) = some (set_session token x)

  -- the AUTH_SUCCESS and AUTH_FAILURE parts of `_process_message`
  unfoldable pub process_auth_success : String → Dict String → Client J → Client J
  process_auth_success token info c = record c {
    session_token = some token;
    cached_session_token = some token;
    server_info = info;
    connection = with_session token c.connection;
    auth_future = settle true c.auth_future;
  }

  unfoldable pub process_auth_failure : Client J → Client J
  process_auth_failure c = record c {
    cached_session_token = none;
    auth_future = settle false c.auth_future;
  }

  -- the connection is dropped, and the hooks of on_disconnect run where there was one
  abbrev pub dropped : Client J → Client J
  dropped c = record c {
    connection = none;
    log = if is_some c.connection then disconnect_hooks ∷ c.log else c.log;
  }

  -- `is_reconnecting` is that there is a reconnect task that is not done
  unfoldable pub handle_disconnect : Client J → Client J
  handle_disconnect c =
      let c' = dropped (record c { auth_future = settle false c.auth_future }) in
      record c' {
        is_reconnecting =
            if c'.should_reconnect && c'.config.reconnect_enabled then true else c'.is_reconnecting;
      }

  -- the tasks that are cancelled include the one that runs the reconnect loop
  unfoldable pub disconnect : Client J → Client J
  disconnect c =
      dropped
        (record c { should_reconnect = false; is_reconnecting = false; has_rust_client = false })

  unfoldable pub receive : Arrival → Client J → Client J
  unfolding process_auth_success process_auth_failure handle_disconnect
  receive (auth_success token info) c = process_auth_success token info c
  receive auth_failure c = process_auth_failure c
  receive disconnected c = handle_disconnect c

  unfoldable pub receive_all : List Arrival → Client J → Client J
  unfolding receive
  receive_all [] c = c
  receive_all (a ∷ rest) c = receive_all rest (receive a c)

  abbrev pub client_info : Client J → Dict String
  client_info c =
      ("name", c.config.name)
      ∷ ("version", c.config.version)
      ∷ (with_text "username" (truthy c.config.username)
          ++ with_text "session_token" (truthy c.cached_session_token))

  -- a client that has a token sends no password
  abbrev pub password_sent : Client J → String
  password_sent c = if is_some (truthy c.cached_session_token) then "" else c.config.password_hash

  -- `_do_connect` up to the wait
  unfoldable pub begin_connect : String → Client J → Client J
  unfolding new_connection
  begin_connect connection_id c = emit (auth_request (password_sent c) (client_info c)) (record c {
    has_rust_client = true;
    connection = some (new_connection connection_id "" 0);
    auth_future = pending;
  })

  -- a connection that is gone raises, and the exception is caught
  abbrev pub logged_in : Option (Connection String J) → Client J → Client J × Bool
  logged_in none c = (c, false)
  logged_in (some x) c = (
    emit connect_hooks (record c { connection = some (mark_authenticated x); attempts = 0 }),
    true,
  )

  -- `_do_connect` from the end of the wait, or of its time
  unfoldable pub finish_connect : Client J → Client J × Bool
  unfolding disconnect
  finish_connect c = elim c.auth_future as (λ _. Client J × Bool) [
    | unset ↦ (c, false)
    | pending ↦ (c, false)
    | settled b ↦ if b then logged_in c.connection c else (disconnect c, false)
  ]

  unfoldable pub do_connect : Attempt → Client J → Client J × Bool
  unfolding finish_connect receive_all begin_connect
  do_connect a c =
      if a.link
      then finish_connect (receive_all a.arrivals (begin_connect a.connection_id c))
      else (record c { has_rust_client = true }, false)

  unfoldable pub connect : Attempt → Client J → Client J × Bool
  unfolding do_connect
  connect a c = do_connect a (record c { should_reconnect = true })

-- How the reconnect loop ends: the client, the times slept, and whether it is connected.
pub record Looped (J : Type 0) : Type 0 where
  pub client : Client J
  pub slept : List ℕ
  pub is_connected : Bool

abbrev pub min : ℕ → ℕ → ℕ
min a b = if leb a b then a else b

module _ {J : Type 0} (scale : ℕ → ℕ) (attempt : ℕ → Attempt) where
  abbrev pub slept_first : ℕ → Option (Looped J) → Option (Looped J)
  slept_first delay none = none
  slept_first delay (some l) = some (record l { slept = delay ∷ l.slept })

  -- `_reconnect_loop`, from its round `i` on
  unfoldable pub reconnect_loop : ℕ → ℕ → ℕ → Client J → Option (Looped J)
  unfolding do_connect
  reconnect_loop zero i delay c = none
  reconnect_loop (suc fuel) i delay c =
      let (c', connected) = do_connect (attempt i) (record c { attempts = c.attempts + 1 }) in
      let rest = reconnect_loop fuel (i + 1) (min (scale delay) c.config.reconnect_delay_max) c' in
      if not c.should_reconnect
      then some (record { client = c; slept = []; is_connected = false })
      else if ltb 0 c.config.reconnect_attempts && leb c.config.reconnect_attempts c.attempts
      then some (record { client = c; slept = []; is_connected = false })
      else if connected
      then some
          (record { client = emit reconnect_hooks c'; slept = delay ∷ []; is_connected = true })
      else slept_first delay rest
