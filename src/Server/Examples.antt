-- ===== src/Server/Examples.antt =====
-- The theorems on the server at concrete inputs.
use net_conduit.Base.{
  ℕ, ◌≡◌, ◌↔◌, refl, true, false, none, some, List, [], ◌∷◌, String, str_eq, arith, eq_iff, ◌==◌,
}
use net_conduit.Base.Dict.{Dict, lookup, contains, insert}
use net_conduit.Base.Int.{pos}
use net_conduit.Connection.{Connection, new_connection}
use net_conduit.Connection.Pool
use net_conduit.Connection.Pool.{ConnectionPool, new_pool}
use net_conduit.Messages.Router.{responded, RegisteredHandler}
use net_conduit.Protocol.Format
use net_conduit.Rpc.Dispatcher
use net_conduit.Server.{Server, Session, Incoming, Calls, Moment}
use net_conduit.Server.Dispatch.{process_message}
use net_conduit.Server.Events.{Event, connect, disconnect, message, stale, run, process_connect}
use net_conduit.Server.Guard.{is_guarded}
use net_conduit.Server.Guard.Run.{run-is_guarded}
use net_conduit.Server.Hooks.{run-disconnect_calls, is_fresh}
use net_conduit.Server.Login.{process_auth}
use net_conduit.Server.Tokens.{is_logged_in, session_at, run-resumed, process_auth-password}
use net_conduit.Transport.Auth.{Crypto, IsDigestComparison, AuthHandler}

-- Digests that are all "d", compared as texts.
abbrev plain_crypto : Crypto
plain_crypto = record {
  encode = λ t. [];
  sha256_hex = λ bytes. "d";
  pbkdf2_hex = λ p s n. "k";
  compare_digest = λ a b. some (str_eq a b);
}

abbrev calls : Calls ℕ ℕ
calls = record {
  crypto = plain_crypto;
  hz = 10;
  is_none = λ x. x == 0;
  is_formatted = λ x. false;
  signature = λ h. [];
  gate = λ g c. true;
  do_handshake = λ o x. (7, some x);
  feed_encrypted = λ tunnel x. (tunnel, some ("secret", x));
  write_plaintext = λ tunnel type x. (tunnel, x);
  size_of = λ e. 10;
  sender = λ id. 0;
}

abbrev moment : Moment ℕ
moment = record {
  now = 5;
  token = "t9";
  run_rpc = λ m params. Dispatcher.returned 1;
  run_handler = λ i h. responded 3;
}

-- A handler that requires authentication.
abbrev secret_handler : RegisteredHandler
secret_handler = record {
  message_type = "secret";
  handler = 1;
  requires_auth = true;
  priority = pos 0;
}

abbrev handler : AuthHandler (Dict String)
handler = record {
  password = "pw";
  password_hash = "k";
  password_salt = [];
  session_timeout = 3600;
  sessions = [];
  pending_challenges = [];
}

abbrev start : Server ℕ ℕ
start = record {
  name = "hub";
  correlation_counter = 0;
  registry = [];
  rules = [];
  router = record {
    handlers = ("secret", secret_handler ∷ []) ∷ [];
    default_handler = none;
    error_handler = none;
  };
  pool = new_pool 4;
  rate_limit_config = record { enabled = true; messages_per_second = 5; bytes_per_second = 0 };
  connection_limiters = [];
  auth_handler = handler;
  credentials_manager = none;
  valid_sessions = ("t1", (some "ann", none)) ∷ [];
  mesh_tunnels = [];
  mesh_routing_table = [];
  heartbeat = record {
    timeout = 90;
    max_missed = 3;
    has_on_stale = true;
    last_pong = [];
    missed = [];
    senders = [];
    pinged = [];
    stale = [];
  };
  log = [];
}

-- A client that has connected and not logged in.
abbrev client : Connection Session ℕ
client = record {
  id = "c1";
  client_id = "c1";
  flag = false;
  session = none;
  stats = record { messages_sent = 0; messages_received = 0; bytes_sent = 0; bytes_received = 0 };
  counter = 0;
  pending_rpcs = [];
  on_disconnect = true;
}

abbrev joined : Server ℕ ℕ
joined = record start { pool = record start.pool { connections = ("c1", client) ∷ [] } }

abbrev request : Incoming ℕ
request = record {
  message_type = Format.auth_request;
  correlation_id = 0;
  raw_size = 40;
  route_src = "";
  route_dst = "";
  is_mesh = false;
  password_hash = "d";
  client_info = [];
  method = "";
  params = [];
  type = "";
  contents = 0;
}

abbrev resumption : Incoming ℕ
resumption = record request { password_hash = "x"; client_info = ("session_token", "t1") ∷ [] }

abbrev hello : Incoming ℕ
hello = record request { message_type = Format.message; type = "secret" }

abbrev shake : Incoming ℕ
shake = record hello {
  type = "mesh_handshake";
  is_mesh = true;
  route_src = "c1";
  route_dst = "hub";
}

abbrev sealed : Incoming ℕ
sealed = record shake { type = "mesh_secure"; contents = 8 }

abbrev events : List (Event ℕ)
events =
    connect "c1"
    ∷ message "c1" hello moment
    ∷ message "c1" request moment
    ∷ message "c1" hello moment
    ∷ disconnect "c1"
    ∷ stale "c1" true
    ∷ []

plain_crypto-IsDigestComparison : IsDigestComparison plain_crypto
plain_crypto-IsDigestComparison = record {
  sound = λ a b h. ground (arith, eq_iff a b, h);
  hex = λ bytes. refl;
}

run-is_guarded_example : is_guarded (run calls events start).log ≡ true
run-is_guarded_example = run-is_guarded calls events start refl refl

run-disconnect_calls_example :
    (run calls events start).pool.disconnect_calls ≡ start.pool.disconnect_calls
run-disconnect_calls_example = run-disconnect_calls calls events start

process_auth-password_example :
    (is_logged_in "c1" (process_auth calls "c1" request moment client joined) ≡ true)
    ↔ (request.password_hash ≡ "d")
unfolding lookup contains
process_auth-password_example =
    process_auth-password calls "c1" request moment client joined plain_crypto-IsDigestComparison
      (refl, tt) refl refl refl refl

run-resumed_example :
    session_at "c1"
      (process_message calls "c1" resumption moment (run calls (connect "c1" ∷ []) start))
    ≡ some (record {
      token = "t1";
      client_id = "c1";
      client_info = ("session_token", "t1") ∷ [];
      profile = none;
    })
unfolding lookup run is_fresh Pool.add insert new_connection process_connect
run-resumed_example =
    run-resumed calls "c1" "t1" (some "ann") none resumption moment client (connect "c1" ∷ []) start
      refl refl refl refl refl
