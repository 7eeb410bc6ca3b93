-- ===== src/Server.antt =====
-- conduit/server.py: `Server`, its state and what its handlers work with. `J` is the type of the
-- values that messages carry and `T` that of the TLS tunnels (conduit/mesh/tunnel.py, over `ssl`). A
-- handler of an event runs to its end before the next one; what it sends, and the handlers of the
-- application that it calls, are recorded in `log`, the latest first.
pub mod Credentials
pub mod Login
pub mod Mesh
pub mod Dispatch
pub mod Events
pub mod Guard
pub mod Bypass
pub mod Tokens
pub mod Hooks
pub mod Examples
use net_conduit.Base.{
  ℕ, ◌==◌, Bool, true, false, Option, none, some, List, [], ◌∷◌, String, str_eq, if◌then◌else◌,
}
use net_conduit.Base.Dict.{Dict, lookup, insert}
use net_conduit.Protocol.Format.{MessageType, type_code}
use net_conduit.Connection.{Connection}
use net_conduit.Connection.Pool
use net_conduit.Connection.Pool.{ConnectionPool}
use net_conduit.Heartbeat.{HeartbeatManager}
use net_conduit.Messages.Router
use net_conduit.Messages.Router.{MessageRouter, RegisteredHandler}
use net_conduit.RateLimit.{RateLimitConfig, RateLimiter}
use net_conduit.Rpc.Dispatcher
use net_conduit.Rpc.Dispatcher.{Param, Outcome}
use net_conduit.Rpc.Registry.{RpcMethod, RpcRegistry}
use net_conduit.Server.Credentials.{UserProfile, CredentialsManager}
use net_conduit.Transport.Auth.{Crypto, AuthHandler}

-- A session as the server makes it, with the profile that it attaches; its times are not read here.
pub record Session : Type 0 where
  pub token : String
  pub client_id : String
  pub client_info : Dict String
  pub profile : Option UserProfile

-- The attributes that `Server.rpc` sets on a method; `gate` numbers the callback.
pub record Rule : Type 0 where
  pub requires_role : Option String
  pub requires_permission : Option String
  pub gate : Option ℕ

-- What the server sends or calls, with the id of the connection.
pub data Effect (J : Type 0) : Type 0 where
  auth_failure auth_success : (id text : String) → Effect J
  mesh_handshake mesh_secure : (id route_dst : String) → J → Effect J
  relayed : (id : String) → Effect J
  rpc_error : (id text : String) (correlation_id code : ℕ) → Effect J
  rpc_reply : (id : String) (correlation_id : ℕ) → Dispatcher.Reply J → Effect J
  message_reply : (id type : String) → J → Effect J
  pong : (id : String) → Effect J
  close : (id : String) → Effect J
  rpc_called : (id : String) → RpcMethod → Effect J
  message_called : (id : String) → RegisteredHandler → Effect J
  tunnel_called : (id : String) → RegisteredHandler → Effect J

-- A DecodedMessage; a field that the payload of its type does not have is not read.
pub record Incoming (J : Type 0) : Type 0 where
  pub message_type : MessageType
  pub correlation_id : ℕ
  pub raw_size : ℕ
  pub route_src : String
  pub route_dst : String
  pub is_mesh : Bool
  pub password_hash : String
  pub client_info : Dict String
  pub method : String
  pub params : Dict J
  pub type : String
  pub contents : J

pub record Server (J T : Type 0) : Type 0 where
  pub name : String
  -- the correlation counter of the encoder that the connections share; a handler of an event makes
  -- no request, so that none draws from it
  pub correlation_counter : ℕ
  pub registry : RpcRegistry
  pub rules : Dict Rule
  pub router : MessageRouter
  pub pool : ConnectionPool Session J
  pub rate_limit_config : RateLimitConfig
  pub connection_limiters : Dict RateLimiter
  pub auth_handler : AuthHandler (Dict String)
  pub credentials_manager : Option CredentialsManager
  pub valid_sessions : Dict (Option String × Option UserProfile)
  pub mesh_tunnels : Dict T
  pub mesh_routing_table : Dict String
  pub heartbeat : HeartbeatManager
  pub log : List (Effect J)

-- The code that the server calls: hashes, the ticks of a second, what types and signatures tell of a
-- handler, the gates, the tunnels, the bytes of a message, and the sender that the heartbeat gets.
pub record Calls (J T : Type 0) : Type 0 where
  pub crypto : Crypto
  pub hz : ℕ
  pub is_none : J → Bool
  pub is_formatted : J → Bool
  pub signature : ℕ → List (Param J)
  pub gate : ℕ → Connection Session J → Bool
  -- `do_handshake` on what is fed, to a new tunnel where there is none
  pub do_handshake : Option T → J → T × Option J
  -- `feed_encrypted`, with the type and the data of the message inside; none is an exception
  pub feed_encrypted : T → J → T × Option (String × J)
  pub write_plaintext : T → String → J → T × J
  pub size_of : Effect J → ℕ
  pub sender : String → ℕ

-- What a message meets: the clock, the random token, and what the application's handlers come to.
pub record Moment (J : Type 0) : Type 0 where
  pub now : ℕ
  pub token : String
  pub run_rpc : RpcMethod → Dict J → Outcome J
  pub run_handler : ℕ → ℕ → Router.Reply J

-- A text that is there and not empty.
abbrev pub truthy : Option String → Option String
truthy none = none
truthy (some t) = if str_eq t "" then none else some t

abbrev pub is_type : MessageType → MessageType → Bool
is_type t u = type_code t == type_code u

module _ {J T : Type 0} where
  abbrev pub emit : Effect J → Server J T → Server J T
  emit e s = record s { log = e ∷ s.log }

  -- The connection that stands at the id is an object that the handlers change.
  abbrev pub put : String → Connection Session J → Server J T → Server J T
  put id c s = record s { pool = record s.pool { connections = insert id c s.pool.connections } }
