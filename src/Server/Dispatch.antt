-- ===== src/Server/Dispatch.antt =====
-- conduit/server.py: `Server._process_message`, and the parts of it for rate limits, RPC requests and
-- messages.
use Prim.Native.String.{◌++◌ as append_text}
use net_conduit.Base.{
  ℕ, Bool, true, false, not, Option, none, some, List, [], ◌∷◌, String, if◌then◌else◌,
}
use net_conduit.Base.Dict.{Dict, lookup, insert}
use net_conduit.Connection.{Connection, is_authenticated, sent, handle_decoded_message}
use net_conduit.Connection.Pool
use net_conduit.Connection.Pool.{is_among}
use net_conduit.Heartbeat
use net_conduit.Messages.Router.{route}
use net_conduit.Protocol.Format
use net_conduit.RateLimit.{RateLimiter, create_limiter, try_acquire}
use net_conduit.Rpc.Dispatcher
use net_conduit.Rpc.Dispatcher.{Dispatched, dispatch}
use net_conduit.Rpc.Registry
use net_conduit.Rpc.Registry.{RpcMethod}
use net_conduit.Server.{
  Server, Session, Rule, Incoming, Calls, Moment, Effect, rpc_error, rpc_reply, rpc_called,
  message_called, message_reply, pong, emit, put, truthy, is_type,
}
use net_conduit.Server.Credentials.{UserProfile}
use net_conduit.Server.Login.{process_auth}
use net_conduit.Server.Mesh.{process_mesh, logged, answer_of}

-- The calls of RPC handlers, in the log.
abbrev pub with_calls :
    {J : Type 0} → String → List (RpcMethod × Dict J) → List (Effect J) → List (Effect J)
with_calls id [] log = log
with_calls id ((m, params) ∷ rest) log = with_calls id rest (rpc_called id m ∷ log)

-- The connection's session has a profile with an element in one of its sets.
abbrev pub profile_has : (UserProfile → List String) → String → Option Session → Bool
profile_has of x none = false
profile_has of x (some session) = elim session.profile [ none ↦ false | some p ↦ is_among x (of p) ]

-- A requirement of a method: none where it is met, or else the text of the error.
abbrev pub missing :
    String → (UserProfile → List String) → Option String → Option Session → Option String
missing what of none session = none
missing what of (some x) session =
    if profile_has of x session
    then none
    else some (
        append_text "Required "
          (append_text what (append_text " '" (append_text x "' is missing"))))

module _ {J T : Type 0} (k : Calls J T) where
  abbrev pub limiter_of : String → ℕ → Server J T → RateLimiter
  limiter_of id now s = elim (lookup id s.connection_limiters) [
    | none ↦ create_limiter k.hz now s.rate_limit_config
    | some l ↦ l
  ]

  -- the state, and whether the message is let through
  unfoldable pub limit : String → ℕ → ℕ → Server J T → Server J T × Bool
  limit id size now s =
      let (l, passes) = try_acquire k.hz size now (limiter_of id now s) in
      if s.rate_limit_config.enabled
      then (record s { connection_limiters = insert id l s.connection_limiters }, passes)
      else (s, true)

  -- A send by the connection, which counts it.
  abbrev pub send : String → Effect J → Server J T → Server J T
  send id e s = elim (Pool.get id s.pool) as (λ _. Server J T) [
    | none ↦ emit e s
    | some c ↦ emit e (put id (sent (k.size_of e) c) s)
  ]

  abbrev pub blocked_by_gate : Option ℕ → Connection Session J → Bool
  blocked_by_gate none c = false
  blocked_by_gate (some g) c = not (k.gate g c)

  abbrev pub refusal_by : Rule → Connection Session J → Option String
  refusal_by rule c =
      if blocked_by_gate rule.gate c
      then some "Access denied by gating rules"
      else elim (missing "role" (λ p. p.roles) (truthy rule.requires_role) c.session) [
        | some text ↦ some text
        | none ↦
            missing "permission" (λ p. p.permissions) (truthy rule.requires_permission) c.session
      ]

  unfoldable pub refusal : String → Connection Session J → Server J T → Option String
  refusal method c s = elim (Registry.get method s.registry) [
    | none ↦ none
    | some m ↦ elim (lookup method s.rules) [ none ↦ none | some rule ↦ refusal_by rule c ]
  ]

  -- a cancellation sends no answer
  abbrev pub replied : String → ℕ → Dispatched J (Dispatcher.Reply J) → Server J T → Server J T
  replied id corr_id r s =
      let s' = record s { log = with_calls id r.calls s.log } in
      elim r.reply as (λ _. Server J T) [
        | none ↦ s'
        | some reply ↦ send id (rpc_reply id corr_id reply) s'
      ]

  unfoldable pub process_rpc :
      String → Incoming J → Moment J → Connection Session J → Server J T → Server J T
  unfolding refusal
  process_rpc id m t c s = elim (refusal m.method c s) as (λ _. Server J T) [
    | some text ↦ send id (rpc_error id text m.correlation_id 403) s
    | none ↦
        replied id m.correlation_id
          (dispatch k.is_formatted k.signature t.run_rpc m.method m.params (is_authenticated c)
            s.registry)
          s
  ]

  abbrev pub answered : String → String → Option J → Server J T → Server J T
  answered id type none s = s
  answered id type (some response) s = send id (message_reply id type response) s

  unfoldable pub process_standard :
      String → Incoming J → Moment J → Connection Session J → Server J T → Server J T
  process_standard id m t c s =
      let r = route t.run_handler m.type (is_authenticated c) s.router in
      answered id m.type (answer_of k.is_none r)
        (record s { log = logged (message_called id) r.called s.log })

  -- RPC requests, the heartbeat, and messages
  unfoldable pub process_accepted :
      String → Incoming J → Moment J → Connection Session J → Server J T → Server J T
  unfolding process_rpc process_standard
  process_accepted id m t c s =
      if is_type m.message_type Format.rpc_request
      then process_rpc id m t c s
      else if is_type m.message_type Format.heartbeat_pong
      then record s { heartbeat = Heartbeat.record_pong id t.now s.heartbeat }
      else if is_type m.message_type Format.heartbeat_ping
      then emit (pong id) s
      else if is_type m.message_type Format.message
      then process_standard id m t c s
      else s

  -- a message that is let through; responses to the server's own requests go no further
  unfoldable pub process_limited :
      String → Incoming J → Moment J → Connection Session J → Server J T → Server J T
  unfolding process_accepted
  process_limited id m t c s =
      let (c', intercepted) =
        handle_decoded_message m.message_type m.correlation_id m.contents m.raw_size c in
      let s' = put id c' s in if intercepted then s' else process_accepted id m t c' s'

  abbrev pub if_passed :
      String → Incoming J → Moment J → Connection Session J → Server J T × Bool → Server J T
  if_passed id m t c (s, true) = process_limited id m t c s
  if_passed id m t c (s, false) = s

  unfoldable pub process_checked :
      String → Incoming J → Moment J → Connection Session J → Server J T → Server J T
  unfolding limit process_limited
  process_checked id m t c s =
      if is_authenticated c then if_passed id m t c (limit c.id m.raw_size t.now s) else s

  abbrev pub unless_returned :
      String → Incoming J → Moment J → Connection Session J → Server J T × Bool → Server J T
  unless_returned id m t c (s, true) = s
  unless_returned id m t c (s, false) = process_checked id m t c s

  unfoldable pub process_connected :
      String → Incoming J → Moment J → Connection Session J → Server J T → Server J T
  unfolding process_checked process_auth process_mesh
  process_connected id m t c s =
      if is_type m.message_type Format.auth_request
      then process_auth k id m t c s
      else if m.is_mesh
      then unless_returned id m t c (process_mesh k id m t s)
      else process_checked id m t c s

  -- `_process_message`
  unfoldable pub process_message : String → Incoming J → Moment J → Server J T → Server J T
  unfolding process_connected
  process_message id m t s = elim (Pool.get id s.pool) as (λ _. Server J T) [
    | none ↦ s
    | some c ↦ process_connected id m t c s
  ]
