-- ===== src/Server/Guard/Steps.antt =====
-- What the server does with a message that is let through keeps its log guarded.
use net_conduit.Base.{ℕ, ◌≡◌, refl, true, some, String, arith, Bool-cases, Option-cases, inl, inr}
use net_conduit.Base.Dict.{insert}
use net_conduit.Connection.{Connection, is_authenticated, sent, handle_decoded_message}
use net_conduit.Connection.Pool
use net_conduit.Connection.Pool.{ConnectionPool}
use net_conduit.Messages.Router.{route}
use net_conduit.Protocol.Format
use net_conduit.Rpc.Dispatcher
use net_conduit.Rpc.Dispatcher.{Dispatched, dispatch}
use net_conduit.Server.{
  Server, Session, Incoming, Calls, Moment, Effect, rpc_error, rpc_reply, message_reply, pong,
  message_called, put, is_type,
}
use net_conduit.Server.Dispatch.{
  send, refusal, replied, process_rpc, process_standard, process_accepted, process_limited,
  with_calls,
}
use net_conduit.Server.Guard.{
  has_login, is_due, served_client, is_accounted-lookup, cons-AreSafe, logged-AreSafe,
  with_calls-AreSafe,
}
use net_conduit.Server.Mesh.{logged, answer_of}
use net_conduit.Server.Guard.Login.{IsSafe, put-AreSafe}

module _ {J T : Type 0} (k : Calls J T) where
  -- A send to a client that has logged in.
  send-IsSafe :
      (id : String) (e : Effect J) (s : Server J T)
      → IsSafe s
      → is_due (served_client e) s.log ≡ true
      → IsSafe (send k id e s)
  unfolding sent
  send-IsSafe id e s h due = elim (Option-cases (Pool.get id s.pool)) [
    | inl none_there ↦ rw (send, none_there) (cons-AreSafe e s.log s.pool.connections h due)
    | inr (c, there) ↦
        let kept =
          put-AreSafe id (sent (k.size_of e) c) s h
            (λ a. is_accounted-lookup id c s.log s.pool.connections h.1 there a) in
        rw (send, there)
          (cons-AreSafe e s.log (insert id (sent (k.size_of e) c) s.pool.connections) kept due)
  ]

  replied-IsSafe :
      (id : String) (corr_id : ℕ) (r : Dispatched J (Dispatcher.Reply J)) (s : Server J T)
      → IsSafe s
      → has_login id s.log ≡ true
      → IsSafe (replied k id corr_id r s)
  replied-IsSafe id corr_id r s h due =
      let safe = with_calls-AreSafe id r.calls s.log s.pool.connections h due in
      elim (Option-cases r.reply) [
        | inl e ↦ rw (replied, e) safe.0
        | inr (reply, e) ↦
            rw (replied, e)
              (send-IsSafe id (rpc_reply id corr_id reply)
                (record s { log = with_calls id r.calls s.log }) safe.0 safe.1)
      ]

  process_rpc-IsSafe :
      (id : String) (m : Incoming J) (t : Moment J) (c : Connection Session J) (s : Server J T)
      → IsSafe s
      → has_login id s.log ≡ true
      → IsSafe (process_rpc k id m t c s)
  unfolding process_rpc
  process_rpc-IsSafe id m t c s h due = elim (Option-cases (refusal k m.method c s)) [
    | inl e ↦
        rw (process_rpc, e)
          (replied-IsSafe id m.correlation_id
            (dispatch k.is_formatted k.signature t.run_rpc m.method m.params (is_authenticated c)
              s.registry)
            s h due)
    | inr (text, e) ↦
        rw (process_rpc, e) (send-IsSafe id (rpc_error id text m.correlation_id 403) s h due)
  ]

  process_standard-IsSafe :
      (id : String) (m : Incoming J) (t : Moment J) (c : Connection Session J) (s : Server J T)
      → IsSafe s
      → has_login id s.log ≡ true
      → IsSafe (process_standard k id m t c s)
  unfolding process_standard has_login
  process_standard-IsSafe id m t c s h due =
      let r = route t.run_handler m.type (is_authenticated c) s.router in
      let safe =
        logged-AreSafe (message_called id) r.called (some id) s.log s.pool.connections (λ g. refl)
          (λ g l d. d) h due in
      let s' = record s { log = logged (message_called id) r.called s.log } in
      elim (Option-cases (answer_of k.is_none r)) [
        | inl e ↦ rw (process_standard, e) safe.0
        | inr (x, e) ↦
            rw (process_standard, e) (send-IsSafe id (message_reply id m.type x) s' safe.0 safe.1)
      ]

  process_accepted-IsSafe :
      (id : String) (m : Incoming J) (t : Moment J) (c : Connection Session J) (s : Server J T)
      → IsSafe s
      → has_login id s.log ≡ true
      → IsSafe (process_accepted k id m t c s)
  unfolding process_accepted
  process_accepted-IsSafe id m t c s h due =
      let answer = cons-AreSafe (pong id) s.log s.pool.connections h due in
      let rpc = process_rpc-IsSafe id m t c s h due in
      let standard = process_standard-IsSafe id m t c s h due in
      elim (Bool-cases (is_type m.message_type Format.rpc_request)) [
        | inl e ↦ rw (process_accepted, e) rpc
        | inr e ↦ elim (Bool-cases (is_type m.message_type Format.heartbeat_pong)) [
          | inl e1 ↦ rw (process_accepted, e, e1) h
          | inr e1 ↦ elim (Bool-cases (is_type m.message_type Format.heartbeat_ping)) [
            | inl e2 ↦ rw (process_accepted, e, e1, e2) answer
            | inr e2 ↦ elim (Bool-cases (is_type m.message_type Format.message)) [
              | inl e3 ↦ rw (process_accepted, e, e1, e2, e3) standard
              | inr e3 ↦ rw (process_accepted, e, e1, e2, e3) h
            ]
          ]
        ]
      ]

  -- A response to a request of the server changes the connection's requests only.
  handle-kept :
      (m : Incoming J) (c : Connection Session J)
      → is_authenticated
          (handle_decoded_message m.message_type m.correlation_id m.contents m.raw_size c).0
        ≡ is_authenticated c
  unfolding handle_decoded_message
  handle-kept m c = ground arith

  pub process_limited-IsSafe :
      (id : String) (m : Incoming J) (t : Moment J) (c : Connection Session J) (s : Server J T)
      → IsSafe s
      → has_login id s.log ≡ true
      → IsSafe (process_limited k id m t c s)
  unfolding process_limited
  process_limited-IsSafe id m t c s h due =
      let o = handle_decoded_message m.message_type m.correlation_id m.contents m.raw_size c in
      let h' = put-AreSafe id o.0 s h (λ a. due) in
      let go = process_accepted-IsSafe id m t o.0 (put id o.0 s) h' due in
      elim (Bool-cases o.1) [
        | inl e ↦ rw (process_limited, e) h'
        | inr e ↦ rw (process_limited, e) go
      ]
