-- ===== src/Server/Guard/Run.antt =====
-- Every event keeps the log of a server guarded.
use net_conduit.Base.{
  ℕ, ◌≡◌, refl, ap, ◌∙◌, Bool, true, false, List, [], ◌∷◌, String, Bool-cases, Option-cases, inl,
  inr,
}
use net_conduit.Connection.{Connection, is_authenticated}
use net_conduit.Connection.Pool
use net_conduit.Connection.Pool.{ConnectionPool}
use net_conduit.Protocol.Format
use net_conduit.Server.{Server, Session, Incoming, Calls, Moment, close, is_type}
use net_conduit.Server.Dispatch.{
  if_passed, limit, process_checked, unless_returned, process_connected, process_message,
}
use net_conduit.Server.Events.{
  Event, connect, disconnect, message, stale, process_connect, process_disconnect,
  handle_stale_connection, handle_event, run,
}
use net_conduit.Server.Guard.{
  IsDue, has_login, is_guarded, is_accounted, is_accounted-lookup, cons-AreSafe,
}
use net_conduit.Server.Mesh.{process_mesh}
use net_conduit.Server.Guard.Login.{IsSafe, remove-AreSafe, add-AreSafe, process_auth-IsSafe}
use net_conduit.Server.Guard.Mesh.{process_mesh-IsSafe, process_mesh-kept}
use net_conduit.Server.Guard.Steps.{process_limited-IsSafe}

module _ {J T : Type 0} (k : Calls J T) where
  limit-IsSafe :
      (id : String) (size now : ℕ) (s : Server J T)
      → IsSafe s
      → IsSafe (limit k id size now s).0 × ((limit k id size now s).0.log ≡ s.log)
  unfolding limit
  limit-IsSafe id size now s h = elim (Bool-cases s.rate_limit_config.enabled) [
    | inl e ↦ rw (limit, e) (h, refl)
    | inr e ↦ rw (limit, e) (h, refl)
  ]

  if_passed-IsSafe :
      (id : String) (m : Incoming J) (t : Moment J) (c : Connection Session J)
      (r : Server J T × Bool)
      → IsSafe r.0
      → has_login id r.0.log ≡ true
      → IsSafe (if_passed k id m t c r)
  if_passed-IsSafe id m t c (s, true) h due = process_limited-IsSafe k id m t c s h due
  if_passed-IsSafe id m t c (s, false) h due = h

  process_checked-IsSafe :
      (id : String) (m : Incoming J) (t : Moment J) (c : Connection Session J) (s : Server J T)
      → IsSafe s
      → IsDue id c s.log
      → IsSafe (process_checked k id m t c s)
  unfolding process_checked
  process_checked-IsSafe id m t c s h due =
      let o = limit-IsSafe c.id m.raw_size t.now s h in
      elim (Bool-cases (is_authenticated c)) [
        | inr e ↦ rw (process_checked, e) h
        | inl e ↦
            rw (process_checked, e)
              (if_passed-IsSafe id m t c (limit k c.id m.raw_size t.now s) o.0
                (ap (λ l. has_login id l) o.1 ∙ due e))
      ]

  unless_returned-IsSafe :
      (id : String) (m : Incoming J) (t : Moment J) (c : Connection Session J)
      (r : Server J T × Bool)
      → IsSafe r.0
      → (r.1 ≡ false → IsDue id c r.0.log)
      → IsSafe (unless_returned k id m t c r)
  unless_returned-IsSafe id m t c (s, true) h due = h
  unless_returned-IsSafe id m t c (s, false) h due = process_checked-IsSafe id m t c s h (due refl)

  process_connected-IsSafe :
      (id : String) (m : Incoming J) (t : Moment J) (c : Connection Session J) (s : Server J T)
      → IsSafe s
      → IsDue id c s.log
      → IsSafe (process_connected k id m t c s)
  unfolding process_connected
  process_connected-IsSafe id m t c s h due =
      elim (Bool-cases (is_type m.message_type Format.auth_request)) [
        | inl e ↦ rw (process_connected, e) (process_auth-IsSafe k id m t c s h)
        | inr e ↦ elim (Bool-cases m.is_mesh) [
          | inl e1 ↦
              rw (process_connected, e, e1)
                (unless_returned-IsSafe id m t c (process_mesh k id m t s)
                  (process_mesh-IsSafe k id m t s h)
                  (λ f a. ap (λ l. has_login id l) (process_mesh-kept k id m t s f) ∙ due a))
          | inr e1 ↦ rw (process_connected, e, e1) (process_checked-IsSafe id m t c s h due)
        ]
      ]

  process_message-IsSafe :
      (id : String) (m : Incoming J) (t : Moment J) (s : Server J T)
      → IsSafe s
      → IsSafe (process_message k id m t s)
  unfolding process_message
  process_message-IsSafe id m t s h = elim (Option-cases (Pool.get id s.pool)) [
    | inl e ↦ rw (process_message, e) h
    | inr (c, e) ↦
        rw (process_message, e)
          (process_connected-IsSafe id m t c s h
            (λ a. is_accounted-lookup id c s.log s.pool.connections h.1 e a))
  ]

  stale-IsSafe :
      (id : String) (is_connected : Bool) (s : Server J T)
      → IsSafe s
      → IsSafe (handle_stale_connection k id is_connected s)
  unfolding handle_stale_connection process_disconnect
  stale-IsSafe id false s h = remove-AreSafe id s.log s.pool h
  stale-IsSafe id true s h =
      remove-AreSafe id (close id ∷ s.log) s.pool
        (cons-AreSafe (close id) s.log s.pool.connections h refl)

  handle_event-IsSafe : (e : Event J) (s : Server J T) → IsSafe s → IsSafe (handle_event k e s)
  unfolding handle_event process_connect process_disconnect
  handle_event-IsSafe (connect id) s h = add-AreSafe id s.correlation_counter s.log s.pool h
  handle_event-IsSafe (disconnect id) s h = remove-AreSafe id s.log s.pool h
  handle_event-IsSafe (message id m t) s h = process_message-IsSafe id m t s h
  handle_event-IsSafe (stale id is_connected) s h = stale-IsSafe id is_connected s h

  run-IsSafe : (es : List (Event J)) (s : Server J T) → IsSafe s → IsSafe (run k es s)
  unfolding run
  run-IsSafe [] s h = h
  run-IsSafe (e ∷ es) s h = run-IsSafe es (handle_event k e s) (handle_event-IsSafe e s h)

  -- Whatever clients connect, send, and leave, and whatever the handlers of the application do: from
  -- a server without connections, every RPC and message handler that is called for a client, and
  -- every answer to its RPCs, messages and pings, comes after a successful login of that client. What
  -- comes out of mesh tunnels is apart.
  pub run-is_guarded :
      (es : List (Event J)) (s : Server J T)
      → s.log ≡ []
      → s.pool.connections ≡ []
      → is_guarded (run k es s).log ≡ true
  unfolding is_guarded is_accounted
  run-is_guarded es s no_log no_connections =
      (run-IsSafe es s (rw (no_log, no_connections) (refl, refl))).0
