-- ===== src/Server/Hooks.antt =====
-- What the events of the transport leave alone: the calls of the disconnect hooks, and the sessions
-- that are known by their tokens.
use net_conduit.Base.{
  ◌≡◌, refl, ap, ◌∙◌, Bool, true, false, not, ◌&&◌, Option, List, [], ◌∷◌, String, str_eq, arith,
  Bool-cases, Option-cases, inl, inr,
}
use net_conduit.Base.Dict.{Dict, lookup, lookup-insert}
use net_conduit.Connection.{Connection, handle_decoded_message}
use net_conduit.Connection.Pool
use net_conduit.Connection.Pool.{ConnectionPool}
use net_conduit.Protocol.Format
use net_conduit.Server.{Server, Session, Incoming, Calls, Moment, put, is_type}
use net_conduit.Server.Credentials.{UserProfile}
use net_conduit.Server.Dispatch.{
  process_rpc, process_standard, process_accepted, process_limited, if_passed, limit,
  process_checked, unless_returned, process_connected, process_message,
}
use net_conduit.Server.Events.{
  Event, connect, disconnect, message, stale, process_connect, process_disconnect,
  handle_stale_connection, handle_event, run,
}
use net_conduit.Server.Login.{
  Admission, admitted, refused, failed, process_auth, succeed, fail, decided, checked, resumed,
}
use net_conduit.Server.Mesh.{process_mesh, process_handshake, process_secure, relay}

module _ {J T : Type 0} where
  -- The part of a server's state.
  abbrev frame : Server J T → Dict (Option String × Option UserProfile) × List String
  frame s = (s.valid_sessions, s.pool.disconnect_calls)

module _ {J T : Type 0} (k : Calls J T) where
  process_secure-frame :
      (id : String) (m : Incoming J) (t : Moment J) (s : Server J T)
      → frame (process_secure k id m t s) ≡ frame s
  unfolding process_secure
  process_secure-frame id m t s = ground arith

  process_mesh-frame :
      (id : String) (m : Incoming J) (t : Moment J) (s : Server J T)
      → frame (process_mesh k id m t s).0 ≡ frame s
  unfolding process_mesh process_handshake process_secure relay
  process_mesh-frame id m t s = ground arith

  process_rpc-frame :
      (id : String) (m : Incoming J) (t : Moment J) (c : Connection Session J) (s : Server J T)
      → frame (process_rpc k id m t c s) ≡ frame s
  unfolding process_rpc
  process_rpc-frame id m t c s = ground arith

  process_standard-frame :
      (id : String) (m : Incoming J) (t : Moment J) (c : Connection Session J) (s : Server J T)
      → frame (process_standard k id m t c s) ≡ frame s
  unfolding process_standard
  process_standard-frame id m t c s = ground arith

  process_accepted-frame :
      (id : String) (m : Incoming J) (t : Moment J) (c : Connection Session J) (s : Server J T)
      → frame (process_accepted k id m t c s) ≡ frame s
  unfolding process_accepted
  process_accepted-frame id m t c s =
      ground (arith, process_rpc-frame id m t c s, process_standard-frame id m t c s)

  process_limited-frame :
      (id : String) (m : Incoming J) (t : Moment J) (c : Connection Session J) (s : Server J T)
      → frame (process_limited k id m t c s) ≡ frame s
  unfolding process_limited
  process_limited-frame id m t c s =
      let o = handle_decoded_message m.message_type m.correlation_id m.contents m.raw_size c in
      let go = process_accepted-frame id m t o.0 (put id o.0 s) in ground (arith, go)

  if_passed-frame :
      (id : String) (m : Incoming J) (t : Moment J) (c : Connection Session J)
      (r : Server J T × Bool)
      → frame (if_passed k id m t c r) ≡ frame r.0
  if_passed-frame id m t c (s, true) = process_limited-frame id m t c s
  if_passed-frame id m t c (s, false) = refl

  process_checked-frame :
      (id : String) (m : Incoming J) (t : Moment J) (c : Connection Session J) (s : Server J T)
      → frame (process_checked k id m t c s) ≡ frame s
  unfolding process_checked limit
  process_checked-frame id m t c s =
      let passed = if_passed-frame id m t c (limit k c.id m.raw_size t.now s) in
      let same : frame (limit k c.id m.raw_size t.now s).0 ≡ frame s = ground arith in
      ground (arith, passed ∙ same)

  unless_returned-frame :
      (id : String) (m : Incoming J) (t : Moment J) (c : Connection Session J)
      (r : Server J T × Bool)
      → frame (unless_returned k id m t c r) ≡ frame r.0
  unless_returned-frame id m t c (s, true) = refl
  unless_returned-frame id m t c (s, false) = process_checked-frame id m t c s

  -- Sessions under other tokens, and the calls of the disconnect hooks.
  abbrev IsKept : String → Server J T → Server J T → Type 0
  IsKept j s s' =
      (lookup j s'.valid_sessions ≡ lookup j s.valid_sessions)
      × (s'.pool.disconnect_calls ≡ s.pool.disconnect_calls)

  IsKept-frame : (j : String) (s s' : Server J T) → frame s' ≡ frame s → IsKept j s s'
  IsKept-frame j s s' e = (ap (λ f. lookup j f.0) e, ap (λ f. f.1) e)

  decided-IsKept :
      (j id : String) (m : Incoming J) (t : Moment J) (c : Connection Session J) (a : Admission)
      (s : Server J T)
      → str_eq t.token j ≡ false
      → IsKept j s (decided k id m t c a s)
  unfolding succeed fail Pool.remove
  decided-IsKept j id m t c (refused text) s fresh = (refl, ground arith)
  decided-IsKept j id m t c failed s fresh = (refl, refl)
  decided-IsKept j id m t c (admitted profile) s fresh =
      let other =
        lookup-insert t.token j (lookup "username" m.client_info, profile) s.valid_sessions in
      (ground (arith, other, fresh), refl)

  process_auth-IsKept :
      (j id : String) (m : Incoming J) (t : Moment J) (c : Connection Session J) (s : Server J T)
      → str_eq t.token j ≡ false
      → IsKept j s (process_auth k id m t c s)
  unfolding process_auth succeed
  process_auth-IsKept j id m t c s fresh = elim (Option-cases (resumed k m s)) [
    | inl e ↦ rw (process_auth, e) (decided-IsKept j id m t c (checked k m s) s fresh)
    | inr ((token, profile), e) ↦ rw (process_auth, e) (refl, refl)
  ]

  -- messages of other types
  process_connected-frame :
      (id : String) (m : Incoming J) (t : Moment J) (c : Connection Session J) (s : Server J T)
      → is_type m.message_type Format.auth_request ≡ false
      → frame (process_connected k id m t c s) ≡ frame s
  unfolding process_connected
  process_connected-frame id m t c s other =
      let mesh =
        unless_returned-frame id m t c (process_mesh k id m t s) ∙ process_mesh-frame id m t s in
      let checked = process_checked-frame id m t c s in ground (arith, mesh, checked, other)

  process_connected-IsKept :
      (j id : String) (m : Incoming J) (t : Moment J) (c : Connection Session J) (s : Server J T)
      → str_eq t.token j ≡ false
      → IsKept j s (process_connected k id m t c s)
  unfolding process_connected
  process_connected-IsKept j id m t c s fresh =
      elim (Bool-cases (is_type m.message_type Format.auth_request)) [
        | inl e ↦ rw (process_connected, e) (process_auth-IsKept j id m t c s fresh)
        | inr e ↦
            IsKept-frame j s (process_connected k id m t c s) (process_connected-frame id m t c s e)
      ]

  process_message-IsKept :
      (j id : String) (m : Incoming J) (t : Moment J) (s : Server J T)
      → str_eq t.token j ≡ false
      → IsKept j s (process_message k id m t s)
  unfolding process_message
  process_message-IsKept j id m t s fresh = elim (Option-cases (Pool.get id s.pool)) [
    | inl e ↦ rw (process_message, e) (refl, refl)
    | inr (c, e) ↦ rw (process_message, e) (process_connected-IsKept j id m t c s fresh)
  ]

  -- The token is not the random token of an event.
  unfoldable pub is_fresh : String → List (Event J) → Bool
  is_fresh j [] = true
  is_fresh j (message id m t ∷ es) = not (str_eq t.token j) && is_fresh j es
  is_fresh j (_ ∷ es) = is_fresh j es

  pub run-IsKept :
      (j : String) (es : List (Event J)) (s : Server J T)
      → is_fresh j es ≡ true
      → IsKept j s (run k es s)
  unfolding run handle_event process_connect process_disconnect handle_stale_connection Pool.add
      Pool.remove is_fresh
  run-IsKept j [] s fresh = (refl, refl)
  run-IsKept j (connect id ∷ es) s fresh =
      let rest = run-IsKept j es (process_connect k id s) fresh in (rest.0, rest.1 ∙ ground arith)
  run-IsKept j (disconnect id ∷ es) s fresh =
      let rest = run-IsKept j es (process_disconnect k id s) fresh in
      (rest.0, rest.1 ∙ ground arith)
  run-IsKept j (message id m t ∷ es) s fresh =
      let now = process_message-IsKept j id m t s (ground (arith, fresh)) in
      let rest = run-IsKept j es (process_message k id m t s) (ground (arith, fresh)) in
      (rest.0 ∙ now.0, rest.1 ∙ now.1)
  run-IsKept j (stale id is_connected ∷ es) s fresh =
      let rest = run-IsKept j es (handle_stale_connection k id is_connected s) fresh in
      (rest.0 ∙ ground arith, rest.1 ∙ ground arith)

  decided-hooks :
      (id : String) (m : Incoming J) (t : Moment J) (c : Connection Session J) (a : Admission)
      (s : Server J T)
      → (decided k id m t c a s).pool.disconnect_calls ≡ s.pool.disconnect_calls
  unfolding succeed fail Pool.remove
  decided-hooks id m t c (refused text) s = ground arith
  decided-hooks id m t c failed s = refl
  decided-hooks id m t c (admitted profile) s = refl

  process_message-hooks :
      (id : String) (m : Incoming J) (t : Moment J) (s : Server J T)
      → (process_message k id m t s).pool.disconnect_calls ≡ s.pool.disconnect_calls
  unfolding process_message process_connected process_auth succeed
  process_message-hooks id m t s = elim (Option-cases (Pool.get id s.pool)) [
    | inl e ↦ rw (process_message, e) refl
    | inr (c, e) ↦ elim (Bool-cases (is_type m.message_type Format.auth_request)) [
      | inr e1 ↦
          let same = ap (λ f. f.1) (process_connected-frame id m t c s e1) in
          rw (process_message, e) same
      | inl e1 ↦ elim (Option-cases (resumed k m s)) [
        | inl e2 ↦
            rw (process_message, e, process_connected, e1, process_auth, e2)
              (decided-hooks id m t c (checked k m s) s)
        | inr ((token, profile), e2) ↦
            rw (process_message, e, process_connected, e1, process_auth, e2) refl
      ]
    ]
  ]

  -- Whatever clients connect, send, leave and go stale, the hooks that the application registers by
  -- `on_client_disconnect` are not called: the calls of the disconnect hook stay what they were.
  pub run-disconnect_calls :
      (es : List (Event J)) (s : Server J T)
      → (run k es s).pool.disconnect_calls ≡ s.pool.disconnect_calls
  unfolding run handle_event process_connect process_disconnect handle_stale_connection Pool.add
      Pool.remove
  run-disconnect_calls [] s = refl
  run-disconnect_calls (connect id ∷ es) s =
      run-disconnect_calls es (process_connect k id s) ∙ ground arith
  run-disconnect_calls (disconnect id ∷ es) s =
      run-disconnect_calls es (process_disconnect k id s) ∙ ground arith
  run-disconnect_calls (message id m t ∷ es) s =
      run-disconnect_calls es (process_message k id m t s) ∙ process_message-hooks id m t s
  run-disconnect_calls (stale id is_connected ∷ es) s =
      run-disconnect_calls es (handle_stale_connection k id is_connected s) ∙ ground arith
