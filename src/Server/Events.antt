-- ===== src/Server/Events.antt =====
-- conduit/server.py: `Server._handle_rust_event` for connections and messages, `Server.rpc`,
-- `Server.on` and `_handle_stale_connection`.
use net_conduit.Base.{Bool, List, [], ◌∷◌, String, if◌then◌else◌}
use net_conduit.Connection.{new_connection}
use net_conduit.Connection.Pool
use net_conduit.Heartbeat
use net_conduit.Server.{Server, Incoming, Calls, Moment, close, emit}
use net_conduit.Server.Dispatch.{process_message}

-- What the Rust transport tells of, and a client that the heartbeat finds stale.
pub data Event (J : Type 0) : Type 0 where
  connect : (id : String) → Event J
  disconnect : (id : String) → Event J
  message : (id : String) → Incoming J → Moment J → Event J
  stale : (id : String) (is_connected : Bool) → Event J

module _ {J T : Type 0} (k : Calls J T) where
  -- the id of a connection is that of its client
  unfoldable pub process_connect : String → Server J T → Server J T
  process_connect id s = record s {
    pool = (Pool.add (new_connection id id s.correlation_counter) s.pool).0;
  }

  unfoldable pub process_disconnect : String → Server J T → Server J T
  process_disconnect id s = record s {
    heartbeat = Heartbeat.unregister id s.heartbeat;
    pool = (Pool.remove id s.pool).0;
  }

  unfoldable pub handle_stale_connection : String → Bool → Server J T → Server J T
  unfolding process_disconnect
  handle_stale_connection id is_connected s =
      let s' = record s { heartbeat = Heartbeat.unregister id s.heartbeat } in
      process_disconnect id (if is_connected then emit (close id) s' else s')

  unfoldable pub handle_event : Event J → Server J T → Server J T
  unfolding process_connect process_disconnect handle_stale_connection
  handle_event (connect id) s = process_connect id s
  handle_event (disconnect id) s = process_disconnect id s
  handle_event (message id m t) s = process_message k id m t s
  handle_event (stale id is_connected) s = handle_stale_connection id is_connected s

  unfoldable pub run : List (Event J) → Server J T → Server J T
  unfolding handle_event
  run [] s = s
  run (e ∷ es) s = run es (handle_event e s)
