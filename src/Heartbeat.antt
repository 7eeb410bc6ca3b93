-- ===== src/Heartbeat.antt =====
-- conduit/heartbeat/manager.py: `HeartbeatManager`. Times are readings of the monotonic clock. A ping
-- that is sent and a call of `on_stale` are recorded, the newest first; what they raise is caught
-- and logged. What the callback `on_stale` does to the manager is a function that the ticks take;
-- `handle_stale_connection` is the one of conduit/server.py.
mod After
mod Turn
pub mod Stale
pub mod Monitor
pub mod Examples
use net_conduit.Base.{
  ℕ, zero, suc, ◌+◌, ◌-◌, Bool, true, false, ◌&&◌, Option, none, some, List, [], ◌∷◌, String, ltb,
  leb, if◌then◌else◌,
}
use net_conduit.Base.Dict.{Dict, lookup, contains, insert, erase}

-- `has_on_stale` says that the callback is given; a sender is named by a number.
pub record HeartbeatManager : Type 0 where
  pub timeout : ℕ
  pub max_missed : ℕ
  pub has_on_stale : Bool
  pub last_pong : Dict ℕ
  pub missed : Dict ℕ
  pub senders : Dict ℕ
  pub pinged : List String
  pub stale : List String

unfoldable pub new_manager : ℕ → ℕ → Bool → HeartbeatManager
new_manager timeout max_missed has_on_stale = record {
  timeout = timeout;
  max_missed = max_missed;
  has_on_stale = has_on_stale;
  last_pong = [];
  missed = [];
  senders = [];
  pinged = [];
  stale = [];
}

unfoldable pub register : String → ℕ → ℕ → HeartbeatManager → HeartbeatManager
register target_id send_fn now m = record m {
  last_pong = insert target_id now m.last_pong;
  missed = insert target_id 0 m.missed;
  senders = insert target_id send_fn m.senders;
}

unfoldable pub unregister : String → HeartbeatManager → HeartbeatManager
unregister target_id m = record m {
  last_pong = erase target_id m.last_pong;
  missed = erase target_id m.missed;
  senders = erase target_id m.senders;
}

-- a target that is not registered gets its entries too
unfoldable pub record_pong : String → ℕ → HeartbeatManager → HeartbeatManager
record_pong target_id now m = record m {
  last_pong = insert target_id now m.last_pong;
  missed = insert target_id 0 m.missed;
}

-- d.get(k, default)
abbrev pub get_or : Option ℕ → ℕ → ℕ
get_or none d = d
get_or (some n) d = n

abbrev alive_at : ℕ → ℕ → Option ℕ → Bool
alive_at now timeout none = false
alive_at now timeout (some last) = ltb (now - last) timeout

unfoldable pub is_alive : String → ℕ → HeartbeatManager → Bool
is_alive target_id now m = alive_at now m.timeout (lookup target_id m.last_pong)

abbrev pub missed_of : String → HeartbeatManager → ℕ
missed_of t m = get_or (lookup t m.missed) 0

-- age > timeout
abbrev pub is_overdue : String → ℕ → HeartbeatManager → Bool
is_overdue t now m = ltb m.timeout (now - get_or (lookup t m.last_pong) now)

-- What the server's `_handle_stale_connection`, and `_process_disconnect` that it calls, do to the
-- manager.
unfoldable pub handle_stale_connection : String → HeartbeatManager → HeartbeatManager
unfolding unregister
handle_stale_connection client_id m = unregister client_id (unregister client_id m)

-- One target in the loop of `_tick`: the ping, and then the test of its age.
unfoldable pub check_target :
    (String → HeartbeatManager → HeartbeatManager)
    → ℕ
    → String
    → HeartbeatManager
    → HeartbeatManager
check_target on_stale now t m =
    let sent = record m { pinged = t ∷ m.pinged } in
    let counted = record sent { missed = insert t (missed_of t m + 1) m.missed } in
    if is_overdue t now m
    then if leb m.max_missed (missed_of t m + 1) && m.has_on_stale
      then on_stale t (record counted { stale = t ∷ m.stale })
      else counted
    else sent

unfoldable pub tick_loop :
    (String → HeartbeatManager → HeartbeatManager)
    → ℕ
    → Dict ℕ
    → HeartbeatManager
    → HeartbeatManager
unfolding check_target
tick_loop on_stale now [] m = m
tick_loop on_stale now ((t, send_fn) ∷ rest) m =
    tick_loop on_stale now rest (check_target on_stale now t m)

-- the loop runs over a copy of the targets
unfoldable pub tick :
    (String → HeartbeatManager → HeartbeatManager) → ℕ → HeartbeatManager → HeartbeatManager
unfolding tick_loop
tick on_stale now m = tick_loop on_stale now m.senders m
