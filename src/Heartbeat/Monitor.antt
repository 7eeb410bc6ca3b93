-- ===== src/Heartbeat/Monitor.antt =====
-- conduit/heartbeat/monitor.py: `HeartbeatMonitor`. Times are in milliseconds; the moving average is
-- a parameter, `blend latency average`, and infinity is none. The calls of the callbacks are
-- recorded, the latest first; what they raise is caught and logged.
pub mod Silence
use net_conduit.Base.{
  ℕ, ◌+◌, ◌-◌, ◌==◌, Bool, true, false, not, ◌&&◌, Option, none, some, List, [], ◌∷◌, ltb, leb,
  if◌then◌else◌,
}

pub record HeartbeatStats : Type 0 where
  pub pings_sent : ℕ
  pub pongs_received : ℕ
  pub pongs_sent : ℕ
  pub pings_received : ℕ
  pub last_ping_sent : Option ℕ
  pub last_pong_received : Option ℕ
  pub last_ping_received : Option ℕ
  pub last_pong_sent : Option ℕ
  pub current_latency_ms : ℕ
  pub avg_latency_ms : ℕ
  pub min_latency_ms : Option ℕ
  pub max_latency_ms : ℕ
  pub timeouts : ℕ

-- A call of a callback.
pub data Call : Type 0 where
  on_send_ping on_timeout : Call

pub record HeartbeatMonitor : Type 0 where
  pub timeout : ℕ
  pub has_send_ping : Bool
  pub has_timeout : Bool
  pub is_running : Bool
  pub stats : HeartbeatStats
  pub last_pong_time : ℕ
  pub pending_ping_time : Option ℕ
  pub calls : List Call

abbrev pub no_stats : HeartbeatStats
no_stats = record {
  pings_sent = 0;
  pongs_received = 0;
  pongs_sent = 0;
  pings_received = 0;
  last_ping_sent = none;
  last_pong_received = none;
  last_ping_received = none;
  last_pong_sent = none;
  current_latency_ms = 0;
  avg_latency_ms = 0;
  min_latency_ms = none;
  max_latency_ms = 0;
  timeouts = 0;
}

unfoldable pub new_monitor : ℕ → Bool → Bool → HeartbeatMonitor
new_monitor timeout has_send_ping has_timeout = record {
  timeout = timeout;
  has_send_ping = has_send_ping;
  has_timeout = has_timeout;
  is_running = false;
  stats = no_stats;
  last_pong_time = 0;
  pending_ping_time = none;
  calls = [];
}

abbrev pub set_callbacks : HeartbeatMonitor → HeartbeatMonitor
set_callbacks m = record m { has_send_ping = true; has_timeout = true }

abbrev pub least : Option ℕ → ℕ → Option ℕ
least none x = some x
least (some y) x = if leb y x then some y else some x

-- `start`; none is ValueError
unfoldable pub start : ℕ → HeartbeatMonitor → Option HeartbeatMonitor
start now m =
    if m.is_running
    then some m
    else if m.has_send_ping
    then some (record m { is_running = true; last_pong_time = now })
    else none

unfoldable pub stop : HeartbeatMonitor → HeartbeatMonitor
stop m = record m { is_running = false }

-- One round of `_heartbeat_loop`, after the sleep.
unfoldable pub heartbeat_round : ℕ → HeartbeatMonitor → HeartbeatMonitor
heartbeat_round now m =
    if not m.is_running
    then m
    else if ltb m.timeout (now - m.last_pong_time)
    then record m {
      stats = record m.stats { timeouts = m.stats.timeouts + 1 };
      calls = if m.has_timeout then on_timeout ∷ m.calls else m.calls;
    }
    else record m {
      pending_ping_time = some now;
      stats = record m.stats { pings_sent = m.stats.pings_sent + 1; last_ping_sent = some now };
      calls = if m.has_send_ping then on_send_ping ∷ m.calls else m.calls;
    }

module _ (blend : ℕ → ℕ → ℕ) where
  unfoldable pub record_latency : ℕ → HeartbeatStats → HeartbeatStats
  record_latency latency_ms s = record s {
    current_latency_ms = latency_ms;
    min_latency_ms = least s.min_latency_ms latency_ms;
    max_latency_ms = if leb latency_ms s.max_latency_ms then s.max_latency_ms else latency_ms;
    avg_latency_ms =
        if s.avg_latency_ms == 0 then latency_ms else blend latency_ms s.avg_latency_ms;
  }

  abbrev pub measured : Option ℕ → ℕ → HeartbeatStats → HeartbeatStats
  measured none now s = s
  measured (some sent) now s = record_latency (now - sent) s

  unfoldable pub record_pong : ℕ → HeartbeatMonitor → HeartbeatMonitor
  unfolding record_latency
  record_pong now m = record m {
    last_pong_time = now;
    pending_ping_time = none;
    stats = measured m.pending_ping_time now (record m.stats {
      pongs_received = m.stats.pongs_received + 1;
      last_pong_received = some now;
    });
  }

unfoldable pub record_ping : ℕ → HeartbeatMonitor → HeartbeatMonitor
record_ping now m = record m {
  stats = record m.stats {
    pings_received = m.stats.pings_received + 1;
    last_ping_received = some now;
  };
}

unfoldable pub record_pong_sent : ℕ → HeartbeatMonitor → HeartbeatMonitor
record_pong_sent now m = record m {
  stats = record m.stats { pongs_sent = m.stats.pongs_sent + 1; last_pong_sent = some now };
}

unfoldable pub reset : ℕ → HeartbeatMonitor → HeartbeatMonitor
reset now m = record m { last_pong_time = now; pending_ping_time = none }

abbrev pub time_since_last_pong : ℕ → HeartbeatMonitor → ℕ
time_since_last_pong now m = if m.last_pong_time == 0 then 0 else now - m.last_pong_time

unfoldable pub is_healthy : ℕ → HeartbeatMonitor → Bool
is_healthy now m = ltb (time_since_last_pong now m) m.timeout
