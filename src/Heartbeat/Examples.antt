-- ===== src/Heartbeat/Examples.antt =====
-- The theorems on heartbeats at concrete inputs.
use net_conduit.Base.{ℕ, ◌+◌, ◌≡◌, refl, leb, if◌then◌else◌, true, some, arith, List, [], ◌∷◌}
use net_conduit.Base.Dict.{contains, insert, lookup, erase}
use net_conduit.Heartbeat.{
  HeartbeatManager, new_manager, register, unregister, handle_stale_connection, check_target,
  tick_loop, tick,
}
use net_conduit.Heartbeat.Monitor.{HeartbeatMonitor, no_stats}
use net_conduit.Heartbeat.Monitor.Silence.{IsSilent, rounds, rounds-IsSilent}
use net_conduit.Heartbeat.After.{count_of}
use net_conduit.Heartbeat.Stale.{ticks, overdue_count, ticks-stale_once}

-- Two targets, a timeout of 90 and two missed pings.
abbrev watching : HeartbeatManager
watching = register "bob" 2 60 (register "ann" 1 0 (new_manager 90 2 true))

abbrev some_ticks : List ℕ
some_ticks = 30 ∷ 95 ∷ 120 ∷ 160 ∷ 190 ∷ []

ticks-stale_once_example :
    (count_of "ann" (ticks some_ticks watching).stale
      ≡ count_of "ann" watching.stale
        + (if leb (overdue_count watching.timeout 0 some_ticks) 1 then 0 else 1))
    × (contains "ann" (ticks some_ticks watching).senders
        ≡ leb (overdue_count watching.timeout 0 some_ticks) 1)
unfolding new_manager register insert contains lookup
ticks-stale_once_example =
    ticks-stale_once "ann" 0 1 some_ticks watching (refl, (refl, tt)) refl refl refl refl refl

-- Of the two, "bob" goes stale later.
stale_targets : (ticks some_ticks watching).stale ≡ "bob" ∷ "ann" ∷ []
unfolding ticks tick tick_loop check_target handle_stale_connection unregister new_manager register
    insert contains lookup erase
stale_targets = refl

-- A monitor that has had no pong since 1000, with a timeout of 90.
abbrev waiting : HeartbeatMonitor
waiting = record {
  timeout = 90;
  has_send_ping = true;
  has_timeout = true;
  is_running = true;
  stats = no_stats;
  last_pong_time = 1000;
  pending_ping_time = some 1060;
  calls = [];
}

rounds-IsSilent_example : IsSilent (1120 ∷ 1150 ∷ []) waiting (rounds (1120 ∷ 1150 ∷ []) waiting)
rounds-IsSilent_example =
    rounds-IsSilent (1120 ∷ 1150 ∷ []) waiting refl refl (omega arith)
      (omega arith, (omega arith, tt))
