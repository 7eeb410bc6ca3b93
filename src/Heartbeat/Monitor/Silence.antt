-- ===== src/Heartbeat/Monitor/Silence.antt =====
-- A monitor whose remote side falls silent.
use mathlib.Core.Path.{subst}
use net_conduit.Base.{
  ℕ, ◌+◌, ◌<◌, ◌≡◌, refl, ap, sym, ◌∙◌, true, false, List, [], ◌∷◌, arith, length, All,
}
use net_conduit.Heartbeat.Monitor.{HeartbeatMonitor, heartbeat_round, is_healthy, Call, on_timeout}

-- The rounds of the loop at these times, without a pong between them.
unfoldable pub rounds : List ℕ → HeartbeatMonitor → HeartbeatMonitor
rounds [] m = m
rounds (now ∷ times) m = rounds times (heartbeat_round now m)

abbrev pub timeouts_called : List ℕ → List Call → List Call
timeouts_called [] calls = calls
timeouts_called (now ∷ times) calls = timeouts_called times (on_timeout ∷ calls)

rounds-kept :
    (times : List ℕ) (m : HeartbeatMonitor)
    → ((rounds times m).last_pong_time ≡ m.last_pong_time) × ((rounds times m).timeout ≡ m.timeout)
unfolding rounds heartbeat_round
rounds-kept [] m = (refl, refl)
rounds-kept (now ∷ times) m =
    let rest = rounds-kept times (heartbeat_round now m) in
    (rest.0 ∙ ground arith, rest.1 ∙ ground arith)

-- What has become of `m` at the end `r` of rounds without a pong.
abbrev pub IsSilent : List ℕ → HeartbeatMonitor → HeartbeatMonitor → Type 0
IsSilent times m r =
    (r.stats.pings_sent ≡ m.stats.pings_sent)
    × (r.stats.timeouts ≡ m.stats.timeouts + length times)
    × (r.calls ≡ timeouts_called times m.calls)
    × All (λ now. is_healthy now r ≡ false) times

-- Once the time since the last pong is above the timeout, and while no pong comes: a running monitor
-- with a callback sends no ping any more, and each round is one more timeout and calls `on_timeout`
-- again; the monitor is not healthy at these times.
pub rounds-IsSilent :
    (times : List ℕ) (m : HeartbeatMonitor)
    → m.is_running ≡ true
    → m.has_timeout ≡ true
    → 0 < m.last_pong_time
    → All (λ now. m.last_pong_time + m.timeout < now) times
    → IsSilent times m (rounds times m)
unfolding rounds heartbeat_round is_healthy
rounds-IsSilent [] m running called started late = (refl, omega arith, refl, tt)
rounds-IsSilent (now ∷ times) m running called started (late, later) =
    let m' : HeartbeatMonitor = record m {
      stats = record m.stats { timeouts = m.stats.timeouts + 1 };
      calls = on_timeout ∷ m.calls;
    } in
    let silent : heartbeat_round now m ≡ m' = ground (arith, running, called, late) in
    let ih = rounds-IsSilent times m' running called started later in
    let kept = rounds-kept times m' in
    let unwell : is_healthy now (rounds times m') ≡ false =
      ground (arith, kept.0, kept.1, started, late) in
    subst (IsSilent (now ∷ times) m) (sym (ap (rounds times) silent))
      (ih.0, omega (arith, ih.1), ih.2, (unwell, ih.3))
