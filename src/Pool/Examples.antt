-- ===== src/Pool/Examples.antt =====
-- The theorems on the client pool at concrete inputs.
use net_conduit.Base.{ℕ, ◌≡◌, refl, Bool, true, false, List, [], ◌∷◌}
use net_conduit.Pool.{Client, ClientPool, Strategy, round_robin, least_latency, active}
use net_conduit.Pool.RoundRobin.{next_clients, in_turn, next_clients-in_turn}

abbrev client : ℕ → Bool → Client
client id on = record { id = id; is_connected = on }

abbrev pool : Strategy → List Client → ClientPool
pool strategy clients = record {
  strategy = strategy;
  clients = clients;
  current_index = 1;
  latencies = (0, 40) ∷ (1, 10) ∷ (2, 90) ∷ [];
  stats = record {
    total_connections = 3;
    active_connections = 3;
    requests_sent = 0;
    requests_failed = 0;
  };
}

abbrev turning : ClientPool
turning = pool round_robin (client 7 true ∷ client 8 false ∷ client 9 true ∷ [])

next_clients-in_turn_example :
    next_clients 5 turning ≡ in_turn 5 turning.current_index (client 7 true ∷ client 9 true ∷ [])
unfolding active
next_clients-in_turn_example =
    next_clients-in_turn 5 (client 7 true) (client 9 true ∷ []) turning refl refl

abbrev fast : ClientPool
fast = pool least_latency (client 7 true ∷ client 8 true ∷ [])

abbrev one_lost : ClientPool
one_lost = pool least_latency (client 7 false ∷ client 8 true ∷ client 9 true ∷ [])
