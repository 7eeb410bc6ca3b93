-- ===== src/Connection/Examples.antt =====
-- The theorems on connections at concrete inputs.
use net_conduit.Base.{◌+◌, ◌≤◌, ◌<◌, ◌≡◌, ◌↔◌, true, List, [], ◌∷◌, String}
use net_conduit.Protocol.Format
use net_conduit.Connection.{Connection, new_connection, send_rpc_request, wait_for_rpc_response}
use net_conduit.Connection.Pending
use net_conduit.Connection.Pending.{
  Event, request, arrival, first_response, waited_of, run-first_response,
}
use net_conduit.Connection.Pool
use net_conduit.Connection.Pool.{
  PoolCall, adding, removing, new_pool, count, available_slots, add, run-max_connections,
}

-- A connection whose sessions and payloads are strings, after seven requests.
abbrev seventh : Connection String String
unfolding new_connection
seventh = new_connection "c1" "c1" 7

-- A request, two answers to the eighth and one to the ninth.
abbrev some_events : List (Event String)
some_events =
    request 20
    ∷ arrival Format.rpc_response 9 "nine" 30
    ∷ arrival Format.rpc_error 8 "eight" 30
    ∷ arrival Format.rpc_response 8 "again" 30
    ∷ []

run-first_response_example :
    (wait_for_rpc_response
      (send_rpc_request 10 seventh).1
      (Pending.run some_events (send_rpc_request 10 seventh).0)).1
    ≡ waited_of (first_response (send_rpc_request 10 seventh).1 some_events)
run-first_response_example = run-first_response 10 some_events seventh

abbrev some_calls : List (PoolCall String String)
some_calls = adding seventh ∷ adding (record seventh { id = "c2" }) ∷ removing "c1" ∷ []

run-max_connections_example :
    (count (Pool.run some_calls (new_pool 2)) ≤ 2)
    × (count (Pool.run some_calls (new_pool 2)) + available_slots (Pool.run some_calls (new_pool 2))
        ≡ (Pool.run some_calls (new_pool 2)).max_connections)
    × (((add seventh (Pool.run some_calls (new_pool 2))).1 ≡ true)
        ↔ (0 < available_slots (Pool.run some_calls (new_pool 2))))
run-max_connections_example = run-max_connections 2 some_calls seventh
