-- ===== src/Streaming/Examples.antt =====
-- The theorems on streams at concrete inputs.
use net_conduit.Base.{ℕ, ◌≢◌, true, List, [], ◌∷◌, String, arith, eq_iff}
use net_conduit.Streaming.{BidirectionalStream, Callbacks, new_stream, subscribe, post}
use net_conduit.Streaming.Order.{Action, join, leave, take_one, send, run, IsOrdered, run-IsOrdered}
use net_conduit.Streaming.Manager.{StreamManager, new_manager, write}

abbrev all_callbacks : Callbacks
all_callbacks = record { on_subscribe = true; on_unsubscribe = true; on_data = true }

-- A stream with room for one message, and the same with a subscriber.
abbrev small : BidirectionalStream ℕ
small = new_stream "sensors" "server" "s-1" 1 all_callbacks

abbrev watched : BidirectionalStream ℕ
watched = subscribe "ann" small

abbrev a_script : List (Action ℕ)
a_script =
    join "ann" ∷ send 5 10 ∷ send 6 20 ∷ take_one "ann" ∷ join "bob" ∷ send 7 30 ∷ leave "ann" ∷ []

run-IsOrdered_example :
    IsOrdered (run a_script (new_stream "sensors" "server" "s-1" 1 all_callbacks))
run-IsOrdered_example = run-IsOrdered "sensors" "server" "s-1" 1 all_callbacks a_script

-- Its own queue is full.
abbrev filled : BidirectionalStream ℕ
filled = (post 8 40 small).0

abbrev one_stream : StreamManager ℕ
one_stream = write "sensors" small (new_manager "server")

abbrev first_id : String
first_id = "ann-1"

abbrev second_id : String
second_id = "ann-2"

ids_differ : first_id ≢ second_id
ids_differ h = ground (arith, (eq_iff first_id second_id).1 h)
