-- ===== src/Transport/ConnectionState/Examples.antt =====
-- Runs of the connection's state machine.
use net_conduit.Base.{◌≡◌, refl, true, none, some, List, [], ◌∷◌}
use net_conduit.Transport.ConnectionState.{
  ConnectionStateMachine, Method, new_machine, state_in, call, connecting, connected, active,
  start_connecting, start_authenticating, mark_connected, mark_active, pause, start_closing,
  mark_disconnected, mark_failed,
}
use net_conduit.Transport.ConnectionState.Invariant.{
  Op, method, transition, register, remove, restart, run, apply, IsValid, run-IsValid,
  IsValid-new_machine,
}
use net_conduit.Transport.ConnectionState.Paths.{
  calls, reports, Chains, calls_notify, active_through_connected,
}

abbrev script : List Op
script =
    register 7
    ∷ method start_connecting
    ∷ method (mark_failed "refused")
    ∷ method mark_active
    ∷ transition connecting none
    ∷ method pause
    ∷ remove 7
    ∷ restart
    ∷ method start_connecting
    ∷ []

script_ends : (run script new_machine).transition_count ≡ 4
unfolding run apply
script_ends = refl

run-IsValid_example : IsValid (run script new_machine)
run-IsValid_example = run-IsValid script new_machine IsValid-new_machine

abbrev observed : ConnectionStateMachine
observed = record new_machine { callbacks = 7 ∷ [] }

abbrev dial : List Method
dial =
    start_connecting ∷ start_closing ∷ mark_active ∷ mark_disconnected ∷ start_connecting
    ∷ start_authenticating ∷ mark_connected ∷ mark_active ∷ []

calls_notify_example : Chains observed (calls dial observed)
calls_notify_example = calls_notify 7 dial observed refl

active_through_connected_example : reports connected (calls dial observed).1 ≡ true
unfolding state_in calls call
active_through_connected_example = active_through_connected 7 dial observed refl refl refl

-- a machine in use
abbrev live : ConnectionStateMachine
live = record {
  state = active;
  previous_state = some connected;
  callbacks = [];
  transition_count = 4;
  error_message = none;
}
