-- ===== src/Transport/ConnectionState/Invariant.antt =====
-- What holds of a `ConnectionStateMachine` through every sequence of calls.
use net_conduit.Base.{
  ℕ, ◌≤◌, String, ◌≡◌, refl, true, Option, none, some, List, [], ◌∷◌, arith, is_some,
}
use net_conduit.Transport.ConnectionState.{
  ConnectionState, ConnectionStateMachine, Outcome, done, invalid_transition, Method, new_machine,
  disconnected, failed, state_in, valid_transitions, same_state, transition_to, on_state_change,
  remove_callback, reset, call,
}

-- A call on a machine.
pub data Op : Type 0 where
  method : Method → Op
  transition : ConnectionState → Option String → Op
  register remove : ℕ → Op
  restart : Op

-- The machine after a call; one that raised has changed nothing.
abbrev pub settle : ConnectionStateMachine → Outcome → ConnectionStateMachine
settle m (done m' calls) = m'
settle m (invalid_transition from to) = m

unfoldable pub apply : Op → ConnectionStateMachine → ConnectionStateMachine
unfolding call transition_to on_state_change remove_callback reset
apply (method f) m = settle m (call f m)
apply (transition s e) m = settle m (transition_to s e m)
apply (register c) m = on_state_change c m
apply (remove c) m = (remove_callback c m).0
apply restart m = reset m

unfoldable pub run : List Op → ConnectionStateMachine → ConnectionStateMachine
run [] m = m
run (op ∷ ops) m = run ops (apply op m)

-- The last step was one of the table.
abbrev pub CameBy : Option ConnectionState → ConnectionState → Type 0
CameBy none s = s ≡ disconnected
CameBy (some p) s = state_in s (valid_transitions p) ≡ true

pub record IsValid (m : ConnectionStateMachine) : Type 0 where
  pub came : CameBy m.previous_state m.state
  pub error : is_some m.error_message ≡ true → m.state ≡ failed
  pub counted : is_some m.previous_state ≡ true → 1 ≤ m.transition_count

eq_failed : (s : ConnectionState) → same_state s failed ≡ true → s ≡ failed
eq_failed failed h = refl
eq_failed s h = cc

transition_to-IsValid :
    (s : ConnectionState) (e : Option String) (m : ConnectionStateMachine)
    → IsValid m
    → IsValid (settle m (transition_to s e m))
unfolding transition_to
transition_to-IsValid s e m h = ground (arith, eq_failed s)

apply-IsValid : (op : Op) (m : ConnectionStateMachine) → IsValid m → IsValid (apply op m)
unfolding apply
apply-IsValid (method f) m h = ground (arith, transition_to-IsValid _ _ m h)
apply-IsValid (transition s e) m h = transition_to-IsValid s e m h
apply-IsValid (register c) m h = record { came = h.came; error = h.error; counted = h.counted }
apply-IsValid (remove c) m h = ground arith
apply-IsValid restart m h = ground arith

-- From a valid machine, every sequence of calls, refused ones included, leads to a valid machine:
-- the last step taken is one of the table, an error message is held only in FAILED, and the count
-- of transitions is positive after a step.
pub run-IsValid : (ops : List Op) (m : ConnectionStateMachine) → IsValid m → IsValid (run ops m)
unfolding run
run-IsValid [] m h = h
run-IsValid (op ∷ ops) m h = run-IsValid ops (apply op m) (apply-IsValid op m h)

pub IsValid-new_machine : IsValid new_machine
IsValid-new_machine = record { came = refl; error = λ e. cc; counted = λ e. cc }
