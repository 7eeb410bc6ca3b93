-- ===== src/Transport/ConnectionState.antt =====
-- conduit/transport/connection_state.py: the states of a connection, the table of transitions and
-- the methods of `ConnectionStateMachine`. A registered callback is named by a number; a call of a
-- callback is recorded in the order in which it is made. What a callback does is outside the model
-- (its exceptions are caught and logged), and a callback does not call the machine again.
pub mod Invariant
pub mod Paths
pub mod Examples
use net_conduit.Base.{
  ℕ, ◌+◌, String, Bool, true, false, ◌||◌, Option, none, some, List, [], ◌∷◌, ◌++◌, map, ◌==◌,
  if◌then◌else◌,
}

pub data ConnectionState : Type 0 where
  disconnected connecting authenticating connected active paused closing closed failed :
      ConnectionState

-- The values that `auto()` gives; members of the enumeration are equal when these are.
abbrev pub value : ConnectionState → ℕ
value disconnected = 1
value connecting = 2
value authenticating = 3
value connected = 4
value active = 5
value paused = 6
value closing = 7
value closed = 8
value failed = 9

abbrev pub same_state : ConnectionState → ConnectionState → Bool
same_state s t = value s == value t

-- VALID_TRANSITIONS
unfoldable pub valid_transitions : ConnectionState → List ConnectionState
valid_transitions disconnected = connecting ∷ []
valid_transitions connecting = authenticating ∷ connected ∷ failed ∷ disconnected ∷ closing ∷ []
valid_transitions authenticating = connected ∷ failed ∷ disconnected ∷ closing ∷ []
valid_transitions connected = active ∷ failed ∷ disconnected ∷ closing ∷ []
valid_transitions active = paused ∷ closing ∷ disconnected ∷ failed ∷ []
valid_transitions paused = active ∷ closing ∷ disconnected ∷ failed ∷ []
valid_transitions closing = closed ∷ disconnected ∷ []
valid_transitions closed = disconnected ∷ []
valid_transitions failed = disconnected ∷ connecting ∷ []

-- `in` on a set of states, and on the tuples of the state checks
unfoldable pub state_in : ConnectionState → List ConnectionState → Bool
state_in s [] = false
state_in s (t ∷ ts) = same_state s t || state_in s ts

pub record ConnectionStateMachine : Type 0 where
  pub state : ConnectionState
  pub previous_state : Option ConnectionState
  pub callbacks : List ℕ
  pub transition_count : ℕ
  pub error_message : Option String

abbrev pub new_machine : ConnectionStateMachine
new_machine = record {
  state = disconnected;
  previous_state = none;
  callbacks = [];
  transition_count = 0;
  error_message = none;
}

-- A call `callback(old_state, new_state)`.
pub record Notice : Type 0 where
  pub callback : ℕ
  pub old_state : ConnectionState
  pub new_state : ConnectionState

-- A method returns with the new machine and the calls of callbacks that it made, or raises
-- InvalidStateTransition and leaves the machine as it was.
pub data Outcome : Type 0 where
  done : ConnectionStateMachine → List Notice → Outcome
  invalid_transition : ConnectionState → ConnectionState → Outcome

-- the property `error_message`
unfoldable pub shown_error : ConnectionStateMachine → Option String
shown_error m = if same_state m.state failed then m.error_message else none

unfoldable pub can_transition_to : ConnectionStateMachine → ConnectionState → Bool
unfolding state_in valid_transitions
can_transition_to m new_state = state_in new_state (valid_transitions m.state)

abbrev pub notify : ConnectionState → ConnectionState → List ℕ → List Notice
notify old new cs = map (λ c. record { callback = c; old_state = old; new_state = new }) cs

unfoldable pub transition_to : ConnectionState → Option String → ConnectionStateMachine → Outcome
unfolding can_transition_to
transition_to new_state error_message m =
    if same_state new_state m.state
    then done m []
    else if can_transition_to m new_state
    then done
        (record {
          state = new_state;
          previous_state = some m.state;
          callbacks = m.callbacks;
          transition_count = m.transition_count + 1;
          error_message = if same_state new_state failed then error_message else none;
        })
        (notify m.state new_state m.callbacks)
    else invalid_transition m.state new_state

unfoldable pub on_state_change : ℕ → ConnectionStateMachine → ConnectionStateMachine
on_state_change callback m = record m { callbacks = m.callbacks ++ callback ∷ [] }

-- `list.remove`: the first that is equal
abbrev pub remove_first : ℕ → List ℕ → Option (List ℕ)
remove_first c [] = none
remove_first c (d ∷ ds) =
    let rest = remove_first c ds in
    if c == d then some ds else elim rest [ none ↦ none | some es ↦ some (d ∷ es) ]

unfoldable pub remove_callback : ℕ → ConnectionStateMachine → ConnectionStateMachine × Bool
remove_callback callback m = elim (remove_first callback m.callbacks) [
  | none ↦ (m, false)
  | some cs ↦ (record m { callbacks = cs }, true)
]

-- `transition_count` is kept.
unfoldable pub reset : ConnectionStateMachine → ConnectionStateMachine
reset m = record m { state = disconnected; previous_state = none; error_message = none }

-- The methods for common transitions, each with its state.
pub data Method : Type 0 where
  start_connecting start_authenticating mark_connected mark_active pause resume : Method
  start_closing mark_closed mark_disconnected : Method
  mark_failed : String → Method

abbrev pub target : Method → ConnectionState
target start_connecting = connecting
target start_authenticating = authenticating
target mark_connected = connected
target mark_active = active
target pause = paused
target resume = active
target start_closing = closing
target mark_closed = closed
target mark_disconnected = disconnected
target (mark_failed reason) = failed

abbrev pub reason_of : Method → Option String
reason_of (mark_failed reason) = some reason
reason_of _ = none

unfoldable pub call : Method → ConnectionStateMachine → Outcome
unfolding transition_to
call method m = transition_to (target method) (reason_of method) m

unfoldable pub is_connected : ConnectionStateMachine → Bool
unfolding state_in
is_connected m = state_in m.state (connected ∷ active ∷ paused ∷ [])

unfoldable pub is_active : ConnectionStateMachine → Bool
is_active m = same_state m.state active

unfoldable pub is_paused : ConnectionStateMachine → Bool
is_paused m = same_state m.state paused

unfoldable pub can_send : ConnectionStateMachine → Bool
can_send m = same_state m.state active

unfoldable pub can_receive : ConnectionStateMachine → Bool
unfolding state_in
can_receive m = state_in m.state (active ∷ paused ∷ [])
