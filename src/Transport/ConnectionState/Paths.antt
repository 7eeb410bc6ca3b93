-- ===== src/Transport/ConnectionState/Paths.antt =====
-- What the callbacks are told, and which states a connection passes through.
use net_conduit.Base.{
  ℕ, ◌+◌, ◌≡◌, refl, Bool, true, false, ◌||◌, List, [], ◌∷◌, ◌++◌, ◌∙◌, ◌⊎◌, inl, inr, arith,
  length,
}
use net_conduit.Transport.ConnectionState.{
  ConnectionState, ConnectionStateMachine, Outcome, done, invalid_transition, Method, Notice,
  disconnected, connecting, authenticating, connected, active, paused, state_in, valid_transitions,
  same_state, call, mark_disconnected, start_closing, mark_closed,
}
use net_conduit.Transport.ConnectionState.Invariant.{settle}

abbrev notices : Outcome → List Notice
notices (done m' ns) = ns
notices (invalid_transition from to) = []

-- The machine after calls of the methods, each of which may be refused, and the calls of callbacks
-- that they made.
unfoldable pub calls : List Method → ConnectionStateMachine → ConnectionStateMachine × List Notice
calls [] m = (m, [])
calls (f ∷ fs) m =
    let rest = calls fs (settle m (call f m)) in (rest.0, notices (call f m) ++ rest.1)

-- The notices lead from one state to the other by transitions of the table.
abbrev pub IsPath : List Notice → ConnectionState → ConnectionState → Type 0
IsPath [] s t = s ≡ t
IsPath (n ∷ ns) s t =
    (n.old_state ≡ s)
    × (state_in n.new_state (valid_transitions s) ≡ true)
    × IsPath ns n.new_state t

-- Some notice reports that the machine entered the state.
unfoldable pub reports : ConnectionState → List Notice → Bool
reports s [] = false
reports s (n ∷ ns) = same_state n.new_state s || reports s ns

abbrev pub Chains : ConnectionStateMachine → ConnectionStateMachine × List Notice → Type 0
Chains m (m', ns) =
    IsPath ns m.state m'.state × (m'.transition_count ≡ m.transition_count + length ns)

call-callbacks :
    (f : Method) (m : ConnectionStateMachine) → (settle m (call f m)).callbacks ≡ m.callbacks
unfolding call
call-callbacks f m = ground arith

Chains-step :
    (c : ℕ) (f : Method) (m : ConnectionStateMachine) (rest : ConnectionStateMachine × List Notice)
    → m.callbacks ≡ c ∷ []
    → Chains (settle m (call f m)) rest
    → Chains m (rest.0, notices (call f m) ++ rest.1)
unfolding call
Chains-step c f m rest h k = ground arith

-- With one callback registered, it is told of every transition, once, in order: the notices lead
-- from the first state to the last along the table, and the count of transitions grows by their
-- number. A refused call and a call for the state that the machine is in make no notice.
pub calls_notify :
    (c : ℕ) (fs : List Method) (m : ConnectionStateMachine)
    → m.callbacks ≡ c ∷ []
    → Chains m (calls fs m)
unfolding calls
calls_notify c [] m h = (refl, omega arith)
calls_notify c (f ∷ fs) m h =
    Chains-step c f m (calls fs (settle m (call f m))) h
      (calls_notify c fs (settle m (call f m)) (call-callbacks f m ∙ h))

-- A state from which nothing can be sent or received yet.
abbrev pub IsBefore : ConnectionState → Type 0
IsBefore s = state_in s (connected ∷ active ∷ paused ∷ []) ≡ false

IsBefore-step :
    (s t : ConnectionState)
    → IsBefore s
    → state_in t (valid_transitions s) ≡ true
    → (same_state t connected ≡ true) ⊎ IsBefore t
unfolding state_in valid_transitions
IsBefore-step disconnected t b h = ground arith
IsBefore-step s t b h = ground arith

not-IsBefore-active : ¬ IsBefore active
unfolding state_in
not-IsBefore-active h = cc

path_through_connected :
    (ns : List Notice) (s : ConnectionState)
    → IsBefore s
    → IsPath ns s active
    → reports connected ns ≡ true
unfolding reports
path_through_connected [] s b p = absurd (not-IsBefore-active (rw p at b))
path_through_connected (n ∷ ns) s b p = elim (IsBefore-step s n.new_state b p.1) [
  | inl here ↦ rw here
  | inr later ↦ ground (arith, path_through_connected ns n.new_state later p.2)
]

-- A machine with one callback that is not CONNECTED, ACTIVE or PAUSED, and that some calls bring
-- to ACTIVE, has told the callback that it entered CONNECTED.
pub active_through_connected :
    (c : ℕ) (fs : List Method) (m : ConnectionStateMachine)
    → m.callbacks ≡ c ∷ []
    → IsBefore m.state
    → (calls fs m).0.state ≡ active
    → reports connected (calls fs m).1 ≡ true
active_through_connected c fs m h b e =
    path_through_connected (calls fs m).1 m.state b (rw e at ((calls_notify c fs m h).0))

-- A machine that is CONNECTING to PAUSED closes by `start_closing`, `mark_closed` and
-- `mark_disconnected`, in three transitions and none of them refused; `mark_disconnected` alone
-- brings it to DISCONNECTED too, in one.
graceful_close :
    (m : ConnectionStateMachine)
    → state_in m.state (connecting ∷ authenticating ∷ connected ∷ active ∷ paused ∷ []) ≡ true
    → let (m', _) = calls (start_closing ∷ mark_closed ∷ mark_disconnected ∷ []) m in
      let (m'', _) = calls (mark_disconnected ∷ []) m in
      (m'.state ≡ disconnected)
      × (m'.transition_count ≡ m.transition_count + 3)
      × (m''.state ≡ disconnected)
      × (m''.transition_count ≡ m.transition_count + 1)
unfolding calls call state_in
graceful_close m h = ground arith
