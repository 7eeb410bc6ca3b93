-- ===== src/Backpressure/Examples.antt =====
-- The theorems on the flow controller at concrete inputs.
use net_conduit.Base.{ℕ, true, false, List, [], ◌∷◌, leb}
use net_conduit.Backpressure.{FlowController, Action, new_controller, update, remote_pause, enable}
use net_conduit.Backpressure.Signals.{updates, IsSignalled, updates-IsSignalled}

-- Fill ratios in percent: up to the high watermark, between the two, and down.
abbrev rise_and_fall : List (ℕ × ℕ)
rise_and_fall = (85, 10) ∷ (60, 20) ∷ (40, 30) ∷ []

abbrev percent_controller : FlowController ℕ
percent_controller = new_controller leb 80 50 true true true

abbrev some_actions : List (Action leb)
some_actions = update 90 10 ∷ remote_pause ∷ update 30 20 ∷ enable false ∷ []

updates-IsSignalled_example : IsSignalled leb (updates leb rise_and_fall percent_controller)
updates-IsSignalled_example = updates-IsSignalled leb 80 50 true rise_and_fall
