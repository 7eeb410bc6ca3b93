-- ===== src/Backpressure/Signals.antt =====
-- The pause and resume signals that a `FlowController` sends to the other side.
use net_conduit.Base.{
  ℕ, ◌+◌, ◌≡◌, refl, ap, ◌∙◌, Bool, true, false, ◌&&◌, List, [], ◌∷◌, length, arith,
}
use net_conduit.Backpressure.{
  flowing, resuming, FlowController, is_paused, new_controller, check_and_update, trigger_pause,
  trigger_resume, handle_remote_pause, set_enabled, wait_for_resume, resumed, Signal, pause_signal,
  resume_signal,
}

-- The newest signal is a pause where the first argument is true, and a resume or none where it is
-- false; below it they take turns, a pause being the oldest.
abbrev pub take_turns : Bool → List Signal → Bool
take_turns true [] = false
take_turns false [] = true
take_turns true (pause_signal ∷ rest) = take_turns false rest
take_turns true (resume_signal ∷ rest) = false
take_turns false (pause_signal ∷ rest) = false
take_turns false (resume_signal ∷ rest) = take_turns true rest

module _ {ℓ} {R : Type ℓ} (at_most : R → R → Bool) where
  -- Updates, each with its fill ratio and its time.
  unfoldable pub updates : List (R × ℕ) → FlowController R → FlowController R
  updates [] c = c
  updates ((fill, now) ∷ rest) c = updates rest (check_and_update at_most fill now c).0

  -- Both callbacks are given, and the signals say what the state is.
  pub record IsSignalled (c : FlowController R) : Type ℓ where
    callbacks : (c.on_pause && c.on_resume) ≡ true
    settled : elim c.state [ resuming ↦ false | _ ↦ true ] ≡ true
    turns : take_turns (is_paused at_most c) c.sent ≡ true
    counted : length c.sent ≡ c.stats.pause_count + c.stats.resume_count

  update-IsSignalled :
      (fill : R) (now : ℕ) (c : FlowController R)
      → IsSignalled c
      → IsSignalled (check_and_update at_most fill now c).0
  unfolding check_and_update trigger_pause trigger_resume
  update-IsSignalled fill now c v =
      let callbacks = v.callbacks in
      let settled = v.settled in
      let turns = v.turns in
      let counted = v.counted in
      record {
        callbacks = ground arith;
        settled = ground arith;
        turns = ground arith;
        counted = ground arith;
      }

  updates-preserved :
      (calls : List (R × ℕ)) (c : FlowController R) → IsSignalled c → IsSignalled (updates calls c)
  unfolding updates
  updates-preserved [] c v = v
  updates-preserved ((fill, now) ∷ rest) c v =
      updates-preserved rest (check_and_update at_most fill now c).0
        (update-IsSignalled fill now c v)

  -- Where both callbacks are given and only `check_and_update` is called, whatever the fill ratios
  -- are, the signals sent take turns, a pause first; the newest is a pause exactly where the
  -- controller is paused; and each is counted as a pause or a resume.
  pub updates-IsSignalled :
      (high low : R) (is_enabled : Bool) (calls : List (R × ℕ))
      → IsSignalled (updates calls (new_controller at_most high low is_enabled true true))
  unfolding new_controller
  updates-IsSignalled high low is_enabled calls =
      updates-preserved calls (new_controller at_most high low is_enabled true true)
        (record { callbacks = refl; settled = refl; turns = refl; counted = omega arith })

  update_disabled :
      (fill : R) (now : ℕ) (c : FlowController R)
      → c.is_enabled ≡ false
      → (check_and_update at_most fill now c).0 ≡ c
  unfolding check_and_update
  update_disabled fill now c h = ground arith

  updates_disabled :
      (calls : List (R × ℕ)) (c : FlowController R) → c.is_enabled ≡ false → updates calls c ≡ c
  unfolding updates
  updates_disabled [] c h = refl
  updates_disabled ((fill, now) ∷ rest) c h =
      ap (updates rest) (update_disabled fill now c h) ∙ updates_disabled rest c h

  -- Turning a controller off sends nothing, whatever its state was, and nothing is sent by the
  -- updates that follow, while the controller counts as flowing.
  disabled_silent :
      (calls : List (R × ℕ)) (c : FlowController R)
      → ((updates calls (set_enabled at_most false c)).sent ≡ c.sent)
        × ((updates calls (set_enabled at_most false c)).state ≡ flowing)
  unfolding set_enabled
  disabled_silent calls c =
      rw (updates_disabled calls (set_enabled at_most false c) refl) (refl, refl)

  -- A pause that the other side asked for ends at the next update of an enabled controller whose
  -- own queue is at the low watermark or below: the calls that wait go on, and the resume is counted.
  remote_pause_ends :
      (fill : R) (now : ℕ) (fires : Bool) (c : FlowController R)
      → c.is_enabled ≡ true
      → at_most fill c.low_watermark ≡ true
      → (wait_for_resume at_most fires
            (check_and_update at_most fill now (handle_remote_pause at_most c)).0
          ≡ resumed)
        × ((check_and_update at_most fill now (handle_remote_pause at_most c)).0.stats.resume_count
            ≡ c.stats.resume_count + 1)
  unfolding check_and_update trigger_resume handle_remote_pause wait_for_resume
  remote_pause_ends fill now fires c h low = ground arith
