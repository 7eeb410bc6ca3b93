-- ===== src/Backpressure/Invariant.antt =====
-- What holds of a `FlowController` after any calls.
use net_conduit.Base.{
  ◌≤◌, ◌≡◌, ◌↔◌, refl, Bool, true, false, not, List, [], ◌∷◌, arith, if◌then◌else◌,
}
use net_conduit.Backpressure.{
  resuming, FlowController, Action, apply, run, is_paused, new_controller, check_and_update,
  trigger_pause, trigger_resume, handle_remote_pause, handle_remote_resume, set_enabled, reset,
  update, remote_pause, remote_resume, stop, enable, wait_for_resume, resumed,
}

module _ {ℓ} {R : Type ℓ} (at_most : R → R → Bool) where
  -- The event is set exactly where the controller is not paused, the state is one of FLOWING and
  -- PAUSED, and the pauses are at least as many as a pause that stands.
  pub record IsConsistent (c : FlowController R) : Type ℓ where
    event : c.paused_event ≡ not (is_paused at_most c)
    settled : elim c.state [ resuming ↦ false | _ ↦ true ] ≡ true
    counted : (if is_paused at_most c then 1 else 0) ≤ c.stats.pause_count

  apply-IsConsistent :
      (a : Action at_most) (c : FlowController R)
      → IsConsistent c
      → IsConsistent (apply at_most a c)
  unfolding apply check_and_update trigger_pause trigger_resume handle_remote_pause
      handle_remote_resume set_enabled reset
  apply-IsConsistent (update fill now) c v = record {
    event = ground (arith, v.event);
    settled = ground (arith, v.settled);
    counted = ground (arith, v.counted);
  }
  apply-IsConsistent remote_pause c v = record {
    event = refl;
    settled = refl;
    counted = omega arith;
  }
  apply-IsConsistent remote_resume c v = record {
    event = refl;
    settled = refl;
    counted = omega arith;
  }
  apply-IsConsistent stop c v = record { event = refl; settled = refl; counted = omega arith }
  apply-IsConsistent (enable true) c v = record {
    event = v.event;
    settled = v.settled;
    counted = v.counted;
  }
  apply-IsConsistent (enable false) c v = record {
    event = refl;
    settled = refl;
    counted = omega arith;
  }

  run-preserved :
      (actions : List (Action at_most)) (c : FlowController R)
      → IsConsistent c
      → IsConsistent (run at_most actions c)
  unfolding run
  run-preserved [] c v = v
  run-preserved (a ∷ rest) c v = run-preserved rest (apply at_most a c) (apply-IsConsistent a c v)

  -- After any calls on a new controller, the event is set exactly where the controller is not
  -- paused, the state is not RESUMING and a standing pause is counted; and `wait_for_resume`
  -- answers True where the controller is not paused, and there only.
  run-IsConsistent :
      (high low : R) (is_enabled on_pause on_resume fires : Bool) (actions : List (Action at_most))
      → IsConsistent
          (run at_most actions (new_controller at_most high low is_enabled on_pause on_resume))
        × ((wait_for_resume at_most fires (
                run at_most actions (new_controller at_most high low is_enabled on_pause on_resume))
              ≡ resumed)
            ↔ (is_paused at_most (
                  run at_most actions
                    (new_controller at_most high low is_enabled on_pause on_resume))
                ≡ false))
  unfolding new_controller wait_for_resume
  run-IsConsistent high low is_enabled on_pause on_resume fires actions =
      let start = new_controller at_most high low is_enabled on_pause on_resume in
      let v =
        run-preserved actions start
          (record { event = refl; settled = refl; counted = omega arith }) in
      (v, (λ h. ground (arith, v.event, h), λ h. ground (arith, v.event, h)))
