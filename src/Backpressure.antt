-- ===== src/Backpressure.antt =====
-- conduit/backpressure/flow_control.py: `FlowController`. A fill ratio is of any type with the test
-- `at_most` (the source's <= on floats); a time is in milliseconds. The callbacks are other code:
-- each call of one is a signal in the `sent` list, the newest first. What a callback raises is
-- caught and logged.
pub mod Invariant
pub mod Signals
pub mod Examples
use net_conduit.Base.{
  ℕ, ◌+◌, ◌-◌, Bool, true, false, Option, none, some, List, [], ◌∷◌, ltb, if◌then◌else◌,
}

pub data BackpressureState : Type 0 where
  flowing paused resuming : BackpressureState

pub record FlowStats : Type 0 where
  pub pause_count : ℕ
  pub resume_count : ℕ
  pub total_pause_duration_ms : ℕ
  pub current_pause_start : Option ℕ

pub data Signal : Type 0 where
  pause_signal resume_signal : Signal

pub record FlowController {ℓ} (R : Type ℓ) : Type ℓ where
  pub high_watermark : R
  pub low_watermark : R
  pub is_enabled : Bool
  pub on_pause : Bool
  pub on_resume : Bool
  pub state : BackpressureState
  pub stats : FlowStats
  pub paused_event : Bool
  pub sent : List Signal

-- The answer of `wait_for_resume`: True, False at the end of the timeout, or none yet.
pub data Resumed : Type 0 where
  resumed timed_out waiting : Resumed

module _ {ℓ} {R : Type ℓ} (at_most : R → R → Bool) where
  -- the constructor; whether each callback is given
  unfoldable pub new_controller : R → R → Bool → Bool → Bool → FlowController R
  new_controller high low is_enabled on_pause on_resume = record {
    high_watermark = high;
    low_watermark = low;
    is_enabled = is_enabled;
    on_pause = on_pause;
    on_resume = on_resume;
    state = flowing;
    stats = record {
      pause_count = 0;
      resume_count = 0;
      total_pause_duration_ms = 0;
      current_pause_start = none;
    };
    paused_event = true;
    sent = [];
  }

  abbrev pub set_callbacks : FlowController R → FlowController R
  set_callbacks c = record c { on_pause = true; on_resume = true }

  abbrev pub is_paused : FlowController R → Bool
  is_paused c = elim c.state [ paused ↦ true | _ ↦ false ]

  abbrev pub is_flowing : FlowController R → Bool
  is_flowing c = elim c.state [ flowing ↦ true | _ ↦ false ]

  unfoldable pub trigger_pause : ℕ → FlowController R → FlowController R
  trigger_pause now c = if is_paused c then c else record c {
    state = paused;
    stats = record c.stats {
      pause_count = c.stats.pause_count + 1;
      current_pause_start = some now;
    };
    paused_event = false;
    sent = if c.on_pause then pause_signal ∷ c.sent else c.sent;
  }

  -- The start of a pause counts where it is there and not 0.
  abbrev pub close_pause : ℕ → FlowStats → FlowStats
  close_pause now s = elim s.current_pause_start [
    | none ↦ s
    | some start ↦
        if ltb 0 start
        then record s {
          total_pause_duration_ms = s.total_pause_duration_ms + (now - start);
          current_pause_start = none;
        }
        else s
  ]

  unfoldable pub trigger_resume : ℕ → FlowController R → FlowController R
  trigger_resume now c = if is_flowing c then c else record c {
    state = flowing;
    stats = close_pause now (record c.stats { resume_count = c.stats.resume_count + 1 });
    paused_event = true;
    sent = if c.on_resume then resume_signal ∷ c.sent else c.sent;
  }

  -- `check_and_update`: the new controller, and the state that is returned
  unfoldable pub check_and_update : R → ℕ → FlowController R → FlowController R × BackpressureState
  unfolding trigger_pause trigger_resume
  check_and_update fill_ratio now c =
      let c' = elim c.state as (λ _. FlowController R) [
        | flowing ↦ if at_most c.high_watermark fill_ratio then trigger_pause now c else c
        | paused ↦ if at_most fill_ratio c.low_watermark then trigger_resume now c else c
        | resuming ↦ c
      ] in
      if c.is_enabled then (c', c'.state) else (c, flowing)

  -- `wait_for_resume`: `fires` says that the timeout is given and ends before the event is set.
  unfoldable pub wait_for_resume : Bool → FlowController R → Resumed
  wait_for_resume fires c = if c.paused_event then resumed else if fires then timed_out else waiting

  unfoldable pub handle_remote_pause : FlowController R → FlowController R
  handle_remote_pause c = record c {
    state = paused;
    paused_event = false;
    stats = record c.stats { pause_count = c.stats.pause_count + 1 };
  }

  unfoldable pub handle_remote_resume : FlowController R → FlowController R
  handle_remote_resume c = record c {
    state = flowing;
    paused_event = true;
    stats = record c.stats { resume_count = c.stats.resume_count + 1 };
  }

  -- the setter of `enabled`
  unfoldable pub set_enabled : Bool → FlowController R → FlowController R
  set_enabled value c =
      if value
      then record c { is_enabled = true }
      else record c { is_enabled = false; state = flowing; paused_event = true }

  unfoldable pub reset : FlowController R → FlowController R
  reset c = record c {
    state = flowing;
    paused_event = true;
    stats = record c.stats { current_pause_start = none };
  }

  -- Every call that changes the controller.
  pub data Action : Type ℓ where
    update : R → ℕ → Action
    remote_pause remote_resume stop : Action
    enable : Bool → Action

  unfoldable pub apply : Action → FlowController R → FlowController R
  apply (update fill now) c = (check_and_update fill now c).0
  apply remote_pause c = handle_remote_pause c
  apply remote_resume c = handle_remote_resume c
  apply stop c = reset c
  apply (enable value) c = set_enabled value c

  unfoldable pub run : List Action → FlowController R → FlowController R
  run [] c = c
  run (a ∷ rest) c = run rest (apply a c)
