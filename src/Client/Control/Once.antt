-- ===== src/Client/Control/Once.antt =====
-- src/session-index-client.mjs: the promise of a cancellation settles once, and as its bytes say.
use qq_index.Prelude.{ℕ, ◌≡◌, Option, some, List, [], ◌∷◌, Outcome, arith}
use qq_index.Client.Errors.{ClientError}
use qq_index.Client.Values.{Value}
use qq_index.Client.Control.{
  Exchange, ControlEvent, timed_out, control_failed, control_ended, control_data, finish_control,
  control_step, control_run,
}

module _ (parse : List ℕ → Option Value) where
  step_settled :
      (event : ControlEvent) (x : Exchange) (o : Outcome ClientError Value)
      → x.outcome ≡ some o
      → (control_step parse event x).outcome ≡ some o
  unfolding control_step finish_control
  step_settled timed_out x o h = ground (arith, h)
  step_settled control_failed x o h = ground (arith, h)
  step_settled control_ended x o h = ground (arith, h)
  step_settled (control_data chunk) x o h = ground (arith, h)

  -- What the promise of a cancellation has settled with, no later event changes.
  pub control_once :
      (events : List ControlEvent) (x : Exchange) (o : Outcome ClientError Value)
      → x.outcome ≡ some o
      → (control_run parse events x).outcome ≡ some o
  unfolding control_run
  control_once [] x o h = h
  control_once (event ∷ events) x o h =
      control_once events (control_step parse event x) o (step_settled event x o h)
