-- ===== src/Runtime/Step/Invariant.antt =====
-- What holds of the runtime in every order of events.
use qq_index.Prelude.{
  ℕ, ◌<◌, ◌≡◌, refl, Bool, true, false, Option, none, some, List, [], ◌∷◌, arith, ◌⊎◌, ok, err,
}
use qq_index.Runtime.State.{
  Runtime, Config, Code, Attachment, live, disposing, retiring, connecting, probing, closing_probe,
  starting_source, cleaning, settled, init, is_none,
}
use qq_index.Runtime.Health.{Response}
use qq_index.Runtime.Calls.{Call, Reply, health, connected, settle}
use qq_index.Runtime.Step

abbrev pub Bound : Runtime → Type 0
Bound r = is_none r.binding ≡ false

-- Something is pending that will look at the attachment again.
abbrev pub Watched : Runtime → Type 0
Watched r = (is_none r.timer ≡ false) ⊎ (is_none r.restart ≡ false)

pub record Inv (c : Config) (r : Runtime) : Type 0 where
  pub ready_phase : r.ready ≡ true → r.phase ≡ live
  pub ready_bound : r.ready ≡ true → Bound r
  pub ready_source : r.ready ≡ true → is_none r.source ≡ false
  pub disposed_unbound : r.disposed ≡ true → is_none r.binding ≡ true
  pub disposed_timer : is_none r.binding ≡ true → is_none r.timer ≡ true
  pub bound_enabled : Bound r → c.enabled ≡ true
  pub recovers : Bound r → r.ready ≡ false → Watched r
  pub monitored : r.ready ≡ true → (is_none r.timer ≡ false) ⊎ (0 < r.probes)
  pub unbound_source : is_none r.binding ≡ true → is_none r.source ≡ true
  pub disposing_disposed : r.phase ≡ disposing → r.disposed ≡ true

module _ (c : Config) (r : Runtime) (v : Inv c r) where
  bind-Inv : (usable : Bool) → Inv c (Step.step c r (Step.bind_called usable))
  unfolding Step.step
  bind-Inv usable = ground arith

  unbind-Inv : (token : ℕ) → Inv c (Step.step c r (Step.unbind_called token))
  unfolding Step.step
  unbind-Inv token = ground arith

  restart-Inv : (source_live : Bool) → Inv c (Step.step c r (Step.restart_called source_live))
  unfolding Step.step Step.tick
  restart-Inv source_live = ground arith

  timer-Inv : (source_live : Bool) → Inv c (Step.step c r (Step.timer_fired source_live))
  unfolding Step.step
  timer-Inv source_live = ground arith

  monitor_answer-Inv :
      (response : Response) → Inv c (Step.step c r (Step.monitor_answered response))
  unfolding Step.step
  monitor_answer-Inv response = ground arith

  monitor_failure-Inv : (code : Code) → Inv c (Step.step c r (Step.monitor_failed code))
  unfolding Step.step
  monitor_failure-Inv code = ground arith

  dispose-Inv : Inv c (Step.step c r Step.dispose_called)
  unfolding Step.step
  dispose-Inv = ground arith

  finish-Inv : Inv c (Step.step c r Step.dispose_finished)
  unfolding Step.step
  finish-Inv = ground arith

  settle-Inv : (call : Call) (client : ℕ) (reply : Reply) → Inv c (settle c call client reply r)
  unfolding settle
  settle-Inv health client reply = ground arith
  settle-Inv _ client reply = ground arith

  connected-Inv :
      (source_live : Bool) (call : Call) (client : ℕ)
      → Inv c (connected c source_live call client r).0
  unfolding connected
  connected-Inv source_live health client = ground arith
  connected-Inv source_live _ client = ground arith

  resume-Inv :
      (pending : Option Attachment) (event : Step.Event)
      → r.restart ≡ pending
      → Inv c (Step.resume c pending event r)
  unfolding Step.resume
  resume-Inv none event e = v
  resume-Inv (some (retiring token)) Step.Event.source_retired e = ground arith
  resume-Inv (some (connecting token)) (Step.Event.probe_connected (ok client)) e = ground arith
  resume-Inv (some (connecting token)) (Step.Event.probe_connected (err code)) e = ground arith
  resume-Inv (some (probing token client)) (Step.Event.probe_replied (ok response)) e = ground arith
  resume-Inv (some (probing token client)) (Step.Event.probe_replied (err code)) e = ground arith
  resume-Inv (some (closing_probe token client)) (Step.Event.probe_closed created) e = ground arith
  resume-Inv (some (starting_source token source)) (Step.Event.source_started (ok up)) e =
      ground arith
  resume-Inv (some (starting_source token source)) (Step.Event.source_started (err code)) e =
      ground arith
  resume-Inv (some (cleaning token code)) Step.Event.source_closed e = ground arith
  resume-Inv (some settled) Step.Event.restart_finished e = ground arith
  resume-Inv _ _ e = v

  pub step-Inv : (event : Step.Event) → Inv c (Step.step c r event)
  unfolding Step.step
  step-Inv (Step.Event.bind_called usable) = bind-Inv usable
  step-Inv (Step.Event.unbind_called token) = unbind-Inv token
  step-Inv (Step.Event.restart_called up) = restart-Inv up
  step-Inv (Step.Event.timer_fired up) = timer-Inv up
  step-Inv (Step.Event.monitor_answered response) = monitor_answer-Inv response
  step-Inv (Step.Event.monitor_failed code) = monitor_failure-Inv code
  step-Inv Step.Event.dispose_called = dispose-Inv
  step-Inv Step.Event.dispose_finished = finish-Inv
  step-Inv (Step.Event.call_connected up call client) = connected-Inv up call client
  step-Inv (Step.Event.call_settled call client reply) = settle-Inv call client reply
  step-Inv event = resume-Inv r.restart event refl

init-Inv : (c : Config) → Inv c (init c)
unfolding init
init-Inv c = ground arith

pub run-Inv :
    (c : Config) (r : Runtime) (events : List Step.Event) → Inv c r → Inv c (Step.run c r events)
unfolding Step.run
run-Inv c r [] v = v
run-Inv c r (event ∷ events) v = run-Inv c (Step.step c r event) events (step-Inv c r v event)

-- In every order of events.
pub Inv-run : (c : Config) (events : List Step.Event) → Inv c (Step.run c (init c) events)
Inv-run c events = run-Inv c (init c) events (init-Inv c)
