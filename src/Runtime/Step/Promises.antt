-- ===== src/Runtime/Step/Promises.antt =====
-- What the runtime promises its users in every order of events.
use qq_index.Prelude.{◌<◌, ◌≡◌, true, false, Option, none, some, List, [], ◌∷◌, arith, ◌⊎◌}
use qq_index.Runtime.State.{Runtime, Config, Attachment, retiring, live, init, is_none}
use qq_index.Runtime.Calls.{health}
use qq_index.Runtime.Step
use qq_index.Runtime.Step.Invariant.{Bound, Watched, Inv-run, run-Inv, step-Inv}

abbrev pub after : Config → List Step.Event → Runtime
after c events = Step.run c (init c) events

-- Whatever the order of events, a runtime that says that it is ready is enabled and not disposed, is in
-- the phase `live`, and has a binding and a source.
pub ready_attached :
    (c : Config) (events : List Step.Event)
    → (after c events).ready ≡ true
    → (c.enabled ≡ true)
      × ((after c events).disposed ≡ false)
      × ((after c events).phase ≡ live)
      × Bound (after c events)
      × (is_none (after c events).source ≡ false)
ready_attached c events h = ground (arith, Inv-run c events)

-- Whatever the order of events, a bound runtime that is not ready has a timer armed or a restart
-- pending.
pub never_abandoned :
    (c : Config) (events : List Step.Event)
    → Bound (after c events)
    → (after c events).ready ≡ false
    → Watched (after c events)
never_abandoned c events = (Inv-run c events).recovers

-- Whatever the order of events, a ready runtime has a timer armed or a health call of its monitor
-- in flight.
pub always_monitored :
    (c : Config) (events : List Step.Event)
    → (after c events).ready ≡ true
    → (is_none (after c events).timer ≡ false) ⊎ (0 < (after c events).probes)
always_monitored c events = (Inv-run c events).monitored

disposed-resume :
    (c : Config) (r : Runtime) (pending : Option Attachment) (event : Step.Event)
    → r.disposed ≡ true
    → (Step.resume c pending event r).disposed ≡ true
unfolding Step.resume
disposed-resume c r none event h = h
disposed-resume c r (some (retiring token)) Step.Event.source_retired h = h
disposed-resume c r _ _ h = ground arith

disposed-step :
    (c : Config) (r : Runtime) (event : Step.Event)
    → r.disposed ≡ true
    → (Step.step c r event).disposed ≡ true
unfolding Step.step
disposed-step c r (Step.Event.bind_called usable) h = ground arith
disposed-step c r (Step.Event.call_connected up health client) h = ground arith
disposed-step c r (Step.Event.call_connected up _ client) h = ground arith
disposed-step c r (Step.Event.call_settled health client reply) h = ground arith
disposed-step c r (Step.Event.call_settled _ client reply) h = ground arith
disposed-step c r (Step.Event.unbind_called token) h = ground arith
disposed-step c r (Step.Event.restart_called up) h = ground arith
disposed-step c r (Step.Event.timer_fired up) h = ground arith
disposed-step c r (Step.Event.monitor_answered response) h = ground arith
disposed-step c r (Step.Event.monitor_failed code) h = ground arith
disposed-step c r Step.Event.dispose_called h = ground arith
disposed-step c r Step.Event.dispose_finished h = ground arith
disposed-step c r event h = disposed-resume c r r.restart event h

dispose-disposed :
    (c : Config) (r : Runtime) → (Step.step c r Step.Event.dispose_called).disposed ≡ true
unfolding Step.step
dispose-disposed c r = ground arith

disposed-run :
    (c : Config) (r : Runtime) (events : List Step.Event)
    → r.disposed ≡ true
    → (Step.run c r events).disposed ≡ true
unfolding Step.run
disposed-run c r [] h = h
disposed-run c r (event ∷ events) h =
    disposed-run c (Step.step c r event) events (disposed-step c r event h)

-- Disposal is final: whatever came before and whatever comes after it, the runtime stays disposed and is not ready,
-- has no binding and no source, and no timer is armed.
dispose_final :
    (c : Config) (before later : List Step.Event)
    → let r = Step.run c (Step.step c (after c before) Step.Event.dispose_called) later in
      (r.disposed ≡ true)
      × (r.ready ≡ false)
      × (is_none r.binding ≡ true)
      × (is_none r.source ≡ true)
      × (is_none r.timer ≡ true)
dispose_final c before later =
    let r = Step.step c (after c before) Step.Event.dispose_called in
    let gone : r.disposed ≡ true = dispose-disposed c (after c before) in
    ground (
      arith,
      disposed-run c r later gone,
      run-Inv c r later (step-Inv c (after c before) (Inv-run c before) Step.Event.dispose_called),
    )
