-- ===== src/Runtime/Tests.antt =====
-- Runs of the runtime on short sequences of events.
use qq_index.Prelude.{◌<◌, ◌≡◌, ◌⊎◌, refl, true, false, some, List, [], ◌∷◌, ◌++◌, ok, err}
use qq_index.Runtime.Health.{Response, number}
use qq_index.Runtime.State.{
  Config, live, not_ready, socket_closed, starting_source, init, is_none, require_enabled_and_bound,
}
use qq_index.Runtime.Calls.{health, search_batch, failed, admit, connected}
use qq_index.Runtime.Step
use qq_index.Runtime.Step.Invariant.{Bound, Watched}
use qq_index.Runtime.Step.Promises.{after, ready_attached, never_abandoned, always_monitored}
use qq_index.Runtime.Step.Outage.{outage_while_starting}

abbrev config : Config
config = record {
  enabled = true;
  monitor_interval = 5000;
  restart_initial_backoff = 250;
  restart_max_backoff = 10000;
}

abbrev healthy : Response
healthy = record {
  generation = number 1;
  source_watermark = number 7;
  reader_count = number 4;
  queue_capacity = number 16;
  reader_retirements = number 0;
  active_readers = number 1;
  peak_active_readers = number 2;
}

-- Up to `source.start()` of the first attachment.
abbrev starting_events : List Step.Event
starting_events =
    Step.Event.bind_called true
    ∷ Step.Event.timer_fired true
    ∷ Step.Event.source_retired
    ∷ Step.Event.probe_connected (ok 3)
    ∷ Step.Event.probe_replied (ok healthy)
    ∷ Step.Event.probe_closed (ok 9)
    ∷ []

abbrev attached_events : List Step.Event
attached_events =
    starting_events ++ (Step.Event.source_started (ok true) ∷ Step.Event.restart_finished ∷ [])

attached_ready : (after config attached_events).ready ≡ true
unfolding init Step.run Step.step
attached_ready = refl

ready_attached_example :
    (config.enabled ≡ true)
    × ((after config attached_events).disposed ≡ false)
    × ((after config attached_events).phase ≡ live)
    × Bound (after config attached_events)
    × (is_none (after config attached_events).source ≡ false)
ready_attached_example = ready_attached config attached_events attached_ready

always_monitored_example :
    (is_none (after config attached_events).timer ≡ false)
    ⊎ (0 < (after config attached_events).probes)
always_monitored_example = always_monitored config attached_events attached_ready

starting-Bound : Bound (after config starting_events)
unfolding init Step.run Step.step
starting-Bound = refl

starting_not_ready : (after config starting_events).ready ≡ false
unfolding init Step.run Step.step
starting_not_ready = refl

never_abandoned_example : Watched (after config starting_events)
never_abandoned_example = never_abandoned config starting_events starting-Bound starting_not_ready

starting_binding : (after config starting_events).binding ≡ some 0
unfolding init Step.run Step.step
starting_binding = refl

starting_disposed : (after config starting_events).disposed ≡ false
unfolding init Step.run Step.step
starting_disposed = refl

starting_pending : (after config starting_events).restart ≡ some (starting_source 0 9)
unfolding init Step.run Step.step
starting_pending = refl

outage_while_starting_example :
    let attached = Step.run config (after config starting_events) (
      Step.Event.call_settled health 5 (failed socket_closed)
      ∷ Step.Event.source_started (ok true)
      ∷ []) in
    let monitored =
      Step.run config attached
        (Step.Event.timer_fired true ∷ Step.Event.monitor_answered healthy ∷ []) in
    (attached.ready ≡ true)
    × (admit config true search_batch attached ≡ err not_ready)
    × (monitored.ready ≡ true)
    × (admit config true search_batch monitored ≡ err not_ready)
outage_while_starting_example =
    outage_while_starting config (after config starting_events) 0 9 5 socket_closed healthy refl
      starting_disposed starting_binding starting_pending refl

starting_refused :
    (connected config true search_batch 5 (after config starting_events)).1 ≡ err not_ready
unfolding init Step.run Step.step connected require_enabled_and_bound
starting_refused = refl
