-- ===== src/Runtime/Step.antt =====
-- The runtime as a whole: the segments of its operations, in the order in which the environment
-- brings them about. An event that the state does not wait for changes nothing. A call's segments are
-- allowed at any time, which covers every interleaving of calls.
pub mod Invariant
pub mod Promises
pub mod Outage
use qq_index.Prelude.{
  ℕ, ◌+◌, ◌-◌, Bool, true, false, not, ◌&&◌, ◌||◌, Option, none, some, List, [], ◌∷◌, ltb,
  if◌then◌else◌, Outcome, ok, err,
}
use qq_index.Runtime.Health.{Response}
use qq_index.Runtime.State.{
  Runtime, Config, Code, Phase, Attachment, starting, waiting_session_query, disposing, closed,
  retiring, connecting, probing, closing_probe, starting_source, cleaning, settled,
  invalid_argument, source_not_live, init, is_none, is_token, cancel_timer, schedule, mark_outage,
  set_health_summary,
}
use qq_index.Runtime.Reattach.{
  restart, probe_client, validate_capability, fail_reattach, create_source, take_source, give_up,
  retire_restart,
}
use qq_index.Runtime.Calls.{Call, Reply, connected, settle}

pub data Event : Type 0 where
  bind_called : Bool → Event
  unbind_called : ℕ → Event
  restart_called timer_fired : Bool → Event
  monitor_answered : Response → Event
  monitor_failed : Code → Event
  source_retired : Event
  probe_connected : Outcome Code ℕ → Event
  probe_replied : Outcome Code Response → Event
  probe_closed : Outcome Code ℕ → Event
  source_started : Outcome Code Bool → Event
  source_closed restart_finished : Event
  dispose_called dispose_finished : Event
  call_connected : Bool → Call → ℕ → Event
  call_settled : Call → ℕ → Reply → Event

module _ (c : Config) where
  -- `usable` is what the checks of the service and of the lifecycle context find.
  unfoldable pub bind : Bool → Runtime → Outcome Code (Option ℕ × Runtime)
  unfolding schedule
  bind usable r =
      if not c.enabled || r.disposed
      then ok (none, r)
      else if not usable
      then err invalid_argument
      else ok (
        some r.next_token,
        schedule c 0 (record r {
          binding = some r.next_token;
          next_token = r.next_token + 1;
          ready = false;
          capability_validated = false;
          phase = starting;
        }),
      )

  unfoldable pub unbind : ℕ → Runtime → Runtime
  unfolding cancel_timer
  unbind token r =
      if is_token r.binding token
      then record (cancel_timer r) {
        binding = none;
        ready = false;
        capability_validated = false;
        health_summary = none;
        phase = if r.disposed then closed else waiting_session_query;
        source = none;
      }
      else r

  -- What an attempt leaves: its error is dropped by `.catch(() => {})`, or goes to the caller.
  abbrev or_same : Runtime → Outcome Code Runtime → Runtime
  or_same r (ok r') = r'
  or_same r (err code) = r

  -- `#tick` up to its first `await`.
  unfoldable pub tick : Bool → Runtime → Runtime
  unfolding restart mark_outage
  tick source_live r =
      if r.disposed || is_none r.binding
      then r
      else if not r.ready || is_none r.source
      then or_same r (restart c source_live r)
      else if source_live
      then record r { probes = r.probes + 1 }
      else mark_outage c source_not_live r

  -- The callback of the timer, which is armed no longer.
  fire_timer : Bool → Runtime → Runtime
  unfolding tick
  fire_timer source_live r =
      if is_none r.timer then r else tick source_live (record r { timer = none })

  monitor_answer : Response → Runtime → Runtime
  unfolding set_health_summary schedule
  monitor_answer response r =
      if ltb 0 r.probes
      then schedule c c.monitor_interval
          (set_health_summary response (record r { probes = r.probes - 1 }))
      else r

  monitor_failure : Code → Runtime → Runtime
  unfolding mark_outage
  monitor_failure code r =
      if ltb 0 r.probes then mark_outage c code (record r { probes = r.probes - 1 }) else r

  unfoldable pub dispose : Runtime → Runtime
  unfolding cancel_timer
  dispose r = if r.disposed then r else record (cancel_timer r) {
    disposed = true;
    phase = disposing;
    ready = false;
    capability_validated = false;
    binding = none;
    source = none;
  }

  -- After `Promise.allSettled`, which waits for the pending restart.
  finish_dispose : Runtime → Runtime
  finish_dispose r =
      if r.disposed && is_none r.restart
      then record r { active_clients = []; health_summary = none; phase = closed }
      else r

  -- The next segment of the pending restart.
  resume : Option Attachment → Event → Runtime → Runtime
  unfolding probe_client validate_capability fail_reattach create_source take_source give_up
      retire_restart
  resume (some (retiring token)) source_retired r = record r { restart = some (connecting token) }
  resume (some (connecting token)) (probe_connected (ok client)) r = probe_client token client r
  resume (some (connecting token)) (probe_connected (err code)) r = fail_reattach token none code r
  resume (some (probing token client)) (probe_replied (ok response)) r =
      validate_capability token client response r
  resume (some (probing token client)) (probe_replied (err code)) r =
      fail_reattach token (some client) code r
  resume (some (closing_probe token client)) (probe_closed created) r =
      create_source token created r
  resume (some (starting_source token source)) (source_started (ok live)) r =
      take_source c token source live r
  resume (some (starting_source token source)) (source_started (err code)) r =
      fail_reattach token none code r
  resume (some (cleaning token code)) source_closed r = give_up c token code r
  resume (some settled) restart_finished r = retire_restart c r
  resume _ _ r = r

  unfoldable pub step : Runtime → Event → Runtime
  unfolding bind unbind fire_timer monitor_answer monitor_failure dispose finish_dispose resume
      connected settle
  step r (bind_called usable) = elim (bind usable r) [ ok (_, r') ↦ r' | err _ ↦ r ]
  step r (unbind_called token) = unbind token r
  step r (restart_called source_live) = or_same r (restart c source_live r)
  step r (timer_fired source_live) = fire_timer source_live r
  step r (monitor_answered response) = monitor_answer response r
  step r (monitor_failed code) = monitor_failure code r
  step r dispose_called = dispose r
  step r dispose_finished = finish_dispose r
  step r (call_connected source_live call client) = (connected c source_live call client r).0
  step r (call_settled call client reply) = settle c call client reply r
  step r event = resume r.restart event r

  unfoldable pub run : Runtime → List Event → Runtime
  run r [] = r
  run r (event ∷ events) = run (step r event) events
