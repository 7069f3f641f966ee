-- ===== src/Runtime/State.antt =====
-- The fields of `SessionIndexRuntime`, and its methods that no `await` interrupts.
use qq_index.Prelude.{
  ℕ, ◌*◌, min, max, Bool, true, false, not, ◌&&◌, ◌||◌, Option, none, some, List, [], ◌∷◌, ◌==◌,
  if◌then◌else◌, Outcome, ok, err,
}
use qq_index.Runtime.Health.{Summary, Response, summary}

-- The part of the configuration that the life cycle reads.
pub record Config : Type 0 where
  pub enabled : Bool
  pub monitor_interval : ℕ
  pub restart_initial_backoff : ℕ
  pub restart_max_backoff : ℕ

pub data Phase : Type 0 where
  disabled waiting_session_query starting live recovering disposing closed : Phase

-- The codes of `SessionIndexRuntimeError`, the outage codes of the client, and the others.
pub data Code : Type 0 where
  runtime_disabled is_disposing session_query_unavailable not_ready : Code
  binding_replaced source_not_live : Code
  socket_error socket_closed protocol_violation cancellation_unacknowledged client_closed : Code
  invalid_argument other_error : Code

-- Where an attachment in flight waits. `token` is the binding that it was started for.
pub data Attachment : Type 0 where
  retiring connecting : (token : ℕ) → Attachment
  probing closing_probe : (token client : ℕ) → Attachment
  starting_source : (token source : ℕ) → Attachment
  cleaning : (token : ℕ) → Code → Attachment
  settled : Attachment

-- A binding, a source and a client are named by numbers: the code only compares them. `timer` is
-- the delay of the armed timer, `restart` the pending `#restartPromise`, and `probes` counts the
-- monitor's health calls in flight.
pub record Runtime : Type 0 where
  pub binding : Option ℕ
  pub next_token : ℕ
  pub source : Option ℕ
  pub timer : Option ℕ
  pub restart : Option Attachment
  pub active_clients : List ℕ
  pub disposed : Bool
  pub ready : Bool
  pub capability_validated : Bool
  pub phase : Phase
  pub health_summary : Option Summary
  pub last_error : Option Code
  pub restart_count : ℕ
  pub consecutive_failures : ℕ
  pub backoff : ℕ
  pub probes : ℕ

abbrev pub is_none {ℓ} : {A : Type ℓ} → Option A → Bool
is_none none = true
is_none (some a) = false

-- The test `this.#binding === binding` for a binding that is not null.
abbrev pub is_token : Option ℕ → ℕ → Bool
is_token none t = false
is_token (some u) t = u == t

unfoldable pub init : Config → Runtime
init c = record {
  binding = none;
  next_token = 0;
  source = none;
  timer = none;
  restart = none;
  active_clients = [];
  disposed = false;
  ready = false;
  capability_validated = false;
  phase = if c.enabled then waiting_session_query else disabled;
  health_summary = none;
  last_error = none;
  restart_count = 0;
  consecutive_failures = 0;
  backoff = if c.enabled then c.restart_initial_backoff else 0;
  probes = 0;
}

abbrev is_disposing_phase : Phase → Bool
is_disposing_phase disposing = true
is_disposing_phase _ = false

abbrev pub is_outage : Code → Bool
is_outage socket_error = true
is_outage socket_closed = true
is_outage protocol_violation = true
is_outage cancellation_unacknowledged = true
is_outage client_closed = true
is_outage _ = false

-- A set of clients, as a list with each member once.
unfoldable pub delete : ℕ → List ℕ → List ℕ
delete c [] = []
delete c (d ∷ ds) = if d == c then delete c ds else d ∷ delete c ds

unfoldable pub insert : ℕ → List ℕ → List ℕ
insert c ds = c ∷ delete c ds

unfoldable pub cancel_timer : Runtime → Runtime
cancel_timer r = record r { timer = none }

unfoldable pub set_health_summary : Response → Runtime → Runtime
set_health_summary response r = record r { health_summary = some (summary response) }

-- `#closeTrackedClient`; the close itself is I/O, and its errors are dropped.
unfoldable pub close_tracked_client : Option ℕ → Runtime → Runtime
unfolding delete
close_tracked_client none r = r
close_tracked_client (some client) r = record r { active_clients = delete client r.active_clients }

module _ (c : Config) where
  unfoldable pub require_enabled_for_view_query : Runtime → Outcome Code (Unit {0})
  require_enabled_for_view_query r =
      if not c.enabled
      then err runtime_disabled
      else if r.disposed || is_disposing_phase r.phase
      then err is_disposing
      else ok tt

  -- `source_live` is what `source.status().phase !== "live"` finds, if there is a source.
  unfoldable pub require_enabled_and_bound : Bool → Bool → Runtime → Outcome Code (Unit {0})
  require_enabled_and_bound source_live require_ready r =
      if not c.enabled
      then err runtime_disabled
      else if r.disposed || is_disposing_phase r.phase
      then err is_disposing
      else if is_none r.binding
      then err session_query_unavailable
      else if require_ready
          && (not r.ready || (not r.capability_validated || (is_none r.source || not source_live)))
      then err not_ready
      else ok tt

  unfoldable pub schedule : ℕ → Runtime → Runtime
  unfolding cancel_timer
  schedule delay r =
      if r.disposed || (is_none r.binding || not c.enabled)
      then r
      else record (cancel_timer r) { timer = some delay }

  -- The back-off after the next one.
  unfoldable pub next_backoff : ℕ → ℕ
  next_backoff b = min c.restart_max_backoff (max c.restart_initial_backoff (b * 2))

  unfoldable pub schedule_backoff : Runtime → Runtime
  unfolding schedule next_backoff
  schedule_backoff r = schedule r.backoff (record r { backoff = next_backoff r.backoff })

  unfoldable pub mark_outage : Code → Runtime → Runtime
  unfolding schedule_backoff
  mark_outage code r =
      if r.disposed || is_none r.binding
      then r
      else schedule_backoff (record r {
        ready = false;
        capability_validated = false;
        phase = recovering;
        last_error = some code;
      })
