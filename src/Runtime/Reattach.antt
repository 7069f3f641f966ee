-- ===== src/Runtime/Reattach.antt =====
-- `restart` and `#reattach`, one function for each segment between two `await`s.
use qq_index.Prelude.{
  ℕ, ◌+◌, min, Bool, true, false, not, ◌&&◌, Option, none, some, ◌==◌, if◌then◌else◌, Outcome, ok,
  err, ◌>>=◌, ◌>>◌,
}
use qq_index.Dsh.Decimal.{max_safe_integer}
use qq_index.Runtime.Health.{Response}
use qq_index.Runtime.State.{
  Runtime, Config, Code, Attachment, starting, live, recovering, retiring, probing, closing_probe,
  starting_source, cleaning, settled, is_disposing, binding_replaced, source_not_live, is_none,
  is_token, cancel_timer, schedule, schedule_backoff, close_tracked_client, set_health_summary,
  insert, require_enabled_and_bound,
}

-- `#reattach` up to `await this.#retireSource(previous)`. Its own check of the binding has been made by
-- `restart`, with nothing in between.
begin_reattach : ℕ → Runtime → Runtime
begin_reattach token r = record r {
  phase = if r.consecutive_failures == 0 then starting else recovering;
  ready = false;
  capability_validated = false;
  source = none;
  restart = some (retiring token);
}

begin_bound : Option ℕ → Runtime → Runtime
unfolding begin_reattach
begin_bound none r = r
begin_bound (some token) r = begin_reattach token r

-- An attachment that is pending is joined, never doubled.
join_or_begin : Option Attachment → Runtime → Runtime
unfolding begin_bound cancel_timer
join_or_begin (some pending) r = r
join_or_begin none r = begin_bound r.binding (cancel_timer r)

module _ (c : Config) where
  unfoldable pub restart : Bool → Runtime → Outcome Code Runtime
  unfolding join_or_begin require_enabled_and_bound
  restart source_live r = do
    require_enabled_and_bound c source_live false r
    ok (join_or_begin r.restart r)

-- `await this.#openConfiguredClient()` returned a client, which it tracks.
unfoldable pub probe_client : (token client : ℕ) → Runtime → Runtime
unfolding insert
probe_client token client r = record r {
  active_clients = insert client r.active_clients;
  restart = some (probing token client);
}

-- The health response of the daemon arrived.
unfoldable pub validate_capability : (token client : ℕ) → Response → Runtime → Runtime
unfolding close_tracked_client set_health_summary
validate_capability token client response r =
    let r' = set_health_summary response r in
    close_tracked_client (some client)
      (record r' { capability_validated = true; restart = some (closing_probe token client) })

unfoldable pub assert_binding : ℕ → Runtime → Outcome Code (Unit {0})
assert_binding token r =
    if r.disposed
    then err is_disposing
    else if is_token r.binding token
    then ok tt
    else err binding_replaced

-- Into the `catch` block, up to its first `await`.
unfoldable pub fail_reattach : ℕ → Option ℕ → Code → Runtime → Runtime
unfolding close_tracked_client
fail_reattach token validation_client code r =
    close_tracked_client validation_client (record r { restart = some (cleaning token code) })

-- The probe's client is closed: `#assertBinding`, and then `createSource` and `source.start()`.
unfoldable pub create_source : ℕ → Outcome Code ℕ → Runtime → Runtime
unfolding assert_binding fail_reattach
create_source token created r = elim (assert_binding token r >>= λ _. created) [
  | ok source ↦ record r { restart = some (starting_source token source) }
  | err code ↦ fail_reattach token none code r
]

module _ (c : Config) where
  abbrev attach : ℕ → Runtime → Runtime
  attach source r = schedule c c.monitor_interval (record r {
    source = some source;
    ready = true;
    phase = live;
    last_error = none;
    restart_count = min max_safe_integer (r.restart_count + 1);
    consecutive_failures = 0;
    backoff = c.restart_initial_backoff;
    restart = some settled;
  })

  -- `source.start()` returned: the source is taken if the binding is still the same and the source
  -- live.
  unfoldable pub take_source : (token source : ℕ) → Bool → Runtime → Runtime
  unfolding assert_binding fail_reattach schedule
  take_source token source source_live r = elim (assert_binding token r) [
    | err code ↦ fail_reattach token none code r
    | ok _ ↦ if source_live then attach source r else fail_reattach token none source_not_live r
  ]

  -- The end of the `catch` block, after the source was closed.
  unfoldable pub give_up : ℕ → Code → Runtime → Runtime
  unfolding schedule_backoff
  give_up token code r =
      let r' = record r { ready = false; capability_validated = false; restart = some settled } in
      if is_token r.binding token && not r.disposed
      then schedule_backoff c (record r' {
        phase = recovering;
        last_error = some code;
        consecutive_failures = min max_safe_integer (r.consecutive_failures + 1);
      })
      else r'

  -- The `finally` of `restart`.
  unfoldable pub retire_restart : Runtime → Runtime
  unfolding schedule
  retire_restart r =
      let r' = record r { restart = none } in
      if not r.disposed && (not (is_none r.binding) && (not r.ready && is_none r.timer))
      then schedule c 0 r'
      else r'
