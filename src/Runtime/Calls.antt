-- ===== src/Runtime/Calls.antt =====
-- `health`, `searchBatch` and `queryView`, one function for each segment: the guard before the client
-- is opened, the guard once it is connected, and the end of the call.
pub mod Clients
use qq_index.Prelude.{ℕ, Bool, true, false, Option, none, some, if◌then◌else◌, Outcome, ok, err}
use qq_index.Runtime.Health.{Response}
use qq_index.Runtime.State.{
  Runtime, Config, Code, is_outage, insert, close_tracked_client, set_health_summary, mark_outage,
  require_enabled_and_bound, require_enabled_for_view_query,
}

pub data Call : Type 0 where
  health search_batch query_view : Call

-- What the daemon answered; the runtime reads the answer of a health call only.
pub data Reply : Type 0 where
  answered : Response → Reply
  failed : Code → Reply

module _ (c : Config) where
  unfoldable pub admit : Bool → Call → Runtime → Outcome Code (Unit {0})
  admit source_live health r = require_enabled_and_bound c source_live false r
  admit source_live search_batch r = require_enabled_and_bound c source_live true r
  admit source_live query_view r = require_enabled_for_view_query c r

  record_reply : Call → Reply → Runtime → Runtime
  record_reply call (failed code) r = if is_outage code then mark_outage c code r else r
  record_reply health (answered response) r = set_health_summary response r
  record_reply _ (answered response) r = r

  -- The `catch` and the `finally` of a call.
  unfoldable pub settle : Call → ℕ → Reply → Runtime → Runtime
  unfolding record_reply mark_outage set_health_summary close_tracked_client
  settle call client reply r = close_tracked_client (some client) (record_reply call reply r)

  -- The second guard, in the `try` block: `health` has none.
  unfoldable pub readmit : Bool → Call → Runtime → Outcome Code (Unit {0})
  readmit source_live health r = ok tt
  readmit source_live search_batch r = require_enabled_and_bound c source_live true r
  readmit source_live query_view r = require_enabled_for_view_query c r

  -- The client is connected; the outcome says whether the request is sent.
  unfoldable pub connected : Bool → Call → ℕ → Runtime → Runtime × Outcome Code (Unit {0})
  unfolding insert readmit settle
  connected source_live call client r =
      let tracked = record r { active_clients = insert client r.active_clients } in
      elim (readmit source_live call tracked) [
        | ok _ ↦ (tracked, ok tt)
        | err code ↦ (settle call client (failed code) tracked, err code)
      ]
