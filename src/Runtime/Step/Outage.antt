-- ===== src/Runtime/Step/Outage.antt =====
-- A call that fails while an attachment is under way.
use qq_index.Prelude.{ℕ, ◌≡◌, true, false, some, [], ◌∷◌, arith, ok, err}
use qq_index.Runtime.State.{
  Runtime, Config, Code, starting_source, not_ready, is_outage, require_enabled_and_bound,
}
use qq_index.Runtime.Health.{Response}
use qq_index.Runtime.Calls.{health, search_batch, failed, admit}
use qq_index.Runtime.Step

-- While the source of the current binding is being started, a health call that fails with an outage code takes
-- back the validation of the capability. The attachment that then succeeds does not renew it, nor does the
-- monitor's next round: the runtime is ready, and yet refuses every search as not ready.
pub outage_while_starting :
    (c : Config) (r : Runtime) (token source client : ℕ) (code : Code) (response : Response)
    → c.enabled ≡ true
    → r.disposed ≡ false
    → r.binding ≡ some token
    → r.restart ≡ some (starting_source token source)
    → is_outage code ≡ true
    → let attached = Step.run c r (
        Step.Event.call_settled health client (failed code)
        ∷ Step.Event.source_started (ok true)
        ∷ []) in
      let monitored =
        Step.run c attached
          (Step.Event.timer_fired true ∷ Step.Event.monitor_answered response ∷ []) in
      (attached.ready ≡ true)
      × (admit c true search_batch attached ≡ err not_ready)
      × (monitored.ready ≡ true)
      × (admit c true search_batch monitored ≡ err not_ready)
unfolding Step.run Step.step admit require_enabled_and_bound
outage_while_starting c r token source client code response on here bound pending out =
    (ground arith, ground arith, ground arith, ground arith)
