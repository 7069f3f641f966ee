-- ===== src/Runtime/Calls/Clients.antt =====
-- When a request is sent, and what becomes of its client.
use qq_index.Prelude.{
  ℕ, ◌≡◌, ◌≢◌, ◌↔◌, refl, Bool, true, false, List, [], ◌∷◌, ap, ◌∙◌, arith, ok, err, Outcome-cases,
  inl, inr,
}
use qq_index.Runtime.State.{
  Runtime, Config, Code, disposing, is_none, delete, insert, mark_outage, set_health_summary,
  require_enabled_and_bound,
}
use qq_index.Runtime.Calls.{
  Call, Reply, health, search_batch, query_view, connected, settle, readmit, record_reply, answered,
  failed,
}

-- A search is sent once its client is connected exactly when the runtime is then enabled, bound, ready and
-- validated, its source is live, and it is neither disposed nor being disposed.
pub search_sent :
    (c : Config) (source_live : Bool) (client : ℕ) (r : Runtime)
    → ((connected c source_live search_batch client r).1 ≡ ok tt) ↔ (
        (c.enabled ≡ true)
        × (r.disposed ≡ false)
        × (r.phase ≢ disposing)
        × (is_none r.binding ≡ false)
        × (r.ready ≡ true)
        × (r.capability_validated ≡ true)
        × (is_none r.source ≡ false)
        × (source_live ≡ true))
unfolding connected require_enabled_and_bound
search_sent c source_live client r = (λ h. ground arith, λ h. ground arith)

delete-delete : (client : ℕ) (ds : List ℕ) → delete client (delete client ds) ≡ delete client ds
unfolding delete
delete-delete client [] = refl
delete-delete client (d ∷ ds) = ground (arith, delete-delete client ds)

delete-insert : (client : ℕ) (ds : List ℕ) → delete client (insert client ds) ≡ delete client ds
unfolding insert delete
delete-insert client ds = ground (arith, delete-delete client ds)

clients-mark_outage :
    (c : Config) (code : Code) (r : Runtime)
    → (mark_outage c code r).active_clients ≡ r.active_clients
unfolding mark_outage
clients-mark_outage c code r = ground arith

clients-record_reply :
    (c : Config) (call : Call) (reply : Reply) (r : Runtime)
    → (record_reply c call reply r).active_clients ≡ r.active_clients
unfolding record_reply set_health_summary
clients-record_reply c health (answered response) r = refl
clients-record_reply c search_batch (answered response) r = refl
clients-record_reply c query_view (answered response) r = refl
clients-record_reply c call (failed code) r = ground (arith, clients-mark_outage c code r)

clients-settle :
    (c : Config) (call : Call) (client : ℕ) (reply : Reply) (r : Runtime)
    → (settle c call client reply r).active_clients ≡ delete client r.active_clients
unfolding settle
clients-settle c call client reply r = ap (delete client) (clients-record_reply c call reply r)

module _ (c : Config) (source_live : Bool) (call : Call) (client : ℕ) (r : Runtime) where
  abbrev tracked : Runtime
  tracked = record r { active_clients = insert client r.active_clients }

  refused-closed :
      (code : Code)
      → (settle c call client (failed code) tracked).active_clients ≡ delete client r.active_clients
  refused-closed code =
      clients-settle c call client (failed code) tracked ∙ delete-insert client r.active_clients

  -- A call that is refused when its client is connected leaves the other clients, and not its own.
  pub refused_call_closes :
      (code : Code)
      → (connected c source_live call client r).1 ≡ err code
      → (connected c source_live call client r).0.active_clients ≡ delete client r.active_clients
  unfolding connected
  refused_call_closes code h = elim (Outcome-cases (readmit c source_live call tracked)) [
    | inl (u, e) ↦ cc (rw (e, connected) at h)
    | inr (code', e) ↦ rw (e, connected) (refused-closed code')
  ]

  delete-connected :
      delete client (connected c source_live call client r).0.active_clients
      ≡ delete client r.active_clients
  unfolding connected
  delete-connected = elim (Outcome-cases (readmit c source_live call tracked)) [
    | inl (u, e) ↦ rw (e, connected) (delete-insert client r.active_clients)
    | inr (code, e) ↦ rw (e, connected, refused-closed code) (delete-delete client r.active_clients)
  ]

  -- Whatever a call is and whatever its reply: once it is over its client is not among the active ones,
  -- and the others are as they were before it was connected.
  pub settled_call_closes :
      (reply : Reply)
      → (settle c call client reply (connected c source_live call client r).0).active_clients
        ≡ delete client r.active_clients
  settled_call_closes reply =
      clients-settle c call client reply (connected c source_live call client r).0
      ∙ delete-connected
