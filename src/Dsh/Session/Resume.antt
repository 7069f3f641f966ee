-- ===== src/Dsh/Session/Resume.antt =====
-- What is committed of a session, and the fast path of `#syncSession` against the full one.
use qq_index.Prelude.{
  ℕ, ◌≤◌, ◌≡◌, inl, inr, Option, none, some, List, ◌∷◌, flatten, arith, length, drop, drop_all, ok,
  Outcome-cases,
}
use qq_index.Dsh.Decimal.{parse_unsigned}
use qq_index.Dsh.Chunks.{chunk_documents}
use qq_index.Dsh.Chunks.Batches.{flatten-chunk_documents}
use qq_index.Dsh.Session.{Document, Durable, Inspection, durable_next, plan, sync_session}

module _ (max_documents max_bytes : ℕ) where
  plan-ok :
      (durable : Option Durable) (documents : List Document) (batches : List (List Document))
      → plan max_documents max_bytes durable documents ≡ ok batches
      → (next : ℕ) × (durable_next durable ≡ ok next)
        × (next ≤ length documents)
        × (flatten batches ≡ drop next documents)
  unfolding plan
  plan-ok durable documents batches h = elim (Outcome-cases (durable_next durable)) [
    | inl (next, e) ↦
        let chunked : chunk_documents (λ d. d.json_bytes) max_documents max_bytes
              (drop next documents)
            ≡ ok batches =
          ground arith in
        (
          next,
          e,
          ground arith,
          flatten-chunk_documents (λ d. d.json_bytes) max_documents max_bytes (drop next documents)
              batches chunked,
        )
    | inr (error, e) ↦ cc (rw (e, plan) at h)
  ]

  -- If a full synchronisation of a session succeeds, its batches are, in order, the documents from the
  -- durable cursor on, and the cursor is not beyond the log.
  pub sync_session_resumes :
      (durable : Option Durable) (documents : List Document) (batches : List (List Document))
      → (sync_session max_documents max_bytes none durable (ok documents)).batches ≡ ok batches
      → (next : ℕ) × (durable_next durable ≡ ok next)
        × (next ≤ length documents)
        × (flatten batches ≡ drop next documents)
  unfolding sync_session
  sync_session_resumes = plan-ok

  -- The fast path agrees with the full one, if what the inspection found is what the projection and the
  -- daemon say, equal workspaces have equal tokens, and the log is not empty.
  pub fast_path_agrees :
      (i : Inspection) (durable : Durable) (first : Document) (rest : List Document)
      → parse_unsigned durable.next_seq ≡ ok i.next_seq
      → i.event_count ≡ length (first ∷ rest)
      → i.workspace ≡ first.workspace
      → i.durable_workspace ≡ durable.workspace
      → (i.workspace ≡ i.durable_workspace → i.scope_token ≡ i.durable_scope_token)
      → sync_session max_documents max_bytes (some i) (some durable) (ok (first ∷ rest))
        ≡ sync_session max_documents max_bytes none (some durable) (ok (first ∷ rest))
  unfolding sync_session chunk_documents
  fast_path_agrees i durable first rest cursor count here there tokens =
      ground (arith, cursor, drop_all i.next_seq (first ∷ rest), tokens)
