-- ===== src/Dsh/Session.antt =====
-- `#syncSession` of src/session-index-dsh-source.mjs, up to the commits: what of one session's log is
-- to be committed. What `inspectDurableProductionSnapshot` and `projectDshSessionLog` find is an argument;
-- ids, workspaces and scope tokens are numbers, since they are only compared.
pub mod Resume
use qq_index.Prelude.{
  ℕ, Bool, true, false, not, ◌&&◌, ◌||◌, Option, none, some, List, [], ◌∷◌, ltb, ◌==◌,
  if◌then◌else◌, length, drop, Outcome, ok, err, ◌>>=◌, ◌>>◌, require,
}
use qq_index.Dsh.Errors.{SourceError, log_shorter, workspace_mismatch}
use qq_index.Dsh.Decimal.{Numeric, parse_unsigned}
use qq_index.Dsh.Chunks.{chunk_documents}

-- A projected document, with the length of its JSON in bytes.
pub record Document : Type 0 where
  pub session : ℕ
  pub seq : ℕ
  pub workspace : ℕ
  pub json_bytes : ℕ

-- A session's state in the daemon.
pub record Durable : Type 0 where
  pub next_seq : Numeric
  pub workspace : ℕ

-- The result of `inspectDurableProductionSnapshot` where it is not null.
pub record Inspection : Type 0 where
  pub next_seq : ℕ
  pub event_count : ℕ
  pub workspace : ℕ
  pub durable_workspace : ℕ
  pub scope_token : ℕ
  pub durable_scope_token : ℕ

-- Whether the session was counted as scanned, and the batches to commit or the error.
pub record Synced : Type 0 where
  pub scanned : Bool
  pub batches : Outcome SourceError (List (List Document))

pub durable_next : Option Durable → Outcome SourceError ℕ
durable_next none = ok 0
durable_next (some d) = parse_unsigned d.next_seq

other_workspace : Option Durable → List Document → Bool
other_workspace none documents = false
other_workspace (some d) [] = false
other_workspace (some d) (document ∷ rest) = not (d.workspace == document.workspace)

module _ (max_documents max_bytes : ℕ) where
  -- The documents from the durable cursor on, in batches.
  plan : Option Durable → List Document → Outcome SourceError (List (List Document))
  unfolding durable_next other_workspace
  plan durable documents = do
    next ← durable_next durable
    require (not (ltb (length documents) next)) log_shorter
    require (not (other_workspace durable documents)) workspace_mismatch
    chunk_documents (λ d. d.json_bytes) max_documents max_bytes (drop next documents)

  project_and_plan : Option Durable → Outcome SourceError (List Document) → Synced
  unfolding plan
  project_and_plan durable (err e) = record { scanned = false; batches = err e }
  project_and_plan durable (ok documents) = record {
    scanned = true;
    batches = plan durable documents;
  }

  unfoldable pub sync_session :
      Option Inspection → Option Durable → Outcome SourceError (List Document) → Synced
  unfolding project_and_plan
  sync_session none durable projected = project_and_plan durable projected
  sync_session (some i) durable projected =
      if ltb i.event_count i.next_seq
      then record { scanned = true; batches = err log_shorter }
      else if i.next_seq == i.event_count
      then record {
        scanned = true;
        batches =
            if not (i.workspace == i.durable_workspace)
              || not (i.scope_token == i.durable_scope_token)
            then err workspace_mismatch
            else ok [];
      }
      else project_and_plan durable projected
