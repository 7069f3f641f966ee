-- ===== src/Dsh/Source/Task.antt =====
-- The segments of a task of the source: `#runCorpusSync`, `#drainBuffered`, `#readSourceStates`, `#syncSession` and
-- `#commit`, from one `await` to the next, with the error handling of `#enqueue`.
use qq_index.Prelude.{
  ℕ, ◌+◌, Bool, true, false, not, ◌&&◌, ◌||◌, Option, none, some, List, [], ◌∷◌, ◌++◌, ltb, ◌==◌,
  if◌then◌else◌, length, Outcome, ok, err,
}
use qq_index.Dsh.Errors.{SourceError, watermark_exhausted}
use qq_index.Dsh.Decimal.{Numeric, max_sqlite_integer}
use qq_index.Dsh.Chunks.{chunk_array}
use qq_index.Dsh.Session.{Document, Durable, Inspection, sync_session}
use qq_index.Dsh.Source.{
  Source, TaskKind, Loop, corpus_sync, drain, listing, scanning, draining, live, scan, corpus_drain,
  task_drain, listing_sessions, reading_states, reading_session, applying, is_live, is_empty,
  without, increment, record_failure, assert_active, observe_watermark, schedule_drain,
}

-- `DSH_SESSION_INDEX_MAX_SOURCE_STATE_SESSIONS`
abbrev max_state_sessions : ℕ
max_state_sessions = 32

-- The `finally` of a scheduled drain.
unfoldable pub drain_finally : Loop → Source → Source
unfolding schedule_drain
drain_finally task_drain s =
    let s' = record s { drain_scheduled = false } in
    if not (is_empty s.buffered) && is_live s.phase then schedule_drain s' else s'
drain_finally _ s = s

-- The running task throws.
unfoldable pub fail : Loop → SourceError → Source → Source
unfolding drain_finally record_failure
fail loop e s =
    let s' = record (drain_finally loop s) { running = none } in
    if s'.is_paused || s'.is_closed then s' else record_failure e s'

-- `chunkArray(sessionIds, 32)`, where no session at all still asks for the states once.
unfoldable pub state_chunks : List ℕ → List (List ℕ)
unfolding chunk_array
state_chunks [] = [] ∷ []
state_chunks (x ∷ xs) = chunk_array (x ∷ xs) max_state_sessions

-- The states of the next chunk of a drain are read.
unfoldable pub next_chunk : Loop → List (List ℕ) → Source → Source
next_chunk loop [] s = s
next_chunk loop (chunk ∷ later) s = record s {
  running = some (reading_states loop (chunk ∷ []) [] chunk later);
}

-- The drain found nothing more.
unfoldable pub end_drain : Loop → Source → Source
unfolding drain_finally fail schedule_drain assert_active
end_drain task_drain s = record (drain_finally task_drain s) { running = none }
end_drain loop s = elim (assert_active s) [
  | err e ↦ fail loop e s
  | ok _ ↦
      let s' = record s { phase = live; running = none } in
      if is_empty s.buffered then s' else schedule_drain s'
]

-- One round of the `while` of `#drainBuffered`.
unfoldable pub drain_round : Loop → Source → Source
unfolding end_drain fail assert_active next_chunk chunk_array
drain_round loop s = if is_empty s.buffered then end_drain loop s else elim (assert_active s) [
  | err e ↦ fail loop e s
  | ok _ ↦ next_chunk loop (chunk_array s.buffered max_state_sessions) (record s { buffered = [] })
]

-- All sessions of a loop, or of a chunk of it, are synchronised.
unfoldable pub end_sessions : Loop → List (List ℕ) → Source → Source
unfolding drain_round next_chunk
end_sessions scan later s = drain_round corpus_drain (record s { phase = draining })
end_sessions loop [] s = drain_round loop s
end_sessions loop (chunk ∷ later) s = next_chunk loop (chunk ∷ later) s

unfoldable pub next_session : Loop → List (ℕ × Durable) → List ℕ → List (List ℕ) → Source → Source
unfolding end_sessions assert_active fail
next_session loop states [] later s = end_sessions loop later s
next_session loop states (session ∷ rest) later s = elim (assert_active s) [
  | err e ↦ fail loop e s
  | ok _ ↦ record s { running = some (reading_session loop states session rest later) }
]

-- The loop over the batches of a session, up to the next `applyBatch`.
unfoldable pub next_batch :
    Loop → List (ℕ × Durable) → List (List Document) → List ℕ → List (List ℕ) → Source → Source
unfolding next_session assert_active fail
next_batch loop states [] rest later s = next_session loop states rest later s
next_batch loop states ([] ∷ batches) rest later s =
    let go_on = next_batch loop states batches rest later s in
    elim (assert_active s) [ err e ↦ fail loop e s | ok _ ↦ go_on ]
next_batch loop states ((d ∷ ds) ∷ batches) rest later s = elim (assert_active s) [
  | err e ↦ fail loop e s
  | ok _ ↦
      if ltb max_sqlite_integer (s.watermark + 1)
      then fail loop watermark_exhausted s
      else record s { running = some (applying loop states (d ∷ ds) batches rest later) }
]

-- `Map.get` on the states read last.
unfoldable pub find_state : ℕ → List (ℕ × Durable) → Option Durable
find_state session [] = none
find_state session ((k, d) ∷ states) = if k == session then some d else find_state session states

-- The queued task begins.
unfoldable pub begin_task : TaskKind → Source → Source
unfolding fail drain_round assert_active
begin_task corpus_sync s = elim (assert_active s) [
  | err e ↦ fail scan e s
  | ok _ ↦ record s { phase = listing; running = some listing_sessions }
]
begin_task drain s = drain_round task_drain s

-- A closed source drops its tasks.
unfoldable pub begin : TaskKind → Source → Source
unfolding begin_task
begin task s = if s.is_closed then s else begin_task task s

forget : List ℕ → List ℕ → List ℕ
unfolding without
forget [] disposed = disposed
forget (x ∷ xs) disposed = forget xs (without x disposed)

-- `listSessions` answered, and `normalizeSessionList` accepted the ids or threw.
unfoldable pub listed : Outcome SourceError (List ℕ) → Source → Source
unfolding forget fail state_chunks
listed (err e) s = fail scan e s
listed (ok sessions) s = record s {
  disposed = forget sessions s.disposed;
  phase = scanning;
  running = some (reading_states scan (state_chunks sessions) [] sessions []);
}

unfoldable pub states_read_on :
    Loop → List (List ℕ) → List (ℕ × Durable) → List ℕ → List (List ℕ) → Source → Source
unfolding next_session
states_read_on loop [] states sessions later s = next_session loop states sessions later s
states_read_on loop (chunk ∷ chunks) states sessions later s = record s {
  running = some (reading_states loop (chunk ∷ chunks) states sessions later);
}

-- `sourceState` answered with a watermark and states, for the first of the chunks.
unfoldable pub states_read :
    Loop
    → List (List ℕ)
    → List (ℕ × Durable)
    → List ℕ
    → List (List ℕ)
    → Numeric
    → List (ℕ × Durable)
    → Source
    → Source
unfolding states_read_on fail observe_watermark
states_read loop chunks states sessions later value found s = elim (observe_watermark value s) [
  | err e ↦ fail loop e s
  | ok s' ↦ states_read_on loop chunks (found ++ states) sessions later s'
]

unfoldable pub count_scanned : Bool → Source → Source
unfolding increment
count_scanned true s = record s { sessions_scanned = increment s.sessions_scanned 1 }
count_scanned false s = s

-- `applyBatch` returned a receipt.
unfoldable pub applied :
    Loop
    → List (ℕ × Durable)
    → List Document
    → List (List Document)
    → List ℕ
    → List (List ℕ)
    → Numeric
    → Source
    → Source
unfolding observe_watermark fail next_batch increment
applied loop states batch batches rest later value s = elim (observe_watermark value s) [
  | err e ↦ fail loop e s
  | ok s' ↦ next_batch loop states batches rest later (record s' {
    events_committed = increment s'.events_committed (length batch);
    documents_committed = increment s'.documents_committed (length batch);
  })
]

module _ (max_documents max_bytes : ℕ) where
  -- The log of the session was read, inspected and projected.
  unfoldable pub session_read :
      Loop
      → List (ℕ × Durable)
      → ℕ
      → List ℕ
      → List (List ℕ)
      → Option Inspection
      → Outcome SourceError (List Document)
      → Source
      → Source
  unfolding count_scanned fail next_batch find_state sync_session
  session_read loop states session rest later inspection projected s =
      let synced =
        sync_session max_documents max_bytes inspection (find_state session states) projected in
      let s' = count_scanned synced.scanned s in
      elim synced.batches [
        | err e ↦ fail loop e s'
        | ok batches ↦ next_batch loop states batches rest later s'
      ]
