-- ===== src/Dsh/Source/Step/Kept.antt =====
-- What the segments of a task leave alone: the watermark and the counts change where the daemon answers, and
-- the buffer grows only by notifications.
use qq_index.Prelude.{
  ℕ, ◌+◌, ◌≤◌, ltb, ◌≡◌, none, List, [], ◌∷◌, arith, inl, inr, Outcome, ok, err, Outcome-cases,
  Bool-cases, length,
}
use qq_index.Dsh.Errors.{SourceError, watermark_exhausted}
use qq_index.Dsh.Decimal.{max_sqlite_integer}
use qq_index.Dsh.Chunks.{chunk_array}
use qq_index.Dsh.Session.{Document, Durable}
use qq_index.Dsh.Source.{
  Source, TaskKind, Loop, SourcePhase, draining, scan, corpus_drain, task_drain, corpus_sync, drain,
  is_empty, assert_active, schedule_drain, record_failure,
}
use qq_index.Dsh.Source.Task.{
  begin, begin_task, drain_finally, fail, next_chunk, end_drain, drain_round, end_sessions,
  next_session, next_batch, listed, states_read_on,
}

pub record Kept (s s' : Source) : Type 0 where
  pub watermark_kept : s'.watermark ≡ s.watermark
  pub events_kept : s'.events_committed ≡ s.events_committed
  pub documents_kept : s'.documents_committed ≡ s.documents_committed
  pub sessions_kept : s'.sessions_scanned ≡ s.sessions_scanned
  pub no_more_buffered : length s'.buffered ≤ length s.buffered

then-Kept : (s s' s'' : Source) → Kept s s' → Kept s' s'' → Kept s s''
then-Kept s s' s'' v w = ground arith

record_failure-Kept : (e : SourceError) (s : Source) → Kept s (record_failure e s)
unfolding record_failure
record_failure-Kept e s = ground arith

drain_finally-Kept :
    (loop : Loop) (s : Source) → Kept s (record (drain_finally loop s) { running = none })
unfolding drain_finally schedule_drain
drain_finally-Kept task_drain s = ground arith
drain_finally-Kept _ s = ground arith

pub fail-Kept : (loop : Loop) (e : SourceError) (s : Source) → Kept s (fail loop e s)
unfolding fail
fail-Kept loop e s =
    let done = record (drain_finally loop s) { running = none } in
    let v =
      then-Kept s done (record_failure e done) (drain_finally-Kept loop s)
        (record_failure-Kept e done) in
    ground (arith, drain_finally-Kept loop s, v)

rest-Kept :
    (s : Source) → Kept s (schedule_drain (record s { phase = SourcePhase.live; running = none }))
unfolding schedule_drain
rest-Kept s = ground arith

end_drain-Kept : (loop : Loop) (s : Source) → Kept s (end_drain loop s)
unfolding end_drain
end_drain-Kept task_drain s = drain_finally-Kept task_drain s
end_drain-Kept scan s = elim (Outcome-cases (assert_active s)) [
  | inl (x, active) ↦ rw (active, end_drain) (ground (arith, rest-Kept s))
  | inr (x, inactive) ↦ rw (inactive, end_drain) (fail-Kept scan x s)
]
end_drain-Kept corpus_drain s = elim (Outcome-cases (assert_active s)) [
  | inl (x, active) ↦ rw (active, end_drain) (ground (arith, rest-Kept s))
  | inr (x, inactive) ↦ rw (inactive, end_drain) (fail-Kept corpus_drain x s)
]

next_chunk-Kept :
    (loop : Loop) (chunks : List (List ℕ)) (s : Source) → Kept s (next_chunk loop chunks s)
unfolding next_chunk
next_chunk-Kept loop [] s = ground arith
next_chunk-Kept loop (chunk ∷ later) s = ground arith

taken-Kept : (s : Source) → Kept s (record s { buffered = [] })
taken-Kept s = ground arith

drain_round-Kept : (loop : Loop) (s : Source) → Kept s (drain_round loop s)
unfolding drain_round
drain_round-Kept loop s = elim (Bool-cases (is_empty s.buffered)) [
  | inl e ↦ rw e (end_drain-Kept loop s)
  | inr e ↦ rw e (elim (Outcome-cases (assert_active s)) [
    | inl (x, active) ↦ rw active (
        then-Kept s (record s { buffered = [] }) _ (taken-Kept s)
          (next_chunk-Kept loop (chunk_array s.buffered 32) (record s { buffered = [] })))
    | inr (x, inactive) ↦ rw inactive (fail-Kept loop x s)
  ])
]

end_sessions-Kept :
    (loop : Loop) (later : List (List ℕ)) (s : Source) → Kept s (end_sessions loop later s)
unfolding end_sessions
end_sessions-Kept scan later s =
    then-Kept s (record s { phase = draining })
      (drain_round corpus_drain (record s { phase = draining })) (ground arith)
      (drain_round-Kept corpus_drain (record s { phase = draining }))
end_sessions-Kept corpus_drain [] s = drain_round-Kept corpus_drain s
end_sessions-Kept task_drain [] s = drain_round-Kept task_drain s
end_sessions-Kept corpus_drain (chunk ∷ later) s = next_chunk-Kept corpus_drain (chunk ∷ later) s
end_sessions-Kept task_drain (chunk ∷ later) s = next_chunk-Kept task_drain (chunk ∷ later) s

next_session-Kept :
    (loop : Loop) (states : List (ℕ × Durable)) (sessions : List ℕ) (later : List (List ℕ))
    (s : Source)
    → Kept s (next_session loop states sessions later s)
unfolding next_session
next_session-Kept loop states [] later s = end_sessions-Kept loop later s
next_session-Kept loop states (session ∷ rest) later s = elim (Outcome-cases (assert_active s)) [
  | inl (x, active) ↦ rw (active, next_session) (ground arith)
  | inr (x, inactive) ↦ rw (inactive, next_session) (fail-Kept loop x s)
]

pub next_batch-Kept :
    (loop : Loop) (states : List (ℕ × Durable)) (batches : List (List Document)) (rest : List ℕ)
    (later : List (List ℕ)) (s : Source)
    → Kept s (next_batch loop states batches rest later s)
unfolding next_batch
next_batch-Kept loop states [] rest later s = next_session-Kept loop states rest later s
next_batch-Kept loop states ([] ∷ batches) rest later s = elim (Outcome-cases (assert_active s)) [
  | inl (x, active) ↦ rw (active, next_batch) (next_batch-Kept loop states batches rest later s)
  | inr (x, inactive) ↦ rw (inactive, next_batch) (fail-Kept loop x s)
]
next_batch-Kept loop states ((d ∷ ds) ∷ batches) rest later s =
    elim (Outcome-cases (assert_active s)) [
      | inl (x, active) ↦
          rw (active, next_batch)
            (elim (Bool-cases (ltb max_sqlite_integer (s.watermark + 1))) [
              | inl e ↦ rw e (fail-Kept loop watermark_exhausted s)
              | inr e ↦ rw e (ground arith)
            ])
      | inr (x, inactive) ↦ rw (inactive, next_batch) (fail-Kept loop x s)
    ]

pub listed-Kept : (outcome : Outcome SourceError (List ℕ)) (s : Source) → Kept s (listed outcome s)
unfolding listed
listed-Kept (err e) s = fail-Kept scan e s
listed-Kept (ok sessions) s = ground arith

pub states_read_on-Kept :
    (loop : Loop) (chunks : List (List ℕ)) (states : List (ℕ × Durable)) (sessions : List ℕ)
    (later : List (List ℕ)) (s : Source)
    → Kept s (states_read_on loop chunks states sessions later s)
unfolding states_read_on
states_read_on-Kept loop [] states sessions later s = next_session-Kept loop states sessions later s
states_read_on-Kept loop (chunk ∷ chunks) states sessions later s = ground arith

begin_task-Kept : (task : TaskKind) (s : Source) → Kept s (begin_task task s)
unfolding begin_task
begin_task-Kept corpus_sync s = elim (Outcome-cases (assert_active s)) [
  | inl (x, active) ↦ rw (active, begin_task) (ground arith)
  | inr (x, inactive) ↦ rw (inactive, begin_task) (fail-Kept scan x s)
]
begin_task-Kept drain s = drain_round-Kept task_drain s

pub begin-Kept : (task : TaskKind) (s : Source) → Kept s (begin task s)
unfolding begin
begin-Kept task s = ground (arith, begin_task-Kept task s)
