-- ===== src/Dsh/Source/Step/Preserved.antt =====
-- Every event keeps the invariant of the source.
use qq_index.Prelude.{
  ℕ, ◌≤◌, ◌≡◌, ap, sym, Bool, true, false, Option, none, some, List, [], ◌∷◌, ◌++◌, arith, inl, inr,
  Outcome, ok, err, Outcome-cases, subst,
}
use qq_index.Dsh.Errors.{SourceError}
use qq_index.Dsh.Decimal.{Numeric, parse_unsigned}
use qq_index.Dsh.Session.{Document, Durable, Inspection, sync_session}
use qq_index.Dsh.Source.{
  Source, TaskKind, Loop, Progress, assert_active, drain, corpus_sync, scan, task_drain,
  listing_sessions, reading_states, reading_session, applying, observe_watermark,
}
use qq_index.Dsh.Source.Task.{
  begin, begin_task, listed, states_read, states_read_on, session_read, find_state, count_scanned,
  applied,
}
use qq_index.Dsh.Source.Step.{
  Event, sessions_listed, states_answered, log_read, batch_answered, resume,
}
use qq_index.Dsh.Source.Step.Invariant.{
  Inv, Mid, is_task_drain, runs_drain, fail-Inv, drain_round-Inv, next_session-Inv, next_batch-Inv,
}

-- While a task of the loop waits, the state is as the loop wants it.
waiting-Mid :
    (loop : Loop) (s : Source) → runs_drain s.running ≡ is_task_drain loop → Inv s → Mid loop s
waiting-Mid loop s e v = ground arith

pub observe_watermark_lem :
    (value : Numeric) (s s' : Source)
    → observe_watermark value s ≡ ok s'
    → (observed : ℕ) × (parse_unsigned value ≡ ok observed)
      × (s.watermark ≤ observed)
      × (s' ≡ record s { watermark = observed })
unfolding observe_watermark
observe_watermark_lem value s s' h = elim (Outcome-cases (parse_unsigned value)) [
  | inl (observed, e) ↦ (observed, e, ground (arith, e), ground (arith, e))
  | inr (x, e) ↦ cc (rw (e, observe_watermark) at h)
]

observed-Mid :
    (loop : Loop) (value : Numeric) (s s' : Source)
    → observe_watermark value s ≡ ok s'
    → Mid loop s
    → Mid loop s'
observed-Mid loop value s s' h v =
    let (observed, parsed, above, same) = observe_watermark_lem value s s' h in
    subst (Mid loop) (sym same) (ground arith)

counted-Mid :
    (loop : Loop) (s : Source) (events documents : ℕ)
    → Mid loop s
    → Mid loop (record s { events_committed = events; documents_committed = documents })
counted-Mid loop s events documents v = ground arith

closed-Inv : (s : Source) → s.is_closed ≡ true → Inv s
closed-Inv s closed = ground arith

-- What holds before `task` is taken from the queue.
abbrev pub Waiting : TaskKind → Source → Type 0
Waiting task s = Inv (record s { queue = task ∷ s.queue; running = none })

begin_task-Inv : (task : TaskKind) (s : Source) → Waiting task s → Inv (begin_task task s)
unfolding begin_task
begin_task-Inv corpus_sync s v = elim (Outcome-cases (assert_active s)) [
  | inl (x, active) ↦ rw (active, begin_task) (ground arith)
  | inr (x, inactive) ↦ rw (inactive, begin_task) (fail-Inv scan x s (ground arith))
]
begin_task-Inv drain s v = drain_round-Inv task_drain s (ground arith)

pub begin-Inv : (task : TaskKind) (s : Source) → Waiting task s → Inv (begin task s)
unfolding begin
begin-Inv task s v = ground (arith, closed-Inv s, begin_task-Inv task s v)

listed-Inv :
    (outcome : Outcome SourceError (List ℕ)) (s : Source)
    → s.running ≡ some listing_sessions
    → Inv s
    → Inv (listed outcome s)
unfolding listed
listed-Inv (err e) s running v = fail-Inv scan e s (waiting-Mid scan s (ground (arith, running)) v)
listed-Inv (ok sessions) s running v = ground (arith, running)

states_read_on-Inv :
    (loop : Loop) (chunks : List (List ℕ)) (states : List (ℕ × Durable)) (sessions : List ℕ)
    (later : List (List ℕ)) (s : Source)
    → Mid loop s
    → Inv (states_read_on loop chunks states sessions later s)
unfolding states_read_on
states_read_on-Inv loop [] states sessions later s v =
    next_session-Inv loop states sessions later s v
states_read_on-Inv loop (chunk ∷ chunks) states sessions later s v = ground arith

states_read-Inv :
    (loop : Loop) (chunks : List (List ℕ)) (states : List (ℕ × Durable)) (sessions : List ℕ)
    (later : List (List ℕ)) (value : Numeric) (found : List (ℕ × Durable)) (s : Source)
    → Mid loop s
    → Inv (states_read loop chunks states sessions later value found s)
unfolding states_read
states_read-Inv loop chunks states sessions later value found s v =
    elim (Outcome-cases (observe_watermark value s)) [
      | inl (s', e) ↦
          rw (e, states_read)
            (states_read_on-Inv loop chunks (found ++ states) sessions later s'
              (observed-Mid loop value s s' e v))
      | inr (x, e) ↦ rw (e, states_read) (fail-Inv loop x s v)
    ]

scanned-Mid :
    (loop : Loop) (scanned : Bool) (s : Source) → Mid loop s → Mid loop (count_scanned scanned s)
unfolding count_scanned
scanned-Mid loop true s v = ground arith
scanned-Mid loop false s v = v

applied-Inv :
    (loop : Loop) (states : List (ℕ × Durable)) (batch : List Document)
    (batches : List (List Document)) (rest : List ℕ) (later : List (List ℕ)) (value : Numeric)
    (s : Source)
    → Mid loop s
    → Inv (applied loop states batch batches rest later value s)
unfolding applied
applied-Inv loop states batch batches rest later value s v =
    elim (Outcome-cases (observe_watermark value s)) [
      | inl (s', e) ↦
          rw (e, applied)
            (next_batch-Inv loop states batches rest later _
              (counted-Mid loop s' _ _ (observed-Mid loop value s s' e v)))
      | inr (x, e) ↦ rw (e, applied) (fail-Inv loop x s v)
    ]

module _ (max_buffered max_documents max_bytes : ℕ) where
  session_read-Inv :
      (loop : Loop) (states : List (ℕ × Durable)) (session : ℕ) (rest : List ℕ)
      (later : List (List ℕ)) (inspection : Option Inspection)
      (projected : Outcome SourceError (List Document)) (s : Source)
      → Mid loop s
      → Inv (
          session_read max_documents max_bytes loop states session rest later inspection projected
            s)
  unfolding session_read
  session_read-Inv loop states session rest later inspection projected s v =
      let synced =
        sync_session max_documents max_bytes inspection (find_state session states) projected in
      let counted = scanned-Mid loop synced.scanned s v in
      elim (Outcome-cases synced.batches) [
        | inl (batches, e) ↦
            rw (e, session_read) (next_batch-Inv loop states batches rest later _ counted)
        | inr (x, e) ↦ rw (e, session_read) (fail-Inv loop x _ counted)
      ]

  pub resume-Inv :
      (running : Option Progress) (event : Event) (s : Source)
      → s.running ≡ running
      → Inv s
      → Inv (resume max_buffered max_documents max_bytes running event s)
  unfolding resume
  resume-Inv (some listing_sessions) (sessions_listed outcome) s e v = listed-Inv outcome s e v
  resume-Inv (some (reading_states loop (chunk ∷ chunks) states sessions later))
        (states_answered (ok (value, found))) s e v =
      states_read-Inv loop chunks states sessions later value found s
        (waiting-Mid loop s (ap runs_drain e) v)
  resume-Inv (some (reading_states loop (chunk ∷ chunks) states sessions later))
        (states_answered (err x)) s e v =
      fail-Inv loop x s (waiting-Mid loop s (ap runs_drain e) v)
  resume-Inv (some (reading_session loop states session rest later))
        (log_read (ok (inspection, projected))) s e v =
      session_read-Inv loop states session rest later inspection projected s
        (waiting-Mid loop s (ap runs_drain e) v)
  resume-Inv (some (reading_session loop states session rest later)) (log_read (err x)) s e v =
      fail-Inv loop x s (waiting-Mid loop s (ap runs_drain e) v)
  resume-Inv (some (applying loop states batch batches rest later)) (batch_answered (ok value)) s e
        v =
      applied-Inv loop states batch batches rest later value s
        (waiting-Mid loop s (ap runs_drain e) v)
  resume-Inv (some (applying loop states batch batches rest later)) (batch_answered (err x)) s e v =
      fail-Inv loop x s (waiting-Mid loop s (ap runs_drain e) v)
  resume-Inv _ _ s e v = v
