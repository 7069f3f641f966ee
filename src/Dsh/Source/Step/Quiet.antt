-- ===== src/Dsh/Source/Step/Quiet.antt =====
-- A closed source commits nothing: the segments of its tasks.
use qq_index.Prelude.{
  ℕ, ◌≡◌, Bool, true, false, Option, some, List, [], ◌∷◌, ◌++◌, arith, inl, inr, Outcome, ok, err,
  Outcome-cases, Bool-cases,
}
use qq_index.Dsh.Errors.{SourceError, source_closed}
use qq_index.Dsh.Decimal.{Numeric}
use qq_index.Dsh.Session.{Document, Durable, Inspection, sync_session}
use qq_index.Dsh.Source.{
  Source, Progress, Loop, scan, corpus_drain, task_drain, applying, draining, is_empty,
  assert_active, schedule_drain, observe_watermark,
}
use qq_index.Dsh.Source.Task.{
  drain_finally, fail, next_chunk, end_drain, drain_round, end_sessions, next_session, next_batch,
  listed, states_read_on, states_read, count_scanned, session_read, find_state,
}
use qq_index.Dsh.Source.Step.Preserved.{observe_watermark_lem}

abbrev pub is_applying : Option Progress → Bool
is_applying (some (applying loop states batch batches rest later)) = true
is_applying _ = false

-- `s'` is closed as `s` is, it waits for no receipt, and nothing was committed in between.
abbrev pub Quiet : Source → Source → Type 0
Quiet s s' =
    (s'.is_closed ≡ true)
    × (is_applying s'.running ≡ false)
    × (s'.events_committed ≡ s.events_committed)
    × (s'.documents_committed ≡ s.documents_committed)

pub then-Quiet :
    (s s' s'' : Source)
    → s'.events_committed ≡ s.events_committed
    → s'.documents_committed ≡ s.documents_committed
    → Quiet s' s''
    → Quiet s s''
then-Quiet s s' s'' same_events same_documents (c, a, events, documents) =
    (c, a, cc (events, same_events), cc (documents, same_documents))

closed-assert_active : (s : Source) → s.is_closed ≡ true → assert_active s ≡ err source_closed
unfolding assert_active
closed-assert_active s c = ground arith

pub fail-Quiet :
    (loop : Loop) (e : SourceError) (s : Source) → s.is_closed ≡ true → Quiet s (fail loop e s)
unfolding fail drain_finally schedule_drain
fail-Quiet task_drain e s c = ground arith
fail-Quiet _ e s c = ground arith

end_drain-Quiet : (loop : Loop) (s : Source) → s.is_closed ≡ true → Quiet s (end_drain loop s)
unfolding end_drain drain_finally schedule_drain
end_drain-Quiet task_drain s c = ground arith
end_drain-Quiet scan s c =
    rw (closed-assert_active s c, end_drain) (fail-Quiet scan source_closed s c)
end_drain-Quiet corpus_drain s c =
    rw (closed-assert_active s c, end_drain) (fail-Quiet corpus_drain source_closed s c)

drain_round-Quiet : (loop : Loop) (s : Source) → s.is_closed ≡ true → Quiet s (drain_round loop s)
unfolding drain_round
drain_round-Quiet loop s c = elim (Bool-cases (is_empty s.buffered)) [
  | inl e ↦ rw e (end_drain-Quiet loop s c)
  | inr e ↦ rw (e, closed-assert_active s c) (fail-Quiet loop source_closed s c)
]

end_sessions-Quiet :
    (loop : Loop) (later : List (List ℕ)) (s : Source)
    → s.is_closed ≡ true
    → Quiet s (end_sessions loop later s)
unfolding end_sessions next_chunk
end_sessions-Quiet scan later s c = drain_round-Quiet corpus_drain (record s { phase = draining }) c
end_sessions-Quiet corpus_drain [] s c = drain_round-Quiet corpus_drain s c
end_sessions-Quiet task_drain [] s c = drain_round-Quiet task_drain s c
end_sessions-Quiet corpus_drain (chunk ∷ later) s c = ground arith
end_sessions-Quiet task_drain (chunk ∷ later) s c = ground arith

next_session-Quiet :
    (loop : Loop) (states : List (ℕ × Durable)) (sessions : List ℕ) (later : List (List ℕ))
    (s : Source)
    → s.is_closed ≡ true
    → Quiet s (next_session loop states sessions later s)
unfolding next_session
next_session-Quiet loop states [] later s c = end_sessions-Quiet loop later s c
next_session-Quiet loop states (session ∷ rest) later s c =
    rw (closed-assert_active s c, next_session) (fail-Quiet loop source_closed s c)

next_batch-Quiet :
    (loop : Loop) (states : List (ℕ × Durable)) (batches : List (List Document)) (rest : List ℕ)
    (later : List (List ℕ)) (s : Source)
    → s.is_closed ≡ true
    → Quiet s (next_batch loop states batches rest later s)
unfolding next_batch
next_batch-Quiet loop states [] rest later s c = next_session-Quiet loop states rest later s c
next_batch-Quiet loop states ([] ∷ batches) rest later s c =
    rw (closed-assert_active s c, next_batch) (fail-Quiet loop source_closed s c)
next_batch-Quiet loop states ((d ∷ ds) ∷ batches) rest later s c =
    rw (closed-assert_active s c, next_batch) (fail-Quiet loop source_closed s c)

pub listed-Quiet :
    (outcome : Outcome SourceError (List ℕ)) (s : Source)
    → s.is_closed ≡ true
    → Quiet s (listed outcome s)
unfolding listed
listed-Quiet (err e) s c = fail-Quiet scan e s c
listed-Quiet (ok sessions) s c = ground arith

states_read_on-Quiet :
    (loop : Loop) (chunks : List (List ℕ)) (states : List (ℕ × Durable)) (sessions : List ℕ)
    (later : List (List ℕ)) (s : Source)
    → s.is_closed ≡ true
    → Quiet s (states_read_on loop chunks states sessions later s)
unfolding states_read_on
states_read_on-Quiet loop [] states sessions later s c =
    next_session-Quiet loop states sessions later s c
states_read_on-Quiet loop (chunk ∷ chunks) states sessions later s c = ground arith

pub states_read-Quiet :
    (loop : Loop) (chunks : List (List ℕ)) (states : List (ℕ × Durable)) (sessions : List ℕ)
    (later : List (List ℕ)) (value : Numeric) (found : List (ℕ × Durable)) (s : Source)
    → s.is_closed ≡ true
    → Quiet s (states_read loop chunks states sessions later value found s)
unfolding states_read
states_read-Quiet loop chunks states sessions later value found s c =
    elim (Outcome-cases (observe_watermark value s)) [
      | inl (s', e) ↦
          let (observed, parsed, above, same) = observe_watermark_lem value s s' e in
          rw (e, states_read)
            (then-Quiet s s' (states_read_on loop chunks (found ++ states) sessions later s')
              (cc same) (cc same)
              (states_read_on-Quiet loop chunks (found ++ states) sessions later s' (cc same)))
      | inr (x, e) ↦ rw (e, states_read) (fail-Quiet loop x s c)
    ]

scanned-Quiet :
    (scanned : Bool) (s : Source)
    → s.is_closed ≡ true
    → ((count_scanned scanned s).is_closed ≡ true)
      × ((count_scanned scanned s).events_committed ≡ s.events_committed)
      × ((count_scanned scanned s).documents_committed ≡ s.documents_committed)
unfolding count_scanned
scanned-Quiet true s c = ground arith
scanned-Quiet false s c = ground arith

pub session_read-Quiet :
    (max_documents max_bytes : ℕ) (loop : Loop) (states : List (ℕ × Durable)) (session : ℕ)
    (rest : List ℕ) (later : List (List ℕ)) (inspection : Option Inspection)
    (projected : Outcome SourceError (List Document)) (s : Source)
    → s.is_closed ≡ true
    → Quiet s
        (session_read max_documents max_bytes loop states session rest later inspection projected s)
unfolding session_read
session_read-Quiet max_documents max_bytes loop states session rest later inspection projected s c =
    let synced =
      sync_session max_documents max_bytes inspection (find_state session states) projected in
    let counted = scanned-Quiet synced.scanned s c in
    elim (Outcome-cases synced.batches) [
      | inl (batches, e) ↦
          rw (e, session_read)
            (ground (
              arith,
              counted,
              next_batch-Quiet loop states batches rest later (count_scanned synced.scanned s),
            ))
      | inr (x, e) ↦
          rw (e, session_read)
            (ground (arith, counted, fail-Quiet loop x (count_scanned synced.scanned s)))
    ]
