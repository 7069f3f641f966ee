-- ===== src/Dsh/Source/Step/Invariant.antt =====
-- What holds of the source in every order of events.
use qq_index.Prelude.{
  ℕ, ◌+◌, ltb, ◌≡◌, refl, Bool, true, false, Option, none, some, List, [], ◌∷◌, ◌++◌, arith, ◌⊎◌,
  inl, inr, Bool-cases, Outcome-cases,
}
use qq_index.Dsh.Errors.{SourceError, source_closed, source_paused, watermark_exhausted}
use qq_index.Dsh.Decimal.{max_sqlite_integer}
use qq_index.Dsh.Session.{Document, Durable}
use qq_index.Dsh.Source.{
  Source, TaskKind, Loop, Progress, assert_active, drain, corpus_sync, draining, scan, corpus_drain,
  task_drain, listing_sessions, reading_states, reading_session, applying, is_live, is_empty,
}
use qq_index.Dsh.Chunks.{chunk_array}
use qq_index.Dsh.Chunks.Slices.{chunk_array_cons}
use qq_index.Dsh.Source.Task.{
  drain_finally, fail, end_drain, next_chunk, drain_round, end_sessions, next_session, next_batch,
}

abbrev pub is_task_drain : Loop → Bool
is_task_drain task_drain = true
is_task_drain _ = false

abbrev pub runs_drain : Option Progress → Bool
runs_drain none = false
runs_drain (some listing_sessions) = false
runs_drain (some (reading_states loop chunks states sessions later)) = is_task_drain loop
runs_drain (some (reading_session loop states session rest later)) = is_task_drain loop
runs_drain (some (applying loop states batch batches rest later)) = is_task_drain loop

abbrev pub queues_drain : List TaskKind → Bool
queues_drain [] = false
queues_drain (corpus_sync ∷ queue) = queues_drain queue
queues_drain (drain ∷ queue) = true

pub queues_drain-snoc : (queue : List TaskKind) → queues_drain (queue ++ (drain ∷ [])) ≡ true
queues_drain-snoc [] = refl
queues_drain-snoc (drain ∷ queue) = refl
queues_drain-snoc (corpus_sync ∷ queue) = queues_drain-snoc queue

pub queues_drain-append :
    (queue more : List TaskKind) → queues_drain queue ≡ true → queues_drain (queue ++ more) ≡ true
queues_drain-append [] more h = cc
queues_drain-append (drain ∷ queue) more h = refl
queues_drain-append (corpus_sync ∷ queue) more h = queues_drain-append queue more h

-- A drain that is scheduled is queued or runs, and live work has a drain scheduled.
pub record Inv (s : Source) : Type 0 where
  pub scheduled :
      s.is_closed ≡ false
      → s.drain_scheduled ≡ true
      → (queues_drain s.queue ≡ true) ⊎ (runs_drain s.running ≡ true)
  pub served :
      is_live s.phase ≡ true
      → s.is_closed ≡ false
      → s.is_paused ≡ false
      → is_empty s.buffered ≡ false
      → s.drain_scheduled ≡ true

-- The same while a task of the loop is at work.
pub record Mid (loop : Loop) (s : Source) : Type 0 where
  pub scheduled :
      s.is_closed ≡ false
      → s.drain_scheduled ≡ true
      → (queues_drain s.queue ≡ true) ⊎ (is_task_drain loop ≡ true)
  pub served :
      is_live s.phase ≡ true
      → s.is_closed ≡ false
      → s.is_paused ≡ false
      → is_empty s.buffered ≡ false
      → s.drain_scheduled ≡ true

pub finally-Inv :
    (loop : Loop) (s : Source) → Mid loop s → Inv (record (drain_finally loop s) { running = none })
unfolding drain_finally
finally-Inv task_drain s v = ground (arith, queues_drain-snoc s.queue)
finally-Inv _ s v = ground arith

pub fail-Inv : (loop : Loop) (e : SourceError) (s : Source) → Mid loop s → Inv (fail loop e s)
unfolding fail
fail-Inv loop e s v = ground (arith, finally-Inv loop s v)

end_drain-Inv :
    (loop : Loop) (s : Source) → is_empty s.buffered ≡ true → Mid loop s → Inv (end_drain loop s)
unfolding end_drain
end_drain-Inv task_drain s h v = finally-Inv task_drain s v
end_drain-Inv _ s h v = ground (
  arith,
  fail-Inv scan source_closed s,
  fail-Inv scan source_paused s,
  fail-Inv corpus_drain source_closed s,
  fail-Inv corpus_drain source_paused s,
)

next_chunk-Inv :
    (loop : Loop) (chunk : List ℕ) (later : List (List ℕ)) (s : Source)
    → Mid loop s
    → Inv (next_chunk loop (chunk ∷ later) s)
unfolding next_chunk
next_chunk-Inv loop chunk later s v = ground arith

-- What the loop does next keeps `Inv`; with no chunk, a drain would end here.
taken-Mid : (loop : Loop) (s : Source) → Mid loop s → Mid loop (record s { buffered = [] })
taken-Mid loop s v = ground arith

draining-Mid : (loop : Loop) (s : Source) → Mid scan s → Mid loop (record s { phase = draining })
draining-Mid loop s v = ground arith

next_chunks-Inv :
    (loop : Loop) (sessions : List ℕ) (s : Source)
    → is_empty sessions ≡ false
    → Mid loop s
    → Inv (next_chunk loop (chunk_array sessions 32) s)
next_chunks-Inv loop [] s e v = cc
next_chunks-Inv loop (x ∷ xs) s e v =
    let (slice, later, sliced) = chunk_array_cons x xs 32 in
    rw sliced (next_chunk-Inv loop slice later s v)

pub drain_round-Inv : (loop : Loop) (s : Source) → Mid loop s → Inv (drain_round loop s)
unfolding drain_round
drain_round-Inv loop s v = elim (Bool-cases (is_empty s.buffered)) [
  | inl e ↦ rw e (end_drain-Inv loop s e v)
  | inr e ↦ rw e (elim (Outcome-cases (assert_active s)) [
    | inl (x, active) ↦
        rw active
          (next_chunks-Inv loop s.buffered (record s { buffered = [] }) e (taken-Mid loop s v))
    | inr (x, inactive) ↦ rw inactive (fail-Inv loop x s v)
  ])
]

end_sessions-Inv :
    (loop : Loop) (later : List (List ℕ)) (s : Source)
    → Mid loop s
    → Inv (end_sessions loop later s)
unfolding end_sessions
end_sessions-Inv scan later s v = drain_round-Inv corpus_drain _ (draining-Mid corpus_drain s v)
end_sessions-Inv corpus_drain [] s v = drain_round-Inv corpus_drain s v
end_sessions-Inv task_drain [] s v = drain_round-Inv task_drain s v
end_sessions-Inv corpus_drain (chunk ∷ later) s v = next_chunk-Inv corpus_drain chunk later s v
end_sessions-Inv task_drain (chunk ∷ later) s v = next_chunk-Inv task_drain chunk later s v

reading-Inv :
    (loop : Loop) (states : List (ℕ × Durable)) (session : ℕ) (rest : List ℕ)
    (later : List (List ℕ)) (s : Source)
    → Mid loop s
    → Inv (record s { running = some (reading_session loop states session rest later) })
reading-Inv loop states session rest later s v = ground arith

pub next_session-Inv :
    (loop : Loop) (states : List (ℕ × Durable)) (sessions : List ℕ) (later : List (List ℕ))
    (s : Source)
    → Mid loop s
    → Inv (next_session loop states sessions later s)
unfolding next_session
next_session-Inv loop states [] later s v = end_sessions-Inv loop later s v
next_session-Inv loop states (session ∷ rest) later s v = elim (Outcome-cases (assert_active s)) [
  | inl (x, active) ↦ rw (active, next_session) (reading-Inv loop states session rest later s v)
  | inr (x, inactive) ↦ rw (inactive, next_session) (fail-Inv loop x s v)
]

applying-Inv :
    (loop : Loop) (states : List (ℕ × Durable)) (batch : List Document)
    (batches : List (List Document)) (rest : List ℕ) (later : List (List ℕ)) (s : Source)
    → Mid loop s
    → Inv (record s { running = some (applying loop states batch batches rest later) })
applying-Inv loop states batch batches rest later s v = ground arith

pub next_batch-Inv :
    (loop : Loop) (states : List (ℕ × Durable)) (batches : List (List Document)) (rest : List ℕ)
    (later : List (List ℕ)) (s : Source)
    → Mid loop s
    → Inv (next_batch loop states batches rest later s)
unfolding next_batch
next_batch-Inv loop states [] rest later s v = next_session-Inv loop states rest later s v
next_batch-Inv loop states ([] ∷ batches) rest later s v = elim (Outcome-cases (assert_active s)) [
  | inl (x, active) ↦ rw (active, next_batch) (next_batch-Inv loop states batches rest later s v)
  | inr (x, inactive) ↦ rw (inactive, next_batch) (fail-Inv loop x s v)
]
next_batch-Inv loop states ((d ∷ ds) ∷ batches) rest later s v =
    elim (Outcome-cases (assert_active s)) [
      | inl (x, active) ↦
          rw (active, next_batch)
            (elim (Bool-cases (ltb max_sqlite_integer (s.watermark + 1))) [
              | inl e ↦ rw (e, next_batch) (fail-Inv loop watermark_exhausted s v)
              | inr e ↦
                  rw (e, next_batch) (applying-Inv loop states (d ∷ ds) batches rest later s v)
            ])
      | inr (x, inactive) ↦ rw (inactive, next_batch) (fail-Inv loop x s v)
    ]
