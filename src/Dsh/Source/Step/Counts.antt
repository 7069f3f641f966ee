-- ===== src/Dsh/Source/Step/Counts.antt =====
-- The watermark, the counts and the buffer of the source.
use qq_index.Prelude.{
  ℕ, ◌≤◌, ◌≡◌, sym, subst, Bool, true, false, Option, List, ◌++◌, arith, inl, inr, Outcome, ok,
  Outcome-cases, length,
}
use qq_index.Dsh.Errors.{SourceError}
use qq_index.Dsh.Decimal.{Numeric, max_sqlite_integer, max_safe_integer}
use qq_index.Dsh.Decimal.RoundTrip.{parse_unsigned-bound}
use qq_index.Dsh.Session.{Document, Durable, Inspection, sync_session}
use qq_index.Dsh.Source.{Source, Loop, increment, observe_watermark}
use qq_index.Dsh.Source.Task.{
  fail, listed, states_read, states_read_on, count_scanned, session_read, applied, find_state,
  next_batch,
}
use qq_index.Dsh.Source.Step.Preserved.{observe_watermark_lem}
use qq_index.Dsh.Source.Step.Kept.{
  Kept, fail-Kept, next_batch-Kept, listed-Kept, states_read_on-Kept,
}

increment_bounds :
    (counter amount : ℕ)
    → counter ≤ max_safe_integer
    → (counter ≤ increment counter amount) × (increment counter amount ≤ max_safe_integer)
unfolding increment
increment_bounds counter amount h = (omega arith, omega arith)

-- The counts are in their ranges, and each event that is committed is one document.
pub record Counts (maximum : ℕ) (s : Source) : Type 0 where
  pub watermark_bound : s.watermark ≤ max_sqlite_integer
  pub events_bound : s.events_committed ≤ max_safe_integer
  pub one_each : s.documents_committed ≡ s.events_committed
  pub sessions_bound : s.sessions_scanned ≤ max_safe_integer
  pub buffered_bound : length s.buffered ≤ maximum

-- The later state counts no less, and its counts are in their ranges too.
pub record Forward (maximum : ℕ) (s s' : Source) : Type 0 where
  pub counts : Counts maximum s'
  pub watermark : s.watermark ≤ s'.watermark
  pub events : s.events_committed ≤ s'.events_committed
  pub sessions : s.sessions_scanned ≤ s'.sessions_scanned

module _ (maximum : ℕ) where
  pub Kept-Forward : (s s' : Source) → Counts maximum s → Kept s s' → Forward maximum s s'
  Kept-Forward s s' v k = ground arith

  pub then-Forward :
      (s s' s'' : Source) → Forward maximum s s' → Forward maximum s' s'' → Forward maximum s s''
  then-Forward s s' s'' v w = ground arith

  observed-Forward :
      (value : Numeric) (s s' : Source)
      → observe_watermark value s ≡ ok s'
      → Counts maximum s
      → Forward maximum s s'
  observed-Forward value s s' h v =
      let (observed, parsed, above, same) = observe_watermark_lem value s s' h in
      let below = parse_unsigned-bound value observed parsed in
      subst (Forward maximum s) (sym same) (record {
        counts = record {
          watermark_bound = below;
          events_bound = v.events_bound;
          one_each = v.one_each;
          sessions_bound = v.sessions_bound;
          buffered_bound = v.buffered_bound;
        };
        watermark = above;
        events = omega arith;
        sessions = omega arith;
      })

  pub listed-Forward :
      (outcome : Outcome SourceError (List ℕ)) (s : Source)
      → Counts maximum s
      → Forward maximum s (listed outcome s)
  listed-Forward outcome s v = Kept-Forward s (listed outcome s) v (listed-Kept outcome s)

  pub fail-Forward :
      (loop : Loop) (e : SourceError) (s : Source)
      → Counts maximum s
      → Forward maximum s (fail loop e s)
  fail-Forward loop e s v = Kept-Forward s (fail loop e s) v (fail-Kept loop e s)

  pub states_read-Forward :
      (loop : Loop) (chunks : List (List ℕ)) (states : List (ℕ × Durable)) (sessions : List ℕ)
      (later : List (List ℕ)) (value : Numeric) (found : List (ℕ × Durable)) (s : Source)
      → Counts maximum s
      → Forward maximum s (states_read loop chunks states sessions later value found s)
  unfolding states_read
  states_read-Forward loop chunks states sessions later value found s v =
      elim (Outcome-cases (observe_watermark value s)) [
        | inl (s', e) ↦
            let f = observed-Forward value s s' e v in
            rw (e, states_read)
              (then-Forward s s' (states_read_on loop chunks (found ++ states) sessions later s') f
                (Kept-Forward s' (states_read_on loop chunks (found ++ states) sessions later s')
                  f.counts (states_read_on-Kept loop chunks (found ++ states) sessions later s')))
        | inr (x, e) ↦ rw (e, states_read) (fail-Forward loop x s v)
      ]

  scanned-Forward :
      (scanned : Bool) (s : Source) → Counts maximum s → Forward maximum s (count_scanned scanned s)
  unfolding count_scanned
  scanned-Forward true s v =
      let b = increment_bounds s.sessions_scanned 1 v.sessions_bound in ground arith
  scanned-Forward false s v = ground arith

  pub session_read-Forward :
      (max_documents max_bytes : ℕ) (loop : Loop) (states : List (ℕ × Durable)) (session : ℕ)
      (rest : List ℕ) (later : List (List ℕ)) (inspection : Option Inspection)
      (projected : Outcome SourceError (List Document)) (s : Source)
      → Counts maximum s
      → Forward maximum s (
          session_read max_documents max_bytes loop states session rest later inspection projected
            s)
  unfolding session_read
  session_read-Forward max_documents max_bytes loop states session rest later inspection projected s
        v =
      let synced =
        sync_session max_documents max_bytes inspection (find_state session states) projected in
      let s' = count_scanned synced.scanned s in
      let f = scanned-Forward synced.scanned s v in
      elim (Outcome-cases synced.batches) [
        | inl (batches, e) ↦
            rw (e, session_read)
              (then-Forward s s' (next_batch loop states batches rest later s') f (
                Kept-Forward s' (next_batch loop states batches rest later s') f.counts
                  (next_batch-Kept loop states batches rest later s')))
        | inr (x, e) ↦
            rw (e, session_read)
              (then-Forward s s' (fail loop x s') f (fail-Forward loop x s' f.counts))
      ]

  committed-Forward :
      (amount : ℕ) (s : Source)
      → Counts maximum s
      → Forward maximum s (record s {
        events_committed = increment s.events_committed amount;
        documents_committed = increment s.documents_committed amount;
      })
  committed-Forward amount s v =
      let b = increment_bounds s.events_committed amount v.events_bound in ground arith

  pub applied-Forward :
      (loop : Loop) (states : List (ℕ × Durable)) (batch : List Document)
      (batches : List (List Document)) (rest : List ℕ) (later : List (List ℕ)) (value : Numeric)
      (s : Source)
      → Counts maximum s
      → Forward maximum s (applied loop states batch batches rest later value s)
  unfolding applied
  applied-Forward loop states batch batches rest later value s v =
      elim (Outcome-cases (observe_watermark value s)) [
        | inl (s', e) ↦
            let f = observed-Forward value s s' e v in
            let t : Source = record s' {
              events_committed = increment s'.events_committed (length batch);
              documents_committed = increment s'.documents_committed (length batch);
            } in
            let g = committed-Forward (length batch) s' f.counts in
            let fg = then-Forward s s' t f g in
            rw (e, applied)
              (then-Forward s t (next_batch loop states batches rest later t) fg (
                Kept-Forward t (next_batch loop states batches rest later t) fg.counts
                  (next_batch-Kept loop states batches rest later t)))
        | inr (x, e) ↦ rw (e, applied) (fail-Forward loop x s v)
      ]
