-- ===== src/Dsh/Source/Step/Failure.antt =====
-- A failure while the corpus is listed.
use qq_index.Prelude.{ℕ, ◌≡◌, refl, true, false, none, some, List, [], ◌∷◌, arith, ok, err}
use qq_index.Dsh.Errors.{SourceError}
use qq_index.Dsh.Chunks.Slices.{chunk_array_cons}
use qq_index.Dsh.Source.{
  Source, scanning, malformed_notification, listing_sessions, on_live, record_failure,
}
use qq_index.Dsh.Source.Task.{state_chunks, listed, fail, drain_finally}
use qq_index.Dsh.Source.Step.{notified, sessions_listed, states_answered, step, run, resume}

state_chunks_cons :
    (sessions : List ℕ)
    → (chunk : List ℕ) × (later : List (List ℕ)) × (state_chunks sessions ≡ chunk ∷ later)
unfolding state_chunks
state_chunks_cons [] = ([], [], refl)
state_chunks_cons (x ∷ xs) = chunk_array_cons x xs 32

module _ (max_buffered max_documents max_bytes : ℕ) where
  -- If a malformed notification comes while the corpus is listed, the listing then answers and the states
  -- cannot be read, then the source has stopped with that failure as its last error, but its phase is
  -- `scanning`, not `error`.
  pub failure_hidden :
      (sessions : List ℕ) (x : SourceError) (s : Source)
      → s.is_closed ≡ false
      → s.is_paused ≡ false
      → s.running ≡ some listing_sessions
      → ((run max_buffered max_documents max_bytes s (
            notified malformed_notification
            ∷ sessions_listed (ok sessions)
            ∷ states_answered (err x)
            ∷ [])).phase
          ≡ scanning)
        × ((run max_buffered max_documents max_bytes s (
              notified malformed_notification
              ∷ sessions_listed (ok sessions)
              ∷ states_answered (err x)
              ∷ [])).is_paused
            ≡ true)
        × ((run max_buffered max_documents max_bytes s (
              notified malformed_notification
              ∷ sessions_listed (ok sessions)
              ∷ states_answered (err x)
              ∷ [])).running
            ≡ none)
        × ((run max_buffered max_documents max_bytes s (
              notified malformed_notification
              ∷ sessions_listed (ok sessions)
              ∷ states_answered (err x)
              ∷ [])).last_error
            ≡ some SourceError.malformed)
  unfolding run step on_live record_failure resume listed fail drain_finally
  failure_hidden sessions x s opened active waiting =
      let (chunk, later, cut) = state_chunks_cons sessions in ground (arith, cut)
