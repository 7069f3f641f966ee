-- ===== src/Dsh/Listing.antt =====
-- `normalizeSessionList` of src/session-index-dsh-source.mjs, from the array on. An entry is its session id, or none
-- if it has no text of a valid length.
pub mod Unique
use qq_index.Prelude.{
  ℕ, Bool, true, false, not, Option, none, some, List, [], ◌∷◌, leb, length, Outcome, ok, err,
  ◌>>=◌, ◌>>◌, require,
}
use qq_index.Dsh.Errors.{SourceError}
use qq_index.Dsh.Source.{has}

pub unique_sessions : List ℕ → List (Option ℕ) → Outcome SourceError (List ℕ)
unique_sessions seen [] = ok []
unique_sessions seen (none ∷ values) = err SourceError.malformed
unique_sessions seen (some session ∷ values) = do
  require (not (has session seen)) SourceError.malformed
  later ← unique_sessions (session ∷ seen) values
  ok (session ∷ later)

unfoldable pub normalize_session_list : ℕ → List (Option ℕ) → Outcome SourceError (List ℕ)
unfolding unique_sessions
normalize_session_list maximum values =
    require (leb (length values) maximum) SourceError.malformed >> unique_sessions [] values
