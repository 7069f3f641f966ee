-- ===== src/Dsh/Chunks.antt =====
-- `chunkDocuments` and `chunkArray` of src/session-index-dsh-source.mjs. `size` is the length in
-- bytes of `JSON.stringify(document)`, which the runtime of the language computes.
pub mod Batches
pub mod Bounds
pub mod Slices
use qq_index.Prelude.{
  ℕ, zero, suc, ◌+◌, Bool, ◌||◌, List, [], ◌∷◌, ◌++◌, ltb, leb, if◌then◌else◌, length, take, drop,
  Outcome, ok, err,
}
use qq_index.Dsh.Errors.{SourceError, event_exceeds_payload}

-- The loop's variables.
pub record Batcher {ℓ} (A : Type ℓ) : Type ℓ where
  pub chunks : List (List A)
  pub current : List A
  pub current_bytes : ℕ

module _ {ℓ} {A : Type ℓ} where
  abbrev pub empty_batcher : Batcher A
  empty_batcher = record { chunks = []; current = []; current_bytes = 2 }

  -- `if (current.length > 0) chunks.push(current)`
  finish_current : List (List A) → List A → List (List A)
  finish_current chunks [] = chunks
  finish_current chunks (d ∷ ds) = chunks ++ ((d ∷ ds) ∷ [])

  finish : Batcher A → List (List A)
  unfolding finish_current
  finish b = finish_current b.chunks b.current

-- `for (offset = 0; offset < values.length; offset += size)`, each round of which takes one slice;
-- the fuel is a bound on the rounds.
module _ {ℓ} {A : Type ℓ} where
  chunk_array_from : ℕ → List A → ℕ → ℕ → List (List A)
  chunk_array_from zero values size offset = []
  chunk_array_from (suc fuel) values size offset =
      let rest =
        take size (drop offset values) ∷ chunk_array_from fuel values size (offset + size) in
      if ltb offset (length values) then rest else []

  unfoldable pub chunk_array : List A → ℕ → List (List A)
  unfolding chunk_array_from
  chunk_array values size = chunk_array_from (length values) values size 0

module _ {ℓ} {A : Type ℓ} (size : A → ℕ) (maximum_documents maximum_bytes : ℕ) where
  -- One round of the loop, after the check of the document's own size.
  place : Batcher A → A → Batcher A
  place b d =
      if leb maximum_documents (length b.current)
        || ltb maximum_bytes (b.current_bytes + (size d + 1))
      then record {
        chunks = b.chunks ++ (b.current ∷ []);
        current = d ∷ [];
        current_bytes = 2 + (size d + 1);
      }
      else record b {
        current = b.current ++ (d ∷ []);
        current_bytes = b.current_bytes + (size d + 1);
      }

  chunk_documents_from : Batcher A → List A → Outcome SourceError (List (List A))
  chunk_documents_from b [] = ok (finish b)
  chunk_documents_from b (d ∷ ds) =
      if ltb maximum_bytes (size d + 1)
      then err event_exceeds_payload
      else chunk_documents_from (place b d) ds

  unfoldable pub chunk_documents : List A → Outcome SourceError (List (List A))
  unfolding chunk_documents_from place finish
  chunk_documents documents = chunk_documents_from empty_batcher documents
