-- ===== src/Dsh/Chunks/Bounds.antt =====
-- The size of the chunks of `chunkDocuments`, in documents and in bytes.
use qq_index.Prelude.{
  ℕ, ◌+◌, ◌-◌, ◌≤◌, ◌≡◌, refl, List, [], ◌∷◌, arith, length, length-append, All, All-append,
  All-map, ok, inl, inr, Bool-cases,
}
use qq_index.Dsh.Chunks.{
  Batcher, empty_batcher, finish, finish_current, place, chunk_documents_from, chunk_documents,
}
use qq_index.Dsh.Chunks.Batches.{
  counted_bytes, array_bytes, counted_bytes-append, is_full, chunk_documents_total,
}

-- The bounds, for documents whose own size is at most `limit`: `max_bytes` itself, which the loop
-- checks, or a byte less.
module _ {ℓ} {A : Type ℓ} (size : A → ℕ) (max_docs max_bytes limit : ℕ)
    (some_document : 1 ≤ max_docs) (near : max_bytes ≤ limit + 2) where
  -- A chunk within the bounds that the loop keeps.
  record IsBounded (chunk : List A) : Type ℓ where
    documents : length chunk ≤ max_docs
    bytes : counted_bytes size chunk ≤ limit

  record Inv (b : Batcher A) : Type ℓ where
    closed : All IsBounded b.chunks
    open_chunk : IsBounded b.current
    tally : b.current_bytes ≡ 2 + counted_bytes size b.current

  place-Inv :
      (b : Batcher A) (d : A) → size d + 1 ≤ limit → Inv b → Inv (place size max_docs max_bytes b d)
  unfolding place
  place-Inv b d fits v = elim (Bool-cases (is_full size max_docs max_bytes b d)) [
    | inl full ↦ rw full (record {
      closed = All-append IsBounded b.chunks _ v.closed (v.open_chunk, tt);
      open_chunk = record { documents = omega arith; bytes = omega arith };
      tally = omega arith;
    })
    | inr room ↦ rw room (record {
      closed = v.closed;
      open_chunk = record {
        documents = ground (arith, length-append b.current (d ∷ []));
        bytes = ground (arith, counted_bytes-append size b.current (d ∷ []));
      };
      tally = omega (arith, v.tally, counted_bytes-append size b.current (d ∷ []));
    })
  ]

  finish-IsBounded :
      (chunks : List (List A)) (current : List A)
      → All IsBounded chunks
      → IsBounded current
      → All IsBounded (finish_current chunks current)
  unfolding finish_current
  finish-IsBounded chunks [] h k = h
  finish-IsBounded chunks (d ∷ ds) h k = All-append IsBounded chunks _ h (k, tt)

  loop-IsBounded :
      (b : Batcher A) (ds : List A) (chunks : List (List A))
      → Inv b
      → All (λ d. size d + 1 ≤ limit) ds
      → chunk_documents_from size max_docs max_bytes b ds ≡ ok chunks
      → All IsBounded chunks
  unfolding chunk_documents_from finish
  loop-IsBounded b [] chunks v fits h =
      let e : finish_current b.chunks b.current ≡ chunks = cc in
      rw (← e) (finish-IsBounded b.chunks b.current v.closed v.open_chunk)
  loop-IsBounded b (d ∷ ds) chunks v fits h =
      loop-IsBounded (place size max_docs max_bytes b d) ds chunks (place-Inv b d fits.0 v) fits.1
        (ground arith)

  chunk_documents-IsBounded :
      (ds : List A) (chunks : List (List A))
      → All (λ d. size d + 1 ≤ limit) ds
      → chunk_documents size max_docs max_bytes ds ≡ ok chunks
      → All IsBounded chunks
  unfolding chunk_documents
  chunk_documents-IsBounded ds chunks fits h =
      loop-IsBounded empty_batcher ds chunks
        (record {
          closed = tt;
          open_chunk = record { documents = omega arith; bytes = omega arith };
          tally = refl;
        })
        fits h

  array_bytes-le :
      (chunk : List A) → 1 ≤ limit → IsBounded chunk → array_bytes size chunk ≤ limit + 1
  array_bytes-le [] pos v = omega arith
  array_bytes-le (d ∷ ds) pos v = omega (arith, v.bytes)

module _ {ℓ} {A : Type ℓ} (size : A → ℕ) (max_docs max_bytes : ℕ) (ds : List A)
    (chunks : List (List A)) (some_document : 1 ≤ max_docs) (some_room : 1024 ≤ max_bytes)
    (done : chunk_documents size max_docs max_bytes ds ≡ ok chunks) where
  -- For bounds that the constructor admits, every chunk has at most `max_docs` documents, and its
  -- JSON array at most one byte more than `max_bytes`.
  pub chunk_documents_bounds :
      All (λ chunk. (length chunk ≤ max_docs) × (array_bytes size chunk ≤ max_bytes + 1)) chunks
  chunk_documents_bounds =
      All-map
        (λ chunk v. (
          v.documents,
          array_bytes-le size max_docs max_bytes max_bytes some_document (omega arith) chunk
              (omega arith) v,
        ))
        chunks
        (chunk_documents-IsBounded size max_docs max_bytes max_bytes some_document (omega arith) ds
          chunks ((chunk_documents_total size max_docs max_bytes ds).0 (chunks, done)) done)

  -- If no document takes all of `max_bytes` but one byte, the arrays stay within `max_bytes`.
  pub chunk_documents_within :
      All (λ d. size d + 2 ≤ max_bytes) ds
      → All (λ chunk. array_bytes size chunk ≤ max_bytes) chunks
  chunk_documents_within small =
      let limit = max_bytes - 1 in
      All-map
        (λ chunk v. omega (
          arith,
          array_bytes-le size max_docs max_bytes limit some_document (omega arith) chunk
              (omega arith) v,
        ))
        chunks
        (chunk_documents-IsBounded size max_docs max_bytes limit some_document (omega arith) ds
          chunks (All-map (λ d h. omega arith) ds small) done)

-- A document that takes all of `max_bytes` but one byte is accepted: its array is one byte larger
-- than `max_bytes`, and an empty chunk stands before it.
pub chunk_documents_overshoot {ℓ} :
    {A : Type ℓ} (size : A → ℕ) (max_docs max_bytes : ℕ) (d : A)
    → 1 ≤ max_docs
    → size d + 1 ≡ max_bytes
    → (chunk_documents size max_docs max_bytes (d ∷ []) ≡ ok ([] ∷ (d ∷ []) ∷ []))
      × (array_bytes size (d ∷ []) ≡ max_bytes + 1)
unfolding chunk_documents
chunk_documents_overshoot size max_docs max_bytes d pos e = (ground arith, omega arith)
