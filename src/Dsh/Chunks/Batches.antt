-- ===== src/Dsh/Chunks/Batches.antt =====
-- What `chunkDocuments` guarantees: order, bounds and the exact error.
use mathlib.Core.List.{append_assoc, append-nil}
use qq_index.Prelude.{
  ℕ, ◌+◌, ◌≤◌, ◌≡◌, refl, sym, ◌∙◌, Bool, ◌||◌, List, [], ◌∷◌, ◌++◌, flatten, ◌↔◌, arith, leb, ltb,
  length, All, ok, err, ap, inl, inr, Bool-cases, flatten-snoc,
}
use qq_index.Dsh.Errors.{SourceError, event_exceeds_payload}
use qq_index.Dsh.Chunks.{
  Batcher, empty_batcher, finish, finish_current, place, chunk_documents_from, chunk_documents,
}

module _ {ℓ} {A : Type ℓ} where
  -- What the loop has been given so far.
  abbrev held : Batcher A → List A
  held b = flatten b.chunks ++ b.current

  flatten-finish_current :
      (chunks : List (List A)) (current : List A)
      → flatten (finish_current chunks current) ≡ flatten chunks ++ current
  unfolding finish_current
  flatten-finish_current chunks [] = sym (append-nil (flatten chunks))
  flatten-finish_current chunks (d ∷ ds) = flatten-snoc chunks (d ∷ ds)

module _ {ℓ} {A : Type ℓ} (size : A → ℕ) where
  -- The bytes that the loop counts for a chunk: one separator for each document.
  abbrev pub counted_bytes : List A → ℕ
  counted_bytes [] = 0
  counted_bytes (d ∷ ds) = (size d + 1) + counted_bytes ds

  -- The bytes of the JSON array of the documents: brackets, and a comma between two documents.
  abbrev pub array_bytes : List A → ℕ
  array_bytes [] = 2
  array_bytes (d ∷ ds) = 1 + counted_bytes (d ∷ ds)

  pub counted_bytes-append :
      (xs ys : List A) → counted_bytes (xs ++ ys) ≡ counted_bytes xs + counted_bytes ys
  counted_bytes-append [] ys = omega arith
  counted_bytes-append (x ∷ xs) ys = omega (arith, counted_bytes-append xs ys)

module _ {ℓ} {A : Type ℓ} (size : A → ℕ) (max_docs max_bytes : ℕ) where
  abbrev pub is_full : Batcher A → A → Bool
  is_full b d = leb max_docs (length b.current) || ltb max_bytes (b.current_bytes + (size d + 1))

  held-place :
      (b : Batcher A) (d : A) → held (place size max_docs max_bytes b d) ≡ held b ++ (d ∷ [])
  unfolding place
  held-place b d = elim (Bool-cases (is_full b d)) [
    | inl full ↦ rw full (ap (λ l. l ++ (d ∷ [])) (flatten-snoc b.chunks b.current))
    | inr room ↦ rw room (sym (append_assoc (flatten b.chunks) b.current (d ∷ [])))
  ]

  held-loop :
      (b : Batcher A) (ds : List A) (chunks : List (List A))
      → chunk_documents_from size max_docs max_bytes b ds ≡ ok chunks
      → flatten chunks ≡ held b ++ ds
  unfolding chunk_documents_from finish
  held-loop b [] chunks h =
      let e : finish_current b.chunks b.current ≡ chunks = cc in
      rw (← e) (flatten-finish_current b.chunks b.current ∙ sym (append-nil (held b)))
  held-loop b (d ∷ ds) chunks h =
      held-loop (place size max_docs max_bytes b d) ds chunks (ground arith)
      ∙ rw (held-place b d) (append_assoc (held b) (d ∷ []) ds)

  -- The chunks, one after the other, are the documents in their order.
  pub flatten-chunk_documents :
      (ds : List A) (chunks : List (List A))
      → chunk_documents size max_docs max_bytes ds ≡ ok chunks
      → flatten chunks ≡ ds
  unfolding chunk_documents flatten
  flatten-chunk_documents ds chunks h = held-loop empty_batcher ds chunks h

  loop_total :
      (b : Batcher A) (ds : List A)
      → All (λ d. size d + 1 ≤ max_bytes) ds
      → (chunks : List (List A)) × (chunk_documents_from size max_docs max_bytes b ds ≡ ok chunks)
  unfolding chunk_documents_from
  loop_total b [] h = (finish b, refl)
  loop_total b (d ∷ ds) h =
      let (chunks, e) = loop_total (place size max_docs max_bytes b d) ds h.1 in
      (chunks, ground (arith, h.0))

  loop_fits :
      (b : Batcher A) (ds : List A) (chunks : List (List A))
      → chunk_documents_from size max_docs max_bytes b ds ≡ ok chunks
      → All (λ d. size d + 1 ≤ max_bytes) ds
  unfolding chunk_documents_from
  loop_fits b [] chunks h = tt
  loop_fits b (d ∷ ds) chunks h =
      (ground arith, loop_fits (place size max_docs max_bytes b d) ds chunks (ground arith))

  loop_error :
      (b : Batcher A) (ds : List A) (e : SourceError)
      → chunk_documents_from size max_docs max_bytes b ds ≡ err e
      → e ≡ event_exceeds_payload
  unfolding chunk_documents_from
  loop_error b [] e h = cc
  loop_error b (d ∷ ds) e h = ground (arith, loop_error (place size max_docs max_bytes b d) ds e)

  -- The call succeeds exactly when each document alone, with its separator, is within the bound.
  pub chunk_documents_total :
      (ds : List A)
      → ((chunks : List (List A)) × (chunk_documents size max_docs max_bytes ds ≡ ok chunks))
        ↔ All (λ d. size d + 1 ≤ max_bytes) ds
  unfolding chunk_documents
  chunk_documents_total ds =
      ((λ r. loop_fits empty_batcher ds r.0 r.1), (λ h. loop_total empty_batcher ds h))

  -- The only error that the call throws is the one for a document beyond the bound.
  pub chunk_documents_error :
      (ds : List A) (e : SourceError)
      → chunk_documents size max_docs max_bytes ds ≡ err e
      → e ≡ event_exceeds_payload
  unfolding chunk_documents
  chunk_documents_error ds e h = loop_error empty_batcher ds e h
