-- ===== src/Dsh/Projection/Bodies.antt =====
-- The texts of the rows of src/session-index-dsh-source.mjs: each that of a document, or of none.
use Prim.Native.String.{String}
use qq_index.Prelude.{ℕ, ◌++◌, ap, ◌∙◌, ◌≡◌, refl, ◌⊎◌, inl, inr, List, ◌∷◌, ok, ◌>>=◌, bind_ok}
use qq_index.Client.Values.{
  Value, undefined, null, other, boolean, array, object, number, string, get,
}
use qq_index.Dsh.Records.{Answer, Host, document_at}
use qq_index.Dsh.Projection.Documents.{Free, document_at-cases}
use qq_index.Dsh.Projection.{document_text, extracted_text, body_of}

module _ (c : Host) (extract : (document raw : Value) → Answer Value) where
  -- The text of a document of a record: its own text, or else what the helper extracts, where null and undefined are none.
  abbrev pub TextOf : (document raw : Value) → String → Type 0
  TextOf document raw body =
      (get "text" document ≡ string body)
      ⊎ ((s : String) → get "text" document ≡ string s → ⊥)
        × ((extract document raw ≡ ok (string body))
            ⊎ ((extract document raw ≡ ok null) ⊎ (extract document raw ≡ ok undefined))
              × (body ≡ ""))

  -- The text for the number of a record: that of the document of this number, and none where there is no such document.
  abbrev pub BodyOf : List (ℕ × Value) → ℕ → (raw : Value) → String → Type 0
  BodyOf semantic i raw body =
      Free i semantic × (body ≡ "")
      ⊎ (document : Value) × (before : List (ℕ × Value)) × (after : List (ℕ × Value)) × (semantic
          ≡ before ++ ((i, document) ∷ after))
        × TextOf document raw body

  extracted_text-TextOf :
      (document raw v : Value) (body : String)
      → ((s : String) → get "text" document ≡ string s → ⊥)
      → extract document raw ≡ ok v
      → extracted_text c v ≡ ok body
      → TextOf document raw body
  extracted_text-TextOf document raw (string s) body own e h =
      inr (own, inl (e ∙ ap (λ t. ok (string t)) (cc (h))))
  extracted_text-TextOf document raw null body own e h = inr (own, inr (inl e, cc (h)))
  extracted_text-TextOf document raw undefined body own e h = inr (own, inr (inr e, cc (h)))
  extracted_text-TextOf document raw other body own e h = cc (h)
  extracted_text-TextOf document raw (boolean b) body own e h = cc (h)
  extracted_text-TextOf document raw (number n) body own e h = cc (h)
  extracted_text-TextOf document raw (array vs) body own e h = cc (h)
  extracted_text-TextOf document raw (object p fs) body own e h = cc (h)

  extracted :
      (document raw : Value) (body : String)
      → ((s : String) → get "text" document ≡ string s → ⊥)
      → (extract document raw >>= extracted_text c) ≡ ok body
      → TextOf document raw body
  extracted document raw body own h =
      let (v, e, k) = bind_ok (extract document raw) (extracted_text c) body h in
      extracted_text-TextOf document raw v body own e k

  document_text-TextOf :
      (document raw own : Value) (body : String)
      → get "text" document ≡ own
      → document_text c extract document raw own ≡ ok body
      → TextOf document raw body
  document_text-TextOf document raw (string s) body e h = inl (e ∙ ap string (cc (h)))
  document_text-TextOf document raw undefined body e h =
      extracted document raw body (λ s q. cc (e, q)) h
  document_text-TextOf document raw null body e h = extracted document raw body (λ s q. cc (e, q)) h
  document_text-TextOf document raw other body e h =
      extracted document raw body (λ s q. cc (e, q)) h
  document_text-TextOf document raw (boolean b) body e h =
      extracted document raw body (λ s q. cc (e, q)) h
  document_text-TextOf document raw (number n) body e h =
      extracted document raw body (λ s q. cc (e, q)) h
  document_text-TextOf document raw (array vs) body e h =
      extracted document raw body (λ s q. cc (e, q)) h
  document_text-TextOf document raw (object p fs) body e h =
      extracted document raw body (λ s q. cc (e, q)) h

  pub body_of-BodyOf :
      (semantic : List (ℕ × Value)) (i : ℕ) (raw : Value) (body : String)
      → body_of c extract (document_at i semantic) raw ≡ ok body
      → BodyOf semantic i raw body
  unfolding body_of
  body_of-BodyOf semantic i raw body h = elim (document_at-cases i semantic) [
    | inl (nothing, free) ↦ inl (free, cc (rw (nothing, body_of) at h))
    | inr (document, before, after, found, split) ↦ inr (
      document,
      before,
      after,
      split,
      document_text-TextOf document raw (get "text" document) body refl (rw (found, body_of) at h),
    )
  ]
