-- ===== src/ViewSource/Replacement/Cursors.antt =====
-- src/dsh-alpha4-view-source.mjs: the cursor of a replacement counts the events that were observed.
use Prim.Native.String.{String}
use qq_index.Prelude.{
  ℕ, ◌≡◌, refl, sym, ap, ◌∙◌, true, Option, none, some, [], ◌∷◌, length, Outcome, ok, err, ◌>>=◌,
  ◌>>◌, arith,
}
use qq_index.Client.Values.{Value, string, object, field, no_fields, elements, get}
use qq_index.Client.Responses.{is_one_of}
use qq_index.ViewSource.Checks.{
  ViewSourceError, Checked, expect, exact_fields, json_bound, object_fields,
}
use qq_index.ViewSource.Records.{
  validate_observation, session_id_of, next_of, or_else, is_next, is_text, is_array, if_defined,
  revision,
}
use qq_index.ViewSource.Replacement.{
  replacement, replacement_source, revision_of, validate_rows, next_text,
}

bind_ok {ℓ} :
    {A : Type ℓ} (o : Outcome ViewSourceError A) (k : A → Checked)
    → (o >>= k) ≡ ok tt
    → (a : A) × ((o ≡ ok a) × (k a ≡ ok tt))
bind_ok (ok a) k h = (a, (refl, h))
bind_ok (err e) k h = absurd (ground (arith, h))

next_matches : (n : ℕ) (o : Option ℕ) → expect (is_next n o) ≡ ok tt → o ≡ some n
next_matches n none h = absurd (ground (arith, h))
next_matches n (some m) h = ground (arith, h)

tail_ok : (a b c d : Checked) → (a >> (b >> (c >> d))) ≡ ok tt → c ≡ ok tt
tail_ok a b c d h = ground arith

observation_cursor :
    (v : Value) (session : String)
    → validate_observation v session ≡ ok tt
    → next_of (get "cursor" v) ≡ some (length (elements (get "events" v)))
unfolding validate_observation
observation_cursor v session h =
    let n = length (elements (get "events" v)) in
    let (fs, (opened, rest)) =
      bind_ok (object_fields v)
        (λ fs.
          expect (is_one_of ("live" ∷ "prepared" ∷ []) (get "source" v))
          >> (session_id_of (get "header" v) >>= λ observed.
              expect (is_text session observed)
              >> (expect (is_array (get "events" v))
                  >> (expect (is_next n (next_of (get "cursor" v)))
                      >> if_defined revision (get "revision" v)))))
        h in
    let (u, (source, headed)) =
      bind_ok (expect (is_one_of ("live" ∷ "prepared" ∷ []) (get "source" v)))
        (λ u. session_id_of (get "header" v) >>= λ observed.
          expect (is_text session observed)
          >> (expect (is_array (get "events" v))
              >> (expect (is_next n (next_of (get "cursor" v)))
                  >> if_defined revision (get "revision" v))))
        rest in
    let (observed, (id, checked)) =
      bind_ok (session_id_of (get "header" v))
        (λ observed.
          expect (is_text session observed)
          >> (expect (is_array (get "events" v))
              >> (expect (is_next n (next_of (get "cursor" v)))
                  >> if_defined revision (get "revision" v))))
        headed in
    next_matches n (next_of (get "cursor" v)) (
      tail_ok (expect (is_text session observed)) (expect (is_array (get "events" v)))
        (expect (is_next n (next_of (get "cursor" v)))) (if_defined revision (get "revision" v))
        checked)

replacement_parts :
    (a b c d : Checked) (o q : Outcome ViewSourceError String) (k : String → String → Value)
    (m : Value)
    → (a >> (b >> (c >> (d >> (o >>= λ r. q >>= λ n. ok (k r n)))))) ≡ ok m
    → (a ≡ ok tt) × ((r : String) × ((n : String) × ((q ≡ ok n) × (m ≡ k r n))))
replacement_parts a b c d (ok r) (ok n) k m h =
    (ground (arith, h), (r, (n, (refl, ground (arith, h)))))
replacement_parts a b c d (ok r) (err e) k m h = absurd (ground (arith, h))
replacement_parts a b c d (err e) q k m h = absurd (ground (arith, h))

-- The mutation that the view source sends for an observation carries as its next cursor the number of the events
-- that were observed.
replacement_cursor :
    (text_of_number : ℕ → String) (encoded_size : Value → Option ℕ) (view : Value)
    (session source_identity : String) (observation projected m : Value)
    → replacement text_of_number encoded_size view session source_identity observation projected
      ≡ ok m
    → get "nextCursor" (get "source" m)
      ≡ string (text_of_number (length (elements (get "events" observation))))
unfolding replacement replacement_source get
replacement_cursor text_of_number encoded_size view session source_identity observation projected m
      h =
    let count = length (elements (get "events" observation)) in
    let (observed, (r, (n, (next, same)))) =
      replacement_parts (validate_observation observation session)
        (exact_fields projected ("rows" ∷ []) ("durableRevision" ∷ []))
        (validate_rows (get "rows" projected)) (json_bound encoded_size (get "rows" projected))
        (revision_of (or_else (get "durableRevision" projected) (get "revision" observation)))
        (next_text text_of_number encoded_size (next_of (get "cursor" observation)))
        (λ r n. object true (
          field "kind" (string "replacePartition") (
            field "view" view (
              field "partitionKey" (string session) (
                field "source" (replacement_source source_identity r n)
                  (field "rows" (get "rows" projected) no_fields))))))
        m h in
    let counted = observation_cursor observation session observed in
    let own : text_of_number count ≡ n = ground (arith, next, counted) in
    ap (λ v. get "nextCursor" (get "source" v)) same ∙ ap string (sym own)
