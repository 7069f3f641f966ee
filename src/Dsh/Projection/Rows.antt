-- ===== src/Dsh/Projection/Rows.antt =====
-- The rows that a session log is projected to.
use Prim.Native.String.{String}
use qq_index.Prelude.{
  ℕ, ◌+◌, map, not, ◌||◌, ◌≡◌, refl, subst, ◌⊎◌, inl, inr, Option, none, some, List, [], ◌∷◌,
  length, arith, ok, ◌>>=◌, ◌>>◌, bind_ok, then_ok, ok_bind, ltb, ◌==◌,
}
use qq_index.Client.Values.{Value, Number, string, get}
use qq_index.Dsh.Decimal.{max_sqlite_integer}
use qq_index.Client.Requests.{text_or_empty}
use qq_index.Dsh.Records.{
  Answer, Host, bounded_text, array_result, event_sequence, usable_workspace, check_records,
  document_at, by_sequence, event_time, expect, is_object, is_production,
  derive_workspace_scope_token,
}
use qq_index.Dsh.Projection.Bodies.{BodyOf, body_of-BodyOf}
use qq_index.Dsh.Projection.Documents.{Distinct, Numbered, all_documents}
use qq_index.Dsh.Projection.{
  Row, row_of, body_of, event_type_of, surface_of, project_record, project_records, project_log,
  for_workspace, same_session, project_dsh_session_log,
}

own_number :
    (c : Host) (r : Value) (seq i : ℕ)
    → event_sequence c r ≡ ok seq
    → expect (seq == i) ≡ ok tt
    → event_sequence c r ≡ ok i
own_number c r seq i e h = let same : seq ≡ i = ground (arith, h) in rw (← same) e

module _ (c : Host) (extract : (document raw : Value) → Answer Value)
    (session workspace : String) where
  -- The row of one record: of its number, the session, the workspace and its scope, and with its document's text.
  abbrev pub RowOf : List (ℕ × Value) → ℕ → Value → Row → Type 0
  RowOf semantic i r row =
      (row.seq ≡ i)
      × (event_sequence c r ≡ ok i)
      × (row.session ≡ session)
      × (row.workspace ≡ workspace)
      × (derive_workspace_scope_token c workspace ≡ ok row.scope_token)
      × (event_time c r ≡ ok row.event_time)
      × BodyOf c extract semantic i r row.body

  -- One row for each record, in their order.
  pub RowsOf : List (ℕ × Value) → ℕ → List Value → List Row → Type 0
  RowsOf semantic i [] [] = Unit
  RowsOf semantic i (r ∷ rs) (row ∷ rows) = RowOf semantic i r row × RowsOf semantic (i + 1) rs rows
  RowsOf semantic i rs rows = ⊥

  bounded_text-string :
      (s t : String) (minimum maximum : ℕ) → bounded_text (string s) minimum maximum ≡ ok t → s ≡ t
  unfolding bounded_text text_or_empty
  bounded_text-string s t minimum maximum h =
      let (u, first, last) = bind_ok _ (λ _. ok s) t h in cc (last)

  row_of-RowOf :
      (semantic : List (ℕ × Value)) (i : ℕ) (r : Value) (row : Row) (time : Number)
      (event_type surface token extracted text : String)
      → event_sequence c r ≡ ok i
      → event_time c r ≡ ok time
      → body_of c extract (document_at i semantic) r ≡ ok extracted
      → extracted ≡ text
      → derive_workspace_scope_token c workspace ≡ ok token
      → Path
          (Answer Row)
          (ok (row_of c session i time event_type surface workspace token text))
          (ok row)
      → RowOf semantic i r row
  unfolding row_of
  row_of-RowOf semantic i r row time event_type surface token extracted text e t b q d h =
      let same : row_of c session i time event_type surface workspace token text ≡ row = cc (h) in
      subst (RowOf semantic i r) same
        (refl, e, refl, refl, d, t, body_of-BodyOf c extract semantic i r text (rw (← q) b))

  project_record-RowOf :
      (semantic : List (ℕ × Value)) (i : ℕ) (r : Value) (row : Row)
      → event_sequence c r ≡ ok i
      → project_record c extract session workspace i (document_at i semantic) r ≡ ok row
      → RowOf semantic i r row
  unfolding project_record
  project_record-RowOf semantic i r row e h =
      let (event_type, h1, k1) = bind_ok (bounded_text (event_type_of c r) 1 96) _ row h in
      let (surface, h2, k2) = bind_ok (bounded_text (surface_of c r) 1 64) _ row k1 in
      let (time, h3, k3) = bind_ok (event_time c r) _ row k2 in
      let (extracted, h4, k4) = bind_ok (body_of c extract (document_at i semantic) r) _ row k3 in
      let (text, h5, k5) = bind_ok (bounded_text (string extracted) 0 1048576) _ row k4 in
      let (token, h6, k6) = bind_ok (derive_workspace_scope_token c workspace) _ row k5 in
      row_of-RowOf semantic i r row time event_type surface token extracted text e h3 h4
        (bounded_text-string extracted text 0 1048576 h5) h6 k6

  project_records-RowsOf :
      (semantic : List (ℕ × Value)) (i : ℕ) (rs : List Value) (rows : List Row)
      → check_records c i rs ≡ ok tt
      → project_records c extract session workspace semantic i rs ≡ ok rows
      → RowsOf semantic i rs rows
  unfolding project_records check_records RowsOf
  project_records-RowsOf semantic i [] [] k h = tt
  project_records-RowsOf semantic i [] (row ∷ rows) k h = cc (h)
  project_records-RowsOf semantic i (r ∷ rs) rows k h =
      let number = λ (seq : ℕ). expect (seq == i) >> check_records c (i + 1) rs in
      let (o1, k1) = then_ok (expect (is_object r)) (event_sequence c r >>= number) tt k in
      let (seq, s1, k2) = bind_ok (event_sequence c r) number tt k1 in
      let (o2, k3) = then_ok (expect (seq == i)) (check_records c (i + 1) rs) tt k2 in
      let (row, r1, h1) =
        bind_ok (project_record c extract session workspace i (document_at i semantic) r) _ rows
          h in
      let (later, r2, h2) =
        bind_ok (project_records c extract session workspace semantic (i + 1) rs) _ rows h1 in
      let same : row ∷ later ≡ rows = cc (h2) in
      subst (RowsOf semantic i (r ∷ rs)) same (
        project_record-RowOf semantic i r row (own_number c r seq i s1 o2) r1,
        project_records-RowsOf semantic (i + 1) rs later k3 r2,
      )

  -- The rows of what the helpers build: one for each record, with the text of the document of its number. Each document has
  -- the number that it names, which is that of a record, and no two have the same.
  abbrev pub Complete : (built_records built_documents : Answer Value) → List Row → Type 0
  Complete built_records built_documents rows =
      (records : List Value) × (documents : List Value) × (semantic : List (ℕ × Value))
      × ((built_records >>= λ built. array_result built "records") ≡ ok records)
      × ((built_documents >>= λ built. array_result built "documents") ≡ ok documents)
      × (map (λ entry. entry.1) semantic ≡ documents)
      × Numbered c (length records) semantic
      × Distinct semantic
      × RowsOf semantic 0 records rows

  -- The parts of the projection of a log.
  project_log-RowsOf :
      (built_records built_documents : Answer Value) (rows : List Row)
      → project_log c extract session workspace built_records built_documents ≡ ok rows
      → Complete built_records built_documents rows
  unfolding project_log
  project_log-RowsOf built_records built_documents rows h =
      let project = λ (records : List Value) (semantic : List (ℕ × Value)).
        project_records c extract session workspace semantic 0 records in
      let checked = λ (records documents : List Value).
        check_records c 0 records
        >> (by_sequence c (length records) [] documents >>= project records) in
      let fitting = λ (records documents : List Value).
        expect (not (ltb max_sqlite_integer (length records))) >> checked records documents in
      let from_documents = λ (records : List Value) (built : Value).
        array_result built "documents" >>= fitting records in
      let with_records = λ (records : List Value). built_documents >>= from_documents records in
      let (built, b1, h1) =
        bind_ok built_records (λ v. array_result v "records" >>= with_records) rows h in
      let (records, b2, h2) = bind_ok (array_result built "records") with_records rows h1 in
      let (built', b3, h3) = bind_ok built_documents (from_documents records) rows h2 in
      let (documents, b4, h4) =
        bind_ok (array_result built' "documents") (fitting records) rows h3 in
      let (o, h5) =
        then_ok (expect (not (ltb max_sqlite_integer (length records)))) (checked records documents)
          rows h4 in
      let (k, h6) =
        then_ok (check_records c 0 records)
          (by_sequence c (length records) [] documents >>= project records) rows h5 in
      let (semantic, b5, h7) =
        bind_ok (by_sequence c (length records) [] documents) (project records) rows h6 in
      let documents_lem = all_documents c (length records) documents semantic b5 in
      (
        records,
        documents,
        semantic,
        ok_bind built_records (λ v. array_result v "records") built records b1 b2,
        ok_bind built_documents (λ v. array_result v "documents") built' documents b3 b4,
        documents_lem.0,
        documents_lem.1,
        documents_lem.2,
        project_records-RowsOf semantic 0 records rows k h7,
      )

for_workspace-Complete :
    (c : Host) (extract : (document raw : Value) → Answer Value) (session : String)
    (built_records built_documents : Answer Value) (workspace : Option String) (rows : List Row)
    → for_workspace c extract session built_records built_documents workspace ≡ ok rows
    → (workspace ≡ none) × (rows ≡ [])
      ⊎ (w : String) × (workspace ≡ some w)
        × Complete c extract session w built_records built_documents rows
unfolding project_log
for_workspace-Complete c extract session built_records built_documents none rows h =
    inl (refl, cc (h))
for_workspace-Complete c extract session built_records built_documents (some w) rows h =
    inr (w, refl, project_log-RowsOf c extract session w built_records built_documents rows h)

-- What a projection that returns has done. A log without a workspace has no rows. Otherwise each raw record has the number
-- of its place in the log and gets one row, in the same order, with that number, the session, the workspace and its scope
-- token, the record's time, and the text of the one document that names its number, or no text where there is none. Each
-- document names the number of a record, and no two documents name the same.
pub project_dsh_session_log-Complete :
    (c : Host) (extract : (document raw : Value) → Answer Value) (session : String) (log : Value)
    (built_records built_documents : Answer Value) (rows : List Row)
    → project_dsh_session_log c extract session log built_records built_documents ≡ ok rows
    → (usable_workspace c log ≡ ok none) × (rows ≡ [])
      ⊎ (w : String) × (usable_workspace c log ≡ ok (some w))
        × Complete c extract session w built_records built_documents rows
unfolding project_dsh_session_log
project_dsh_session_log-Complete c extract session log built_records built_documents rows h =
    let build = λ (workspace : Option String).
      for_workspace c extract session built_records built_documents workspace in
    let own = not (is_production log) || same_session c session (get "id" (get "session" log)) in
    let (id, b1, h1) =
      bind_ok (bounded_text (string session) 1 128)
        (λ _. expect (is_object log) >> (expect own >> (usable_workspace c log >>= build))) rows
        h in
    let (o1, h2) =
      then_ok (expect (is_object log)) (expect own >> (usable_workspace c log >>= build)) rows h1 in
    let (o2, h3) = then_ok (expect own) (usable_workspace c log >>= build) rows h2 in
    let (workspace, b2, h4) = bind_ok (usable_workspace c log) build rows h3 in
    elim (for_workspace-Complete c extract session built_records built_documents workspace rows
      h4) [
        | inl (e, empty) ↦ inl (rw (b2, e) refl, empty)
        | inr (w, e, complete) ↦ inr (w, rw (b2, e) refl, complete)
      ]
