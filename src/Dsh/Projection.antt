-- ===== src/Dsh/Projection.antt =====
-- `projectDshSessionLog` of src/session-index-dsh-source.mjs. What the injected helpers build is an argument; `extract` is
-- the helper of that name.
pub mod Documents
pub mod Bodies
pub mod Rows
mod Tests
use Prim.Native.String.{String, ◌++◌ as ◌+ˢ◌}
use qq_index.Prelude.{
  ℕ, suc, ◌+◌, Bool, true, false, not, ◌&&◌, ◌||◌, Option, none, some, List, [], ◌∷◌, ◌++◌, ltb,
  ◌==◌, if◌then◌else◌, length, Outcome, ok, err, ◌>>=◌, ◌>>◌, require,
}
use qq_index.Readme.Text.{codes}
use qq_index.Dsh.Errors.{SourceError}
use qq_index.Dsh.Decimal.{Numeric, parse_unsigned, decimal, max_sqlite_integer}
use qq_index.Client.Values.{
  Value, undefined, null, other, number, string, array, object, Number, whole, no_fields, field,
  to_list, get, same_text,
}
use qq_index.Client.Checks.{nul_free, bounded_string, is_safe}
use qq_index.Client.Requests.{text_or_empty}
use qq_index.Dsh.Records.{
  Answer, expect, or_else, is_object, accepts, bounded_text, first_string, array_result,
  derive_workspace_scope_token, numeric_of, event_sequence, time_of, event_time, is_production,
  production_workspace, generated_workspace, usable_workspace, check_records, document_at, is_found,
  by_sequence, Host,
}

-- One row of the index. `seq` is the bigint whose text is sent.
pub record Row : Type 0 where
  pub session : String
  pub seq : ℕ
  pub event_time : Number
  pub event_type : String
  pub surface : String
  pub workspace : String
  pub scope_token : String
  pub body : String
  pub fingerprint : String
  pub source_revision : String

module _ (c : Host) where
  abbrev pub extracted_text : Value → Answer String
  extracted_text (string s) = ok s
  extracted_text undefined = ok ""
  extracted_text null = ok ""
  extracted_text v = err SourceError.malformed

  abbrev pub document_text :
      (extract : (document raw : Value) → Answer Value) → (document raw own : Value) → Answer String
  document_text extract document raw (string s) = ok s
  document_text extract document raw own = extract document raw >>= extracted_text

  -- The text of a record's document, where it has one.
  unfoldable pub body_of :
      (extract : (document raw : Value) → Answer Value)
      → Option Value
      → (raw : Value) → Answer String
  unfolding get
  body_of extract none raw = ok ""
  body_of extract (some d) raw = document_text extract d raw (get "text" d)

  abbrev event_type_of : Value → Value
  event_type_of r = first_string (
      get "eventType" r
      ∷ get "eventType" (get "event" r)
      ∷ get "type" (get "event" r)
      ∷ get "type" r
      ∷ [])

  abbrev surface_of : Value → Value
  surface_of r = first_string (get "surface" r ∷ get "surface" (get "event" r) ∷ [])

  -- `generated`, of which the digests are taken.
  abbrev generated :
      (session : String) → (seq : ℕ) → Number → (event_type surface workspace body : String) → Value
  generated session seq time event_type surface workspace body = object true (
      field "projectionVersion" (string "qq-session-dsh-projection-v1") (
        field "sessionId" (string session) (
          field "seq" (string (c.digits seq)) (
            field "eventTimeUnixMs" (number time) (
              field "eventType" (string event_type) (
                field "surface" (string surface) (
                  field "workspaceId" (string workspace)
                    (field "body" (string body) no_fields))))))))

  -- The row that is pushed.
  unfoldable pub row_of :
      (session : String)
      → (seq : ℕ) → Number
      → (event_type surface workspace scope_token body : String) → Row
  row_of session seq time event_type surface workspace scope_token body = record {
    session = session;
    seq = seq;
    event_time = time;
    event_type = event_type;
    surface = surface;
    workspace = workspace;
    scope_token = scope_token;
    body = body;
    fingerprint =
        "sha256:"
        +ˢ c.digest "qq-index-dsh-event-fingerprint-v1"
            (generated session seq time event_type surface workspace body);
    source_revision =
        "sha256:"
        +ˢ c.digest "qq-index-dsh-source-revision-v1"
            (generated session seq time event_type surface workspace body);
  }

  -- One round of the loop that projects: the row of a record.
  unfoldable pub project_record :
      (extract : (document raw : Value) → Answer Value)
      → (session workspace : String) → (seq : ℕ) → Option Value
      → (raw : Value) → Answer Row
  unfolding row_of bounded_text first_string get event_time body_of derive_workspace_scope_token
  project_record extract session workspace seq semantic r = do
    event_type ← bounded_text (event_type_of r) 1 96
    surface ← bounded_text (surface_of r) 1 64
    time ← event_time c r
    extracted ← body_of extract semantic r
    body ← bounded_text (string extracted) 0 1048576
    scope_token ← derive_workspace_scope_token c workspace
    ok (row_of session seq time event_type surface workspace scope_token body)

  unfoldable pub project_records :
      (extract : (document raw : Value) → Answer Value)
      → (session workspace : String) → List (ℕ × Value)
      → (seq : ℕ) → List Value
      → Answer (List Row)
  unfolding project_record document_at
  project_records extract session workspace semantic seq [] = ok []
  project_records extract session workspace semantic seq (r ∷ rs) = do
    row ← project_record extract session workspace seq (document_at seq semantic) r
    rows ← project_records extract session workspace semantic (seq + 1) rs
    ok (row ∷ rows)

  -- What follows the workspace.
  unfoldable pub project_log :
      (extract : (document raw : Value) → Answer Value)
      → (session workspace : String) → (built_records built_documents : Answer Value)
      → Answer (List Row)
  unfolding array_result check_records by_sequence project_records
  project_log extract session workspace built_records built_documents = do
    built ← built_records
    records ← array_result built "records"
    documents ← built_documents
    semantic_documents ← array_result documents "documents"
    expect (not (ltb max_sqlite_integer (length records)))
    check_records c 0 records
    semantic ← by_sequence c (length records) [] semantic_documents
    project_records extract session workspace semantic 0 records

  abbrev for_workspace :
      (extract : (document raw : Value) → Answer Value)
      → (session : String) → (built_records built_documents : Answer Value) → Option String
      → Answer (List Row)
  for_workspace extract session built_records built_documents none = ok []
  for_workspace extract session built_records built_documents (some workspace) =
      project_log extract session workspace built_records built_documents

  abbrev same_session : String → Value → Bool
  same_session session (string s) = same_text s session
  same_session session v = false

  unfoldable pub project_dsh_session_log :
      (extract : (document raw : Value) → Answer Value)
      → (session : String) → (log : Value) → (built_records built_documents : Answer Value)
      → Answer (List Row)
  unfolding bounded_text usable_workspace project_log get
  project_dsh_session_log extract session log built_records built_documents = do
    id ← bounded_text (string session) 1 128
    expect (is_object log)
    expect (not (is_production log) || same_session session (get "id" (get "session" log)))
    workspace ← usable_workspace c log
    for_workspace extract session built_records built_documents workspace
