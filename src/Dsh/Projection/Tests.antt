-- ===== src/Dsh/Projection/Tests.antt =====
-- A run of `projectDshSessionLog` of src/session-index-dsh-source.mjs on a small log.
use Prim.Native.String.{String}
use qq_index.Prelude.{◌≡◌, refl, ◌⊎◌, true, none, some, [], ◌∷◌, ok}
use qq_index.Client.Values.{
  Value, null, string, array, object, number, whole, no_items, item, no_fields, field,
}
use qq_index.Dsh.Records.{Answer, Host, usable_workspace}
use qq_index.Dsh.Projection.{Row, project_dsh_session_log}
use qq_index.Dsh.Projection.Rows.{Complete, project_dsh_session_log-Complete}

abbrev runtime : Host
runtime = record {
  timestamp = λ v. none;
  bigint = λ v. none;
  digits = λ n. "0";
  is_absolute = λ s. true;
  hashed_scope = λ s. "w0";
  digest = λ domain v. "d";
}

abbrev extract : (document raw : Value) → Answer Value
extract document raw = ok null

abbrev log : Value
log = object true (field "workspaceId" (string "/w") no_fields)

abbrev raw_record : Value
raw_record = object true (
    field "seq" (number (whole 0)) (
      field "type" (string "message")
        (field "surface" (string "user") (field "time" (number (whole 7)) no_fields))))

abbrev document : Value
document = object true (field "seq" (string "0") (field "text" (string "hello") no_fields))

abbrev records : Answer Value
records = ok (array (item raw_record no_items))

abbrev documents : Answer Value
documents = ok (object true (field "documents" (array (item document no_items)) no_fields))

abbrev hello_row : Row
hello_row = record {
  session = "s1";
  seq = 0;
  event_time = whole 7;
  event_type = "message";
  surface = "user";
  workspace = "/w";
  scope_token = "w0";
  body = "hello";
  fingerprint = "sha256:d";
  source_revision = "sha256:d";
}

one_row : project_dsh_session_log runtime extract "s1" log records documents ≡ ok (hello_row ∷ [])
unfolding project_dsh_session_log
one_row = refl

project_dsh_session_log-Complete_example :
    (usable_workspace runtime log ≡ ok none) × ((hello_row ∷ []) ≡ [])
    ⊎ (w : String) × (usable_workspace runtime log ≡ ok (some w))
      × Complete runtime extract "s1" w records documents (hello_row ∷ [])
project_dsh_session_log-Complete_example =
    project_dsh_session_log-Complete runtime extract "s1" log records documents (hello_row ∷ [])
      one_row
