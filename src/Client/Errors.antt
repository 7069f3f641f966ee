-- ===== src/Client/Errors.antt =====
-- `SessionIndexClientError` of src/session-index-client.mjs, and the codes that it carries.
use Prim.Native.String.{String}
use qq_index.Prelude.{Bool, true, false, Option, none, some, List, [], ◌∷◌, if◌then◌else◌}
use qq_index.Client.Values.{same_text}

-- The client's own codes, then those that only the daemon reports (`TERMINAL_ERROR_CODES`, which also
-- has `deadline_exceeded`).
pub data Code : Type 0 where
  invalid_argument protocol_violation deadline_exceeded aborted : Code
  socket_error socket_closed client_closed : Code
  cancellation_unacknowledged cancellation_control_timeout : Code
  protocol_error unsupported_version invalid_request cancelled admission_rejected forbidden : Code
  source_watermark_unavailable watermark_conflict idempotency_conflict mutation_conflict : Code
  unsupported_view unsupported_access view_building view_failed : Code
  freshness_unavailable authorization_required storage_error : Code

pub record ClientError : Type 0 where
  pub code : Code
  pub retryable : Bool
  pub request_id : Option String

-- An error that is not retryable, and one that is.
abbrev pub failure : Code → ClientError
failure c = record { code = c; retryable = false; request_id = none }

abbrev pub passing_failure : Code → ClientError
passing_failure c = record { code = c; retryable = true; request_id = none }

-- `invalid(message)`, and `invalid(message, "protocol_violation")`.
abbrev pub invalid : ClientError
invalid = failure invalid_argument

abbrev pub violation : ClientError
violation = failure protocol_violation

abbrev pub deadline_error : ClientError
deadline_error = passing_failure deadline_exceeded

abbrev pub abort_error : ClientError
abort_error = failure aborted

abbrev pub socket_failure : ClientError
socket_failure = passing_failure socket_error

abbrev pub terminal_codes : List (String × Code)
terminal_codes =
    ("protocol_error", protocol_error)
    ∷ ("unsupported_version", unsupported_version)
    ∷ ("invalid_request", invalid_request)
    ∷ ("deadline_exceeded", deadline_exceeded)
    ∷ ("cancelled", cancelled)
    ∷ ("admission_rejected", admission_rejected)
    ∷ ("forbidden", forbidden)
    ∷ ("source_watermark_unavailable", source_watermark_unavailable)
    ∷ ("watermark_conflict", watermark_conflict)
    ∷ ("idempotency_conflict", idempotency_conflict)
    ∷ ("mutation_conflict", mutation_conflict)
    ∷ ("unsupported_view", unsupported_view)
    ∷ ("unsupported_access", unsupported_access)
    ∷ ("view_building", view_building)
    ∷ ("view_failed", view_failed)
    ∷ ("freshness_unavailable", freshness_unavailable)
    ∷ ("authorization_required", authorization_required)
    ∷ ("storage_error", storage_error)
    ∷ []

find_code : String → List (String × Code) → Option Code
find_code s [] = none
find_code s ((t, c) ∷ codes) = if same_text t s then some c else find_code s codes

-- `TERMINAL_ERROR_CODES.has(code)`, with the code that it is.
unfoldable pub terminal_code : String → Option Code
unfolding find_code
terminal_code s = find_code s terminal_codes
