-- ===== src/Client/Responses.antt =====
-- src/session-index-client.mjs: the checks of the envelope and of the responses of the daemon's sessions.
use Prim.Native.String.{String}
use qq_index.Prelude.{
  ℕ, ◌*◌, Bool, true, false, not, ◌&&◌, none, some, List, [], ◌∷◌, leb, length, Outcome, ok, err,
  ◌>>=◌, ◌>>◌,
}
use qq_index.Dsh.Decimal.{max_sqlite_integer}
use qq_index.Client.Errors.{ClientError, violation, terminal_code, Code}
use qq_index.Client.Values.{
  Value, boolean, number, string, whole, get, has_text, elements, strict_equal, text_of,
}
use qq_index.Client.Checks.{
  Check, expect, expect_protocol, plain_object, exact_object, bounded_array, bounded_string,
  identifier, unsigned_string, safe_integer, bounded_integer, boolean_value, equal, is_natural,
}

-- `SESSION_INDEX_MAX_FRAME_BYTES`, `MAX_DOCUMENTS` and `MAX_SOURCE_STATE_SESSIONS`
abbrev pub max_frame_bytes : ℕ
max_frame_bytes = 1024 * 1024

abbrev pub max_documents : ℕ
max_documents = 1024

abbrev pub max_source_state_sessions : ℕ
max_source_state_sessions = 32

abbrev pub protocol_version : Value
protocol_version = string "qq-session-index-protocol-v1"

-- What `ok` says of an envelope.
abbrev success_fields : Value → Outcome ClientError (List String)
success_fields (boolean true) = ok ("protocolVersion" ∷ "requestId" ∷ "ok" ∷ "response" ∷ [])
success_fields (boolean false) = ok ("protocolVersion" ∷ "requestId" ∷ "ok" ∷ "error" ∷ [])
success_fields v = err violation

unfoldable pub validate_envelope : (envelope : Value) → (request_id : String) → Check
unfolding plain_object exact_object identifier strict_equal
validate_envelope envelope request_id = do
  fs ← plain_object envelope
  fields ← success_fields (get "ok" envelope)
  exact_object envelope fields []
  expect_protocol (strict_equal (get "protocolVersion" envelope) protocol_version)
  identifier (get "requestId" envelope)
  expect_protocol (strict_equal (get "requestId" envelope) (string request_id))

-- The value of a field that `boolean` accepts.
abbrev pub is_true : Value → Bool
is_true (boolean b) = b
is_true v = false

abbrev known_code : Value → Outcome ClientError Code
known_code (string s) = elim (terminal_code s) [ none ↦ err violation | some c ↦ ok c ]
known_code v = err violation

-- `daemonError`: the error that is returned, or the one that is thrown.
unfoldable pub daemon_error :
    (error : Value) → (request_id : String) → Outcome ClientError ClientError
unfolding exact_object bounded_string boolean_value
daemon_error error request_id = do
  exact_object error ("code" ∷ "message" ∷ "retryable" ∷ []) []
  code ← known_code (get "code" error)
  bounded_string (get "message" error) 1 4096
  boolean_value (get "retryable" error)
  ok (record {
    code = code;
    retryable = is_true (get "retryable" error);
    request_id = some request_id;
  })

unfoldable pub is_true_value : Value → Check
unfolding equal
is_true_value v = equal v (boolean true)

-- `a < b` for two values that `boundedInteger` accepts.
abbrev pub is_below : Value → Value → Bool
is_below (number (whole m)) (number (whole n)) = not (leb n m)
is_below v w = false

unfoldable pub validate_capabilities : Value → Check
unfolding exact_object equal is_true_value bounded_integer safe_integer
validate_capabilities capabilities = do
  exact_object capabilities
      ("localUnixSocket" ∷ "serializedRequests" ∷ "serializedWriter" ∷ "activeSqliteInterrupt"
        ∷ "progressDeadlineSupport" ∷ "readerCount" ∷ "queueCapacity" ∷ "readerRetirements"
        ∷ "activeReaders" ∷ "peakActiveReaders" ∷ "maxFrameBytes" ∷ [])
      []
  is_true_value (get "localUnixSocket" capabilities)
  equal (get "serializedRequests" capabilities) (boolean false)
  is_true_value (get "serializedWriter" capabilities)
  is_true_value (get "activeSqliteInterrupt" capabilities)
  is_true_value (get "progressDeadlineSupport" capabilities)
  bounded_integer (get "readerCount" capabilities) 1 16
  bounded_integer (get "queueCapacity" capabilities) 1 1024
  safe_integer (get "readerRetirements" capabilities)
  expect (is_natural (get "readerRetirements" capabilities))
  bounded_integer (get "activeReaders" capabilities) 0 16
  bounded_integer (get "peakActiveReaders" capabilities) 0 16
  expect_protocol
      (not (is_below (get "peakActiveReaders" capabilities) (get "activeReaders" capabilities)))
  equal (get "maxFrameBytes" capabilities) (number (whole max_frame_bytes))

unfoldable pub validate_health_response : Value → Check
unfolding exact_object equal unsigned_string validate_capabilities
validate_health_response response = do
  exact_object response
      ("type" ∷ "version" ∷ "protocolVersion" ∷ "schemaVersion" ∷ "schemaFingerprint"
        ∷ "projectionVersion" ∷ "searchRequestVersion" ∷ "searchResponseVersion"
        ∷ "cancelRequestVersion" ∷ "cancelResponseVersion" ∷ "generation" ∷ "sourceWatermark"
        ∷ "capabilities" ∷ [])
      []
  equal (get "type" response) (string "health")
  equal (get "version" response) (string "health-response-v1")
  equal (get "protocolVersion" response) protocol_version
  equal (get "schemaVersion" response) (number (whole 1))
  equal (get "schemaFingerprint" response) (string "qq-session-index-schema-v1")
  equal (get "projectionVersion" response) (string "qq-session-projection-v1")
  equal (get "searchRequestVersion" response) (string "search-batch-v1")
  equal (get "searchResponseVersion" response) (string "search-batch-response-v1")
  equal (get "cancelRequestVersion" response) (string "cancel-v1")
  equal (get "cancelResponseVersion" response) (string "cancel-response-v1")
  unsigned_string (get "generation" response) max_sqlite_integer false
  unsigned_string (get "sourceWatermark" response) max_sqlite_integer false
  validate_capabilities (get "capabilities" response)

-- A session of a source state whose id is a text; `requested` and `received` are the two sets.
unfoldable pub validate_source_session :
    (requested received : List String) → Value → Outcome ClientError String
unfolding exact_object bounded_string has_text unsigned_string text_of
validate_source_session requested received session = do
  exact_object session ("sessionId" ∷ "nextSeq" ∷ "workspaceId" ∷ "headerRevision" ∷ []) []
  bounded_string (get "sessionId" session) 1 128
  id ← elim (text_of (get "sessionId" session)) [ none ↦ err violation | some s ↦ ok s ]
  expect_protocol (has_text id requested && not (has_text id received))
  unsigned_string (get "nextSeq" session) max_sqlite_integer false
  bounded_string (get "workspaceId" session) 1 4096
  bounded_string (get "headerRevision" session) 1 256
  ok id

unfoldable pub validate_source_sessions : (requested received : List String) → List Value → Check
unfolding validate_source_session
validate_source_sessions requested received [] = ok tt
validate_source_sessions requested received (session ∷ sessions) = do
  id ← validate_source_session requested received session
  validate_source_sessions requested (id ∷ received) sessions

unfoldable pub validate_source_state_response : Value → (requested : List String) → Check
unfolding exact_object equal unsigned_string bounded_array validate_source_sessions elements
validate_source_state_response response requested = do
  exact_object response ("type" ∷ "version" ∷ "generation" ∷ "sourceWatermark" ∷ "sessions" ∷ []) []
  equal (get "type" response) (string "sourceState")
  equal (get "version" response) (string "source-state-response-v1")
  unsigned_string (get "generation" response) max_sqlite_integer false
  unsigned_string (get "sourceWatermark" response) max_sqlite_integer false
  bounded_array (get "sessions" response) 0 (length requested)
  validate_source_sessions requested [] (elements (get "sessions" response))

unfoldable pub validate_commit_receipt : Value → Check
unfolding exact_object equal unsigned_string bounded_integer boolean_value
validate_commit_receipt response = do
  exact_object response
      ("type" ∷ "version" ∷ "generation" ∷ "sourceWatermark" ∷ "insertedDocuments"
        ∷ "replayedDocuments" ∷ "batchReplayed" ∷ [])
      []
  equal (get "type" response) (string "applyBatch")
  equal (get "version" response) (string "commit-receipt-v1")
  unsigned_string (get "generation" response) max_sqlite_integer false
  unsigned_string (get "sourceWatermark" response) max_sqlite_integer false
  bounded_integer (get "insertedDocuments" response) 0 max_documents
  bounded_integer (get "replayedDocuments" response) 0 max_documents
  boolean_value (get "batchReplayed" response)

-- What every response has: its fields, its type and its version.
unfoldable pub header :
    (response : Value) → (fields : List String) → (type version : String) → Check
unfolding exact_object equal
header response fields type version = do
  exact_object response fields []
  equal (get "type" response) (string type)
  equal (get "version" response) (string version)

unfoldable pub validate_shutdown_response : Value → Check
unfolding exact_object equal
validate_shutdown_response response = do
  exact_object response ("type" ∷ "version" ∷ []) []
  equal (get "type" response) (string "shutdown")
  equal (get "version" response) (string "shutdown-response-v1")

-- `[…].includes(value)` on texts.
unfoldable pub is_one_of : List String → Value → Bool
unfolding has_text
is_one_of names (string s) = has_text s names
is_one_of names v = false

unfoldable pub validate_cancel_response : Value → (target_request_id : String) → Check
unfolding exact_object equal is_one_of boolean_value
validate_cancel_response response target_request_id = do
  exact_object response
      ("type" ∷ "version" ∷ "targetRequestId" ∷ "state" ∷ "cancellationRequested" ∷ []) []
  equal (get "type" response) (string "cancel")
  equal (get "version" response) (string "cancel-response-v1")
  equal (get "targetRequestId" response) (string target_request_id)
  expect_protocol
      (is_one_of ("queued" ∷ "active" ∷ "terminal" ∷ "not-found" ∷ []) (get "state" response))
  boolean_value (get "cancellationRequested" response)
