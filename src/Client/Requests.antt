-- ===== src/Client/Requests.antt =====
-- src/session-index-client.mjs: the checks of the requests that the client sends for sessions.
use Prim.Native.String.{String}
use qq_index.Prelude.{
  Bool, true, false, not, ◌&&◌, ◌||◌, List, [], ◌∷◌, ltb, if◌then◌else◌, ok, ◌>>◌,
}
use qq_index.Readme.Text.{is_blank}
use qq_index.Dsh.Decimal.{max_sqlite_integer}
use qq_index.Client.Values.{
  Value, undefined, number, string, whole, negative, get, has_text, elements,
}
use qq_index.Client.Checks.{
  Check, expect, each, exact_object, bounded_array, bounded_string, unsigned_string, unsigned_value,
  safe_integer, bounded_integer, equal, scope_tokens, string_list, text_codes,
}
use qq_index.Client.Responses.{max_documents, max_source_state_sessions}

unfoldable pub validate_document : Value → Check
unfolding exact_object bounded_string unsigned_string safe_integer scope_tokens
validate_document document = do
  exact_object document
      ("sessionId" ∷ "seq" ∷ "eventTimeUnixMs" ∷ "eventType" ∷ "surface" ∷ "workspaceId"
        ∷ "scopeTokens" ∷ "body" ∷ "fingerprint" ∷ "sourceRevision" ∷ [])
      []
  bounded_string (get "sessionId" document) 1 128
  unsigned_string (get "seq" document) max_sqlite_integer false
  safe_integer (get "eventTimeUnixMs" document)
  bounded_string (get "eventType" document) 1 96
  bounded_string (get "surface" document) 1 64
  bounded_string (get "workspaceId" document) 1 4096
  scope_tokens (get "scopeTokens" document)
  bounded_string (get "body" document) 0 1048576
  bounded_string (get "fingerprint" document) 1 256
  bounded_string (get "sourceRevision" document) 1 256

unfoldable pub validate_mutation_batch : Value → Check
unfolding exact_object bounded_string unsigned_string bounded_array each validate_document elements
validate_mutation_batch batch = do
  exact_object batch
      ("idempotencyKey" ∷ "payloadFingerprint" ∷ "sourceWatermark" ∷ "documents" ∷ []) []
  bounded_string (get "idempotencyKey" batch) 1 256
  bounded_string (get "payloadFingerprint" batch) 1 256
  unsigned_string (get "sourceWatermark" batch) max_sqlite_integer true
  bounded_array (get "documents" batch) 1 max_documents
  each validate_document (elements (get "documents" batch))

-- The check of the request of `sourceState`.
unfoldable pub validate_source_state_request : Value → Check
unfolding exact_object string_list
validate_source_state_request request = do
  exact_object request ("sessionIds" ∷ []) []
  string_list (get "sessionIds" request) max_source_state_sessions 128

-- `value !== undefined`
unfoldable pub is_defined : Value → Bool
is_defined undefined = false
is_defined v = true

-- `if (value !== undefined) check(value)`
unfoldable pub optional : (Value → Check) → Value → Check
unfolding is_defined
optional check v = if is_defined v then check v else ok tt

unfoldable pub validate_literal : Value → Check
unfolding bounded_string is_blank
validate_literal literal = do
  bounded_string literal 1 500
  expect (not (is_blank (text_codes literal)))

-- `a > b` for two safe integers.
unfoldable pub is_above : Value → Value → Bool
is_above (number (whole m)) (number (whole n)) = ltb n m
is_above (number (whole m)) (number (negative n)) = true
is_above (number (negative m)) (number (whole n)) = false
is_above (number (negative m)) (number (negative n)) = ltb m n
is_above v w = false

unfoldable pub cursor : Value → Check
unfolding unsigned_string
cursor v = unsigned_string v max_sqlite_integer false

unfoldable pub validate_sequence_bound : Value → Check
unfolding exact_object bounded_string
validate_sequence_bound bound = do
  exact_object bound ("sessionId" ∷ []) ("notBeforeSeq" ∷ "notAfterSeq" ∷ [])
  bounded_string (get "sessionId" bound) 1 128

-- The rest of the check of a bound, after its session was seen to be new.
unfoldable pub validate_endpoints : Value → Check
unfolding is_defined optional cursor unsigned_value
validate_endpoints bound = do
  expect (is_defined (get "notBeforeSeq" bound) || is_defined (get "notAfterSeq" bound))
  optional cursor (get "notBeforeSeq" bound)
  optional cursor (get "notAfterSeq" bound)
  expect (
      not (
        is_defined (get "notBeforeSeq" bound)
        && (is_defined (get "notAfterSeq" bound)
            && ltb (unsigned_value (get "notAfterSeq" bound))
                (unsigned_value (get "notBeforeSeq" bound)))))

-- The id of a value that `boundedString` accepts.
unfoldable pub text_or_empty : Value → String
text_or_empty (string s) = s
text_or_empty v = ""

unfoldable pub validate_sequence_bounds : (sessions : List String) → List Value → Check
unfolding validate_sequence_bound validate_endpoints has_text text_or_empty
validate_sequence_bounds sessions [] = ok tt
validate_sequence_bounds sessions (bound ∷ bounds) = do
  validate_sequence_bound bound
  expect (not (has_text (text_or_empty (get "sessionId" bound)) sessions))
  validate_endpoints bound
  validate_sequence_bounds (text_or_empty (get "sessionId" bound) ∷ sessions) bounds

unfoldable pub check_session_sequences : Value → Check
unfolding bounded_array validate_sequence_bounds elements
check_session_sequences bounds = do
  bounded_array bounds 0 128
  validate_sequence_bounds [] (elements bounds)

unfoldable pub session_list : Value → Check
unfolding string_list
session_list v = string_list v 128 128

unfoldable pub validate_filters : Value → Check
unfolding exact_object scope_tokens string_list optional session_list safe_integer is_defined
    is_above check_session_sequences
validate_filters filters = do
  exact_object filters
      ("authorizedScopeTokens" ∷ "workspaceIds" ∷ "surfaceAllowList" ∷ "eventTypeAllowList" ∷ [])
      ("includeSessionIds" ∷ "excludeSessionIds" ∷ "notBeforeEventTimeUnixMs"
        ∷ "notAfterEventTimeUnixMs" ∷ "sessionSeqBounds" ∷ [])
  scope_tokens (get "authorizedScopeTokens" filters)
  string_list (get "workspaceIds" filters) 32 4096
  string_list (get "surfaceAllowList" filters) 32 64
  string_list (get "eventTypeAllowList" filters) 32 96
  optional session_list (get "includeSessionIds" filters)
  optional session_list (get "excludeSessionIds" filters)
  optional safe_integer (get "notBeforeEventTimeUnixMs" filters)
  optional safe_integer (get "notAfterEventTimeUnixMs" filters)
  expect (
      not (
        is_defined (get "notBeforeEventTimeUnixMs" filters)
        && (is_defined (get "notAfterEventTimeUnixMs" filters)
            && is_above (get "notBeforeEventTimeUnixMs" filters)
                (get "notAfterEventTimeUnixMs" filters))))
  optional check_session_sequences (get "sessionSeqBounds" filters)

unfoldable pub validate_search_request : Value → Check
unfolding exact_object equal bounded_array each validate_literal bounded_integer validate_filters
    optional cursor elements
validate_search_request request = do
  exact_object request ("version" ∷ "literals" ∷ "perSourceDepth" ∷ "finalLimit" ∷ "filters" ∷ [])
      ("minimumSourceWatermark" ∷ [])
  equal (get "version" request) (string "search-batch-v1")
  bounded_array (get "literals" request) 1 5
  each validate_literal (elements (get "literals" request))
  bounded_integer (get "perSourceDepth" request) 1 100
  bounded_integer (get "finalLimit" request) 1 100
  validate_filters (get "filters" request)
  optional cursor (get "minimumSourceWatermark" request)
