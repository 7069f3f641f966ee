-- ===== src/Client/ViewRequests.antt =====
-- src/session-index-client.mjs: the checks of the requests that the client sends for views.
-- `encoded_size` is the length in bytes of what `JSON.stringify` gives, which is none where it throws or
-- gives undefined.
use qq_index.Prelude.{
  ℕ, ◌*◌, ◌-◌, ◌^◌, Bool, false, not, Option, none, some, [], ◌∷◌, leb, ◌==◌, if◌then◌else◌, length,
  map, Outcome, ok, err, ◌>>=◌, ◌>>◌,
}
use qq_index.Client.Errors.{ClientError, invalid}
use qq_index.Client.Values.{Value, string, get, elements}
use qq_index.Client.Checks.{
  Check, expect, each, every, plain_object, exact_object, bounded_array, bounded_string,
  bounded_integer, nonnegative_safe_integer, equal, string_list, text_codes, is_token_byte,
  are_distinct,
}
use qq_index.Client.Responses.{max_documents, is_one_of}
use qq_index.Client.Requests.{cursor, text_or_empty}

unfoldable pub validate_view_identity : Value → Check
unfolding exact_object bounded_string bounded_integer
validate_view_identity view = do
  exact_object view ("id" ∷ "version" ∷ []) []
  bounded_string (get "id" view) 1 128
  bounded_integer (get "version" view) 1 (2 ^ 32 - 1)

unfoldable pub validate_view_source : Value → Check
unfolding exact_object bounded_string cursor nonnegative_safe_integer
validate_view_source source = do
  exact_object source
      ("sourceIdentity" ∷ "durableRevision" ∷ "nextCursor" ∷ "sourceFence" ∷ "lagMs" ∷ []) []
  bounded_string (get "sourceIdentity" source) 1 4096
  bounded_string (get "durableRevision" source) 1 4096
  cursor (get "nextCursor" source)
  bounded_string (get "sourceFence" source) 1 4096
  nonnegative_safe_integer (get "lagMs" source)

unfoldable pub validate_view_lifecycle : Value → Check
unfolding exact_object validate_view_identity is_one_of bounded_string nonnegative_safe_integer
validate_view_lifecycle request = do
  exact_object request ("view" ∷ "state" ∷ "sourceFence" ∷ "lagMs" ∷ []) []
  validate_view_identity (get "view" request)
  expect (is_one_of ("ready" ∷ "building" ∷ "failed" ∷ []) (get "state" request))
  bounded_string (get "sourceFence" request) 1 4096
  nonnegative_safe_integer (get "lagMs" request)

-- The check of the request of `viewPartitionState`.
unfoldable pub validate_partition_request : Value → Check
unfolding exact_object validate_view_identity string_list elements are_distinct text_or_empty
validate_partition_request request = do
  exact_object request ("view" ∷ "partitionKeys" ∷ []) []
  validate_view_identity (get "view" request)
  string_list (get "partitionKeys" request) 64 256
  expect (not (length (elements (get "partitionKeys" request)) == 0))
  expect (are_distinct (map text_or_empty (elements (get "partitionKeys" request))))

-- `/^[a-z0-9]+$/u` on a text that is not empty.
unfoldable pub lowercase_token : Value → Check
unfolding every is_token_byte
lowercase_token v = expect (every is_token_byte (text_codes v))

unfoldable pub validate_authority : Value → Check
unfolding exact_object equal string_list elements each lowercase_token
validate_authority authority = do
  exact_object authority ("kind" ∷ "scopeTokens" ∷ []) []
  equal (get "kind" authority) (string "workspace-token-set/v1")
  string_list (get "scopeTokens" authority) 16 64
  expect (not (length (elements (get "scopeTokens" authority)) == 0))
  each lowercase_token (elements (get "scopeTokens" authority))

unfoldable pub validate_freshness : Value → Check
unfolding exact_object equal nonnegative_safe_integer
validate_freshness freshness = do
  exact_object freshness ("mode" ∷ "maxLagMs" ∷ []) []
  equal (get "mode" freshness) (string "caught-up")
  nonnegative_safe_integer (get "maxLagMs" freshness)

-- What a view mutation does.
pub data MutationKind : Type 0 where
  replace_partition apply_delta delete_partition : MutationKind

unfoldable pub mutation_kind : Value → Outcome ClientError MutationKind
unfolding is_one_of
mutation_kind kind =
    if is_one_of ("replacePartition" ∷ []) kind
    then ok replace_partition
    else if is_one_of ("applyDelta" ∷ []) kind
    then ok apply_delta
    else if is_one_of ("deletePartition" ∷ []) kind
    then ok delete_partition
    else err invalid

abbrev within_payload : Option ℕ → Bool
within_payload none = false
within_payload (some n) = leb n (900 * 1024)

module _ (encoded_size : Value → Option ℕ) where
  unfoldable pub validate_json_payload : Value → Check
  validate_json_payload value = expect (within_payload (encoded_size value))

  unfoldable pub validate_replacement : Value → Check
  unfolding exact_object validate_view_source bounded_array validate_json_payload
  validate_replacement mutation = do
    exact_object mutation ("kind" ∷ "view" ∷ "partitionKey" ∷ "source" ∷ "rows" ∷ []) []
    validate_view_source (get "source" mutation)
    bounded_array (get "rows" mutation) 0 max_documents
    validate_json_payload (get "rows" mutation)

  unfoldable pub validate_delta : Value → Check
  unfolding exact_object cursor validate_view_source bounded_array string_list validate_json_payload
  validate_delta mutation = do
    exact_object mutation
        ("kind" ∷ "view" ∷ "partitionKey" ∷ "expectedCursor" ∷ "source" ∷ "upserts" ∷ "deletes"
          ∷ [])
        []
    cursor (get "expectedCursor" mutation)
    validate_view_source (get "source" mutation)
    bounded_array (get "upserts" mutation) 0 max_documents
    string_list (get "deletes" mutation) max_documents 256
    validate_json_payload (get "upserts" mutation)

  unfoldable pub validate_deletion : Value → Check
  unfolding exact_object cursor bounded_string nonnegative_safe_integer
  validate_deletion mutation = do
    exact_object mutation
        ("kind" ∷ "view" ∷ "partitionKey" ∷ "expectedCursor" ∷ "sourceIdentity" ∷ "sourceFence"
          ∷ "lagMs" ∷ [])
        []
    cursor (get "expectedCursor" mutation)
    bounded_string (get "sourceIdentity" mutation) 1 4096
    bounded_string (get "sourceFence" mutation) 1 4096
    nonnegative_safe_integer (get "lagMs" mutation)

  unfoldable pub validate_mutation_of : MutationKind → Value → Check
  unfolding validate_replacement validate_delta validate_deletion
  validate_mutation_of replace_partition mutation = validate_replacement mutation
  validate_mutation_of apply_delta mutation = validate_delta mutation
  validate_mutation_of delete_partition mutation = validate_deletion mutation

  unfoldable pub validate_view_mutation : Value → Check
  unfolding plain_object mutation_kind validate_mutation_of validate_view_identity bounded_string
  validate_view_mutation mutation = do
    fs ← plain_object mutation
    kind ← mutation_kind (get "kind" mutation)
    validate_mutation_of kind mutation
    validate_view_identity (get "view" mutation)
    bounded_string (get "partitionKey" mutation) 1 256

  unfoldable pub validate_view_execute_request : Value → Check
  unfolding exact_object equal validate_view_identity bounded_string plain_object
      validate_json_payload validate_authority validate_freshness
  validate_view_execute_request request = do
    exact_object request ("version" ∷ "view" ∷ "access" ∷ "params" ∷ "authority" ∷ "freshness" ∷ [])
        []
    equal (get "version" request) (string "qq-index-query/v1")
    validate_view_identity (get "view" request)
    bounded_string (get "access" request) 1 128
    params ← plain_object (get "params" request)
    validate_json_payload (get "params" request)
    validate_authority (get "authority" request)
    validate_freshness (get "freshness" request)
