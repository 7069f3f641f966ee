-- ===== src/Client/ViewResponses.antt =====
-- src/session-index-client.mjs: the checks of the daemon's responses about views.
use Prim.Native.String.{String}
use qq_index.Prelude.{
  ℕ, ◌*◌, true, false, not, ◌&&◌, Option, List, [], ◌∷◌, leb, if◌then◌else◌, length, map, ok, ◌>>=◌,
  ◌>>◌,
}
use qq_index.Client.Values.{
  Value, string, object, no_fields, field, keys, entries, get, has_text, elements,
}
use qq_index.Client.Checks.{
  Check, expect_protocol, each, plain_object, exact_object, bounded_array, bounded_string,
  identifier, unsigned_string, bounded_integer, boolean_value, equal, is_null, max_u64,
}
use qq_index.Client.Responses.{max_documents, is_one_of, header}
use qq_index.Client.Requests.{cursor, text_or_empty}
use qq_index.Client.ViewRequests.{validate_view_identity, validate_json_payload}

unfoldable pub validate_view_state : Value → Check
unfolding is_one_of
validate_view_state state = expect_protocol (is_one_of ("ready" ∷ "building" ∷ "failed" ∷ []) state)

unfoldable pub validate_view_snapshot : Value → Check
unfolding exact_object cursor bounded_string
validate_view_snapshot snapshot = do
  exact_object snapshot ("generation" ∷ "sourceFence" ∷ "lagMs" ∷ []) []
  cursor (get "generation" snapshot)
  bounded_string (get "sourceFence" snapshot) 1 4096
  cursor (get "lagMs" snapshot)

unfoldable pub validate_counter : String × Value → Check
unfolding identifier unsigned_string
validate_counter (key, entry) = do identifier (string key); unsigned_string entry max_u64 false

unfoldable pub validate_unsigned_map : Value → Check
unfolding plain_object each validate_counter
validate_unsigned_map value = do
  fs ← plain_object value
  expect_protocol (leb (length (keys fs)) 32)
  each validate_counter (entries fs)

unfoldable pub validate_view_telemetry : Value → Check
unfolding exact_object bounded_string is_one_of unsigned_string validate_unsigned_map
validate_view_telemetry telemetry = do
  exact_object telemetry
      ("operation" ∷ "outcome" ∷ "elapsedMicros" ∷ "phasesMicros" ∷ "counts" ∷ []) []
  bounded_string (get "operation" telemetry) 1 64
  expect_protocol (is_one_of ("ok" ∷ "error" ∷ []) (get "outcome" telemetry))
  unsigned_string (get "elapsedMicros" telemetry) max_u64 false
  validate_unsigned_map (get "phasesMicros" telemetry)
  validate_unsigned_map (get "counts" telemetry)

-- `if (value !== null) check(value)`
unfoldable pub nullable : (Value → Check) → Value → Check
nullable check v = if is_null v then ok tt else check v

unfoldable pub partition_key : Value → Check
unfolding bounded_string
partition_key v = bounded_string v 1 256

unfoldable pub validate_view_receipt : Value → Check
unfolding header validate_view_identity bounded_string validate_view_state validate_view_snapshot
    nullable partition_key cursor bounded_integer validate_view_telemetry
validate_view_receipt response = do
  header response
      ("type" ∷ "version" ∷ "view" ∷ "buildId" ∷ "state" ∷ "snapshot" ∷ "partitionKey"
        ∷ "nextCursor" ∷ "affectedRows" ∷ "telemetry" ∷ [])
      "mutateView" "qq-index-view-response/v1"
  validate_view_identity (get "view" response)
  bounded_string (get "buildId" response) 1 256
  validate_view_state (get "state" response)
  validate_view_snapshot (get "snapshot" response)
  nullable partition_key (get "partitionKey" response)
  nullable cursor (get "nextCursor" response)
  bounded_integer (get "affectedRows" response) 0 (2 * max_documents)
  validate_view_telemetry (get "telemetry" response)

unfoldable pub validate_manifest_access : Value → Check
unfolding exact_object bounded_string bounded_integer
validate_manifest_access access = do
  exact_object access ("name" ∷ "maximumResults" ∷ "maximumWorkUnits" ∷ "authorization" ∷ []) []
  bounded_string (get "name" access) 1 128
  bounded_integer (get "maximumResults" access) 1 10000
  bounded_integer (get "maximumWorkUnits" access) 1 1000000
  bounded_string (get "authorization" access) 1 128

-- `{ id: manifest.id, version: manifest.version }`
unfoldable pub manifest_identity : Value → Value
manifest_identity manifest =
    object true
      (field "id" (get "id" manifest) (field "version" (get "version" manifest) no_fields))

unfoldable pub validate_label : Value → String → Check
unfolding bounded_string
validate_label manifest key = bounded_string (get key manifest) 1 256

unfoldable pub validate_view_manifest : Value → Check
unfolding exact_object validate_view_identity manifest_identity each validate_label bounded_integer
    boolean_value bounded_array validate_manifest_access elements
validate_view_manifest manifest = do
  exact_object manifest
      ("id" ∷ "version" ∷ "digest" ∷ "buildId" ∷ "sourceContract" ∷ "sourceStateVersion"
        ∷ "partitionKey" ∷ "rowSchema" ∷ "authorizationContract" ∷ "physicalSchema"
        ∷ "maximumPartitionRows" ∷ "maximumPartitionBytes" ∷ "testOnly" ∷ "accesses" ∷ [])
      []
  validate_view_identity (manifest_identity manifest)
  each (validate_label manifest) (
      "digest" ∷ "buildId" ∷ "sourceContract" ∷ "sourceStateVersion" ∷ "partitionKey" ∷ "rowSchema"
      ∷ "authorizationContract" ∷ "physicalSchema" ∷ [])
  bounded_integer (get "maximumPartitionRows" manifest) 1 max_documents
  bounded_integer (get "maximumPartitionBytes" manifest) 1024 (900 * 1024)
  boolean_value (get "testOnly" manifest)
  bounded_array (get "accesses" manifest) 1 32
  each validate_manifest_access (elements (get "accesses" manifest))

unfoldable pub validate_view_description : Value → Check
unfolding exact_object validate_view_manifest validate_view_state validate_view_snapshot
validate_view_description entry = do
  exact_object entry ("manifest" ∷ "state" ∷ "snapshot" ∷ []) []
  validate_view_manifest (get "manifest" entry)
  validate_view_state (get "state" entry)
  validate_view_snapshot (get "snapshot" entry)

unfoldable pub validate_describe_views_response : Value → Check
unfolding header bounded_array each validate_view_description elements
validate_describe_views_response response = do
  header response ("type" ∷ "version" ∷ "views" ∷ []) "describeViews"
      "qq-index-view-describe-response/v1"
  bounded_array (get "views" response) 1 64
  each validate_view_description (elements (get "views" response))

-- The loop over the partitions; `requested` and `seen` are the two sets.
unfoldable pub validate_partition : (requested seen : List String) → Value → Check
unfolding exact_object partition_key has_text text_or_empty bounded_string cursor
validate_partition requested seen partition = do
  exact_object partition
      ("partitionKey" ∷ "sourceIdentity" ∷ "durableRevision" ∷ "nextCursor" ∷ "generation" ∷ []) []
  partition_key (get "partitionKey" partition)
  expect_protocol (
      has_text (text_or_empty (get "partitionKey" partition)) requested
      && not (has_text (text_or_empty (get "partitionKey" partition)) seen))
  bounded_string (get "sourceIdentity" partition) 1 4096
  bounded_string (get "durableRevision" partition) 1 4096
  cursor (get "nextCursor" partition)
  cursor (get "generation" partition)

unfoldable pub validate_partitions : (requested seen : List String) → List Value → Check
unfolding validate_partition text_or_empty
validate_partitions requested seen [] = ok tt
validate_partitions requested seen (partition ∷ partitions) = do
  validate_partition requested seen partition
  validate_partitions requested (text_or_empty (get "partitionKey" partition) ∷ seen) partitions

unfoldable pub same_view : (view requested : Value) → Check
unfolding equal validate_view_identity
same_view view requested = do
  validate_view_identity view
  equal (get "id" view) (get "id" requested)
  equal (get "version" view) (get "version" requested)

unfoldable pub validate_partition_list : (partitions keys : Value) → Check
unfolding bounded_array validate_partitions elements text_or_empty
validate_partition_list partitions keys = do
  bounded_array partitions 0 (length (elements keys))
  validate_partitions (map text_or_empty (elements keys)) [] (elements partitions)

unfoldable pub validate_partition_state_response : (response request : Value) → Check
unfolding header same_view bounded_string validate_view_snapshot validate_partition_list
validate_partition_state_response response request = do
  header response ("type" ∷ "version" ∷ "view" ∷ "buildId" ∷ "snapshot" ∷ "partitions" ∷ [])
      "viewPartitionState" "qq-index-view-partition-state/v1"
  same_view (get "view" response) (get "view" request)
  bounded_string (get "buildId" response) 1 256
  validate_view_snapshot (get "snapshot" response)
  validate_partition_list (get "partitions" response) (get "partitionKeys" request)

unfoldable pub validate_view_query_response :
    (encoded_size : Value → Option ℕ) → (response request : Value) → Check
unfolding header same_view bounded_string validate_view_snapshot plain_object validate_json_payload
    validate_view_telemetry
validate_view_query_response encoded_size response request = do
  header response
      ("type" ∷ "version" ∷ "view" ∷ "buildId" ∷ "access" ∷ "snapshot" ∷ "result" ∷ "telemetry"
        ∷ [])
      "execute" "qq-index-view-response/v1"
  same_view (get "view" response) (get "view" request)
  equal (get "access" response) (get "access" request)
  bounded_string (get "buildId" response) 1 256
  validate_view_snapshot (get "snapshot" response)
  fs ← plain_object (get "result" response)
  validate_json_payload encoded_size (get "result" response)
  validate_view_telemetry (get "telemetry" response)
