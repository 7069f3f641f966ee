-- ===== src/Client/Methods.antt =====
-- src/session-index-client.mjs: the methods of `SessionIndexClient` that send a request, up to `#enqueue`: what is
-- sent, and the check of the response. `structuredClone` gives the same data; the code checks it again.
use Prim.Native.String.{String}
use qq_index.Prelude.{ℕ, true, Option, map, Outcome, ok, ◌>>◌}
use qq_index.Client.Errors.{ClientError}
use qq_index.Client.Values.{Value, string, object, no_fields, field, get, elements}
use qq_index.Client.Checks.{Check}
use qq_index.Client.Responses.{
  validate_health_response, validate_source_state_response, validate_commit_receipt,
  validate_shutdown_response,
}
use qq_index.Client.Requests.{
  validate_source_state_request, validate_mutation_batch, validate_search_request, text_or_empty,
}
use qq_index.Client.SearchResponses.{validate_search_response}
use qq_index.Client.ViewRequests.{
  validate_partition_request, validate_view_mutation, validate_view_lifecycle,
  validate_view_execute_request,
}
use qq_index.Client.ViewResponses.{
  validate_describe_views_response, validate_partition_state_response, validate_view_receipt,
  validate_view_query_response,
}

-- What is sent, and the check of its response.
pub record Request : Type 0 where
  pub operation : Value
  pub validator : Value → Check

-- `{ type }`
unfoldable pub plain_operation : String → Value
plain_operation type = object true (field "type" (string type) no_fields)

-- `{ type, version, [name]: value }`
unfoldable pub versioned : (type version name : String) → Value → Value
versioned type version name value =
    object true
      (field "type" (string type) (field "version" (string version) (field name value no_fields)))

-- `{ type, ...value }`, for a value without a type.
unfoldable pub typed : (type : String) → Value → Value
typed type (object plain fs) = object true (field "type" (string type) fs)
typed type v = plain_operation type

-- `{ type, version, ...value }`
unfoldable pub versioned_fields : (type version : String) → Value → Value
versioned_fields type version (object plain fs) =
    object true (field "type" (string type) (field "version" (string version) fs))
versioned_fields type version v =
    object true (field "type" (string type) (field "version" (string version) no_fields))

unfoldable pub health : Request
unfolding plain_operation validate_health_response
health = record { operation = plain_operation "health"; validator = validate_health_response }

unfoldable pub source_state : Value → Outcome ClientError Request
unfolding validate_source_state_request versioned validate_source_state_response text_or_empty
source_state request = do
  validate_source_state_request request
  validate_source_state_request request
  ok (record {
    operation = versioned "sourceState" "source-state-v1" "sessionIds" (get "sessionIds" request);
    validator = λ response.
        validate_source_state_response response
          (map text_or_empty (elements (get "sessionIds" request)));
  })

unfoldable pub apply_batch : Value → Outcome ClientError Request
unfolding validate_mutation_batch versioned validate_commit_receipt
apply_batch batch = do
  validate_mutation_batch batch
  validate_mutation_batch batch
  ok (record {
    operation = versioned "applyBatch" "mutation-batch-v1" "batch" batch;
    validator = validate_commit_receipt;
  })

unfoldable pub search_batch : Value → Outcome ClientError Request
unfolding validate_search_request typed validate_search_response
search_batch request = do
  validate_search_request request
  validate_search_request request
  ok (record {
    operation = typed "searchBatch" request;
    validator = λ response. validate_search_response response request;
  })

unfoldable pub describe_views : Request
unfolding validate_describe_views_response
describe_views = record {
  operation = object true (
      field "type" (string "describeViews")
        (field "version" (string "qq-index-view-describe/v1") no_fields));
  validator = validate_describe_views_response;
}

unfoldable pub view_partition_state : Value → Outcome ClientError Request
unfolding validate_partition_request versioned_fields validate_partition_state_response
view_partition_state request = do
  validate_partition_request request
  ok (record {
    operation = versioned_fields "viewPartitionState" "qq-index-view-partition-state/v1" request;
    validator = λ response. validate_partition_state_response response request;
  })

module _ (encoded_size : Value → Option ℕ) where
  unfoldable pub mutate_view : Value → Outcome ClientError Request
  unfolding validate_view_mutation versioned validate_view_receipt
  mutate_view mutation = do
    validate_view_mutation encoded_size mutation
    validate_view_mutation encoded_size mutation
    ok (record {
      operation = versioned "mutateView" "qq-index-view-mutation/v1" "mutation" mutation;
      validator = validate_view_receipt;
    })

  unfoldable pub execute : Value → Outcome ClientError Request
  unfolding validate_view_execute_request typed validate_view_query_response
  execute request = do
    validate_view_execute_request encoded_size request
    validate_view_execute_request encoded_size request
    ok (record {
      operation = typed "execute" request;
      validator = λ response. validate_view_query_response encoded_size response request;
    })

unfoldable pub set_view_lifecycle : Value → Outcome ClientError Request
unfolding validate_view_lifecycle versioned_fields validate_view_receipt
set_view_lifecycle request = do
  validate_view_lifecycle request
  validate_view_lifecycle request
  ok (record {
    operation = versioned_fields "setViewLifecycle" "qq-index-view-lifecycle/v1" request;
    validator = validate_view_receipt;
  })

unfoldable pub shutdown : Request
unfolding plain_operation validate_shutdown_response
shutdown = record { operation = plain_operation "shutdown"; validator = validate_shutdown_response }
