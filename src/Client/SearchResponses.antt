-- ===== src/Client/SearchResponses.antt =====
-- src/session-index-client.mjs: the checks of the daemon's answer to a search.
use qq_index.Prelude.{ℕ, ◌+◌, false, List, [], ◌∷◌, if◌then◌else◌, length, ok, ◌>>◌}
use qq_index.Dsh.Decimal.{max_sqlite_integer, max_safe_integer}
use qq_index.Client.Values.{Value, number, whole, get, elements}
use qq_index.Client.Checks.{
  Check, expect_protocol, each, exact_object, bounded_array, bounded_string, unsigned_string,
  safe_integer, bounded_integer, finite_number, nullable_snippet, boolean_value, equal, is_null,
}
use qq_index.Client.Responses.{is_one_of, header}

unfoldable pub validate_verification : Value → Check
unfolding exact_object bounded_string unsigned_string safe_integer nullable_snippet
validate_verification pointer = do
  exact_object pointer
      ("sessionId" ∷ "documentKey" ∷ "seq" ∷ "eventTimeUnixMs" ∷ "eventType" ∷ "surface" ∷ "snippet"
        ∷ [])
      []
  bounded_string (get "sessionId" pointer) 1 128
  bounded_string (get "documentKey" pointer) 1 512
  unsigned_string (get "seq" pointer) max_sqlite_integer false
  safe_integer (get "eventTimeUnixMs" pointer)
  bounded_string (get "eventType" pointer) 1 96
  bounded_string (get "surface" pointer) 1 64
  nullable_snippet (get "snippet" pointer)

-- One ranked result; `index` counts from 0.
unfoldable pub validate_ranked : (index : ℕ) → Value → Check
unfolding exact_object equal bounded_string finite_number validate_verification
validate_ranked index ranked = do
  exact_object ranked ("rank" ∷ "sessionId" ∷ "score" ∷ "evidence" ∷ []) []
  equal (get "rank" ranked) (number (whole (index + 1)))
  bounded_string (get "sessionId" ranked) 1 128
  finite_number (get "score" ranked)
  validate_verification (get "evidence" ranked)
  equal (get "sessionId" (get "evidence" ranked)) (get "sessionId" ranked)

-- A loop over `entries()`, which counts the items.
unfoldable pub each_entry {ℓ} : {A : Type ℓ} → (ℕ → A → Check) → (index : ℕ) → List A → Check
each_entry f index [] = ok tt
each_entry f index (x ∷ xs) = f index x >> each_entry f (index + 1) xs

unfoldable pub validate_source : (per_source_depth ordinal : ℕ) → Value → Check
unfolding exact_object equal boolean_value is_one_of bounded_integer bounded_array each_entry
    validate_ranked elements
validate_source per_source_depth ordinal source = do
  exact_object source
      ("queryOrdinal" ∷ "truncated" ∷ "truncationReason" ∷ "rawPostingsScanned" ∷ "ranked" ∷ []) []
  equal (get "queryOrdinal" source) (number (whole ordinal))
  boolean_value (get "truncated" source)
  expect_protocol (
      is_one_of ("exhausted" ∷ "source-depth" ∷ "posting-budget" ∷ [])
        (get "truncationReason" source))
  bounded_integer (get "rawPostingsScanned" source) 0 256
  bounded_array (get "ranked" source) 0 per_source_depth
  each_entry validate_ranked 0 (elements (get "ranked" source))

unfoldable pub validate_contribution : Value → Check
unfolding exact_object bounded_integer finite_number bounded_string unsigned_string nullable_snippet
validate_contribution contribution = do
  exact_object contribution
      ("queryOrdinal" ∷ "sourceRank" ∷ "contribution" ∷ "documentKey" ∷ "seq" ∷ "snippet" ∷ []) []
  bounded_integer (get "queryOrdinal" contribution) 0 4
  bounded_integer (get "sourceRank" contribution) 1 100
  finite_number (get "contribution" contribution)
  bounded_string (get "documentKey" contribution) 1 512
  unsigned_string (get "seq" contribution) max_sqlite_integer false
  nullable_snippet (get "snippet" contribution)

unfoldable pub validate_fused : (index : ℕ) → Value → Check
unfolding exact_object equal bounded_string finite_number bounded_array each validate_contribution
    elements
validate_fused index fused = do
  exact_object fused ("rank" ∷ "sessionId" ∷ "rrfScore" ∷ "contributions" ∷ []) []
  equal (get "rank" fused) (number (whole (index + 1)))
  bounded_string (get "sessionId" fused) 1 128
  finite_number (get "rrfScore" fused)
  bounded_array (get "contributions" fused) 1 5
  each validate_contribution (elements (get "contributions" fused))

-- The number of a value that `boundedInteger` accepted in the request.
unfoldable pub number_of : Value → ℕ
number_of (number (whole n)) = n
number_of v = 0

unfoldable pub validate_search_snapshot : Value → Check
unfolding exact_object unsigned_string bounded_integer
validate_search_snapshot snapshot = do
  exact_object snapshot ("generation" ∷ "sourceWatermark" ∷ "sourceLagMs" ∷ []) []
  unsigned_string (get "generation" snapshot) max_sqlite_integer false
  unsigned_string (get "sourceWatermark" snapshot) max_sqlite_integer false
  if is_null (get "sourceLagMs" snapshot)
      then ok tt
      else bounded_integer (get "sourceLagMs" snapshot) 0 max_safe_integer

unfoldable pub validate_search_response : (response request : Value) → Check
unfolding header validate_search_snapshot bounded_array each_entry validate_source number_of
    validate_fused boolean_value elements
validate_search_response response request = do
  header response ("type" ∷ "version" ∷ "snapshot" ∷ "sources" ∷ "fused" ∷ "fusedTruncated" ∷ [])
      "searchBatch" "search-batch-response-v1"
  validate_search_snapshot (get "snapshot" response)
  bounded_array (get "sources" response) (length (elements (get "literals" request)))
      (length (elements (get "literals" request)))
  each_entry (validate_source (number_of (get "perSourceDepth" request))) 0
      (elements (get "sources" response))
  bounded_array (get "fused" response) 0 (number_of (get "finalLimit" request))
  each_entry validate_fused 0 (elements (get "fused" response))
  boolean_value (get "fusedTruncated" response)
