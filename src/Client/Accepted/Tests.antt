-- ===== src/Client/Accepted/Tests.antt =====
-- Values that the checks of src/session-index-client.mjs accept.
use qq_index.Prelude.{◌≤◌, ◌≡◌, refl, true, false, [], ◌∷◌, length, All, ok, err, ◌⊎◌}
use qq_index.Readme.Text.{codes}
use qq_index.Dsh.Errors.{malformed}
use qq_index.Client.Errors.{invalid}
use qq_index.Dsh.Decimal.{parse_unsigned, text, max_sqlite_integer}
use qq_index.Client.Values.{Value, string, boolean, null, get, elements, has_text}
use qq_index.Client.Checks.{every, are_distinct, unsigned_string, unsigned_value}
use qq_index.Client.Responses.{validate_source_state_response}
use qq_index.Client.SearchResponses.{validate_search_response, number_of}
use qq_index.Client.Accepted.Cursors.{cursor_agrees}
use qq_index.Client.Accepted.Sessions.{source_state_lem, session_ids}
use qq_index.Client.Accepted.Search.{search_response_lem, RankedFrom, SourceOf}
use qq_index.Client.Tests.{obj, arr, num}

cursor_agrees_example :
    (unsigned_string (string "42") max_sqlite_integer false ≡ ok tt)
      × (parse_unsigned (text (codes "42")) ≡ ok (unsigned_value (string "42")))
    ⊎ (unsigned_string (string "42") max_sqlite_integer false ≡ err invalid)
      × (parse_unsigned (text (codes "42")) ≡ err malformed)
cursor_agrees_example = cursor_agrees "42"

abbrev source_response : Value
source_response = obj (
    ("type", string "sourceState")
    ∷ ("version", string "source-state-response-v1")
    ∷ ("generation", string "3")
    ∷ ("sourceWatermark", string "12")
    ∷ (
      "sessions",
      arr (
          obj (
            ("sessionId", string "s2")
            ∷ ("nextSeq", string "5")
            ∷ ("workspaceId", string "w")
            ∷ ("headerRevision", string "h")
            ∷ [])
          ∷ []),
    )
    ∷ [])

source_state_example :
    (length (elements (get "sessions" source_response)) ≤ 2)
    × ((every
            (λ k. has_text k ("s1" ∷ "s2" ∷ []))
            (session_ids (elements (get "sessions" source_response)))
          ≡ true)
        × (are_distinct (session_ids (elements (get "sessions" source_response))) ≡ true))
unfolding validate_source_state_response get elements
source_state_example = source_state_lem source_response ("s1" ∷ "s2" ∷ []) refl

abbrev sample_view : Value
sample_view = obj (("id", string "v") ∷ ("version", num 1) ∷ [])

abbrev partition_request : Value
partition_request =
    obj (("view", sample_view) ∷ ("partitionKeys", arr (string "p" ∷ string "q" ∷ [])) ∷ [])

abbrev partition_response : Value
partition_response = obj (
    ("type", string "viewPartitionState")
    ∷ ("version", string "qq-index-view-partition-state/v1")
    ∷ ("view", sample_view)
    ∷ ("buildId", string "b")
    ∷ (
      "snapshot",
      obj (("generation", string "1") ∷ ("sourceFence", string "f") ∷ ("lagMs", string "0") ∷ []),
    )
    ∷ (
      "partitions",
      arr (
          obj (
            ("partitionKey", string "q")
            ∷ ("sourceIdentity", string "i")
            ∷ ("durableRevision", string "d")
            ∷ ("nextCursor", string "9")
            ∷ ("generation", string "1")
            ∷ [])
          ∷ []),
    )
    ∷ [])

abbrev search_request : Value
search_request =
    obj
      (("literals", arr (string "x" ∷ [])) ∷ ("perSourceDepth", num 2) ∷ ("finalLimit", num 3) ∷ [])

abbrev evidence : Value
evidence = obj (
    ("sessionId", string "s")
    ∷ ("documentKey", string "k")
    ∷ ("seq", string "4")
    ∷ ("eventTimeUnixMs", num 1)
    ∷ ("eventType", string "e")
    ∷ ("surface", string "u")
    ∷ ("snippet", null)
    ∷ [])

abbrev search_response : Value
search_response = obj (
    ("type", string "searchBatch")
    ∷ ("version", string "search-batch-response-v1")
    ∷ (
      "snapshot",
      obj (
          ("generation", string "1")
          ∷ ("sourceWatermark", string "2")
          ∷ ("sourceLagMs", null)
          ∷ []),
    )
    ∷ (
      "sources",
      arr (
          obj (
            ("queryOrdinal", num 0)
            ∷ ("truncated", boolean false)
            ∷ ("truncationReason", string "exhausted")
            ∷ ("rawPostingsScanned", num 1)
            ∷ (
              "ranked",
              arr (
                  obj (
                    ("rank", num 1)
                    ∷ ("sessionId", string "s")
                    ∷ ("score", num 1)
                    ∷ ("evidence", evidence)
                    ∷ [])
                  ∷ []),
            )
            ∷ [])
          ∷ []),
    )
    ∷ ("fused", arr [])
    ∷ ("fusedTruncated", boolean false)
    ∷ [])

search_response_example :
    ((length (elements (get "sources" search_response))
        ≡ length (elements (get "literals" search_request)))
      × (RankedFrom "queryOrdinal" 0 (elements (get "sources" search_response))
          × All
              (SourceOf (number_of (get "perSourceDepth" search_request)))
              (elements (get "sources" search_response))))
    × ((length (elements (get "fused" search_response))
          ≤ number_of (get "finalLimit" search_request))
        × RankedFrom "rank" 1 (elements (get "fused" search_response)))
unfolding validate_search_response get elements
search_response_example = search_response_lem search_response search_request refl
