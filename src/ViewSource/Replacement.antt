-- ===== src/ViewSource/Replacement.antt =====
-- src/dsh-alpha4-view-source.mjs: the mutations that it sends. `text_of_number` is `String(n)`, and `encoded_size`
-- the length of what `JSON.stringify` gives.
pub mod Fences
pub mod Cursors
use Prim.Native.String.{String, ◌++◌ as ◌+ˢ◌}
use qq_index.Prelude.{
  ℕ, Bool, true, false, Option, none, some, List, [], ◌∷◌, leb, length, if◌then◌else◌, Outcome, ok,
  err, ◌>>=◌, ◌>>◌,
}
use qq_index.Client.Values.{
  Value, string, number, array, object, whole, Fields, no_fields, field, to_list, get, text_of,
}
use qq_index.ViewSource.Checks.{
  ViewSourceError, type_error, Checked, expect, exact_fields, text, json_bound,
}
use qq_index.ViewSource.Records.{Durable, validate_observation, next_of, or_else, revision}

-- `revisionOf`: the text of the revision.
unfoldable pub revision_of : Value → Outcome ViewSourceError String
unfolding revision text_of
revision_of v = do revision v; elim (text_of v) [ none ↦ err type_error | some r ↦ ok r ]

-- `checkedIdentity`
unfoldable pub checked_identity : Value → Outcome ViewSourceError String
unfolding text text_of
checked_identity v = do text v 1 4096; elim (text_of v) [ none ↦ err type_error | some r ↦ ok r ]

unfoldable pub validate_rows : Value → Checked
validate_rows (array rows) = expect (leb (length (to_list rows)) 1024)
validate_rows v = err type_error

-- `` `alpha4-observation:${durableRevision}:${nextCursor}` ``
unfoldable pub source_fence : (durable_revision next_cursor : String) → String
source_fence durable_revision next_cursor =
    "alpha4-observation:" +ˢ (durable_revision +ˢ (":" +ˢ next_cursor))

-- The `source` of a replacement.
unfoldable pub replacement_source : (source_identity durable_revision next_cursor : String) → Value
unfolding source_fence
replacement_source source_identity durable_revision next_cursor = object true (
    field "sourceIdentity" (string source_identity) (
      field "durableRevision" (string durable_revision) (
        field "nextCursor" (string next_cursor) (
          field "sourceFence" (string (source_fence durable_revision next_cursor))
            (field "lagMs" (number (whole 0)) no_fields)))))

module _ (text_of_number : ℕ → String) (encoded_size : Value → Option ℕ) where
  abbrev pub next_text : Option ℕ → Outcome ViewSourceError String
  next_text none = err type_error
  next_text (some n) = ok (text_of_number n)

  -- `replaceObserved`, between its awaits: what is sent for an observation and its projection.
  unfoldable pub replacement :
      (view : Value)
      → (session source_identity : String) → (observation projected : Value)
      → Outcome ViewSourceError Value
  unfolding validate_observation exact_fields validate_rows json_bound or_else revision_of next_of
      replacement_source
  replacement view session source_identity observation projected = do
    validate_observation observation session
    exact_fields projected ("rows" ∷ []) ("durableRevision" ∷ [])
    validate_rows (get "rows" projected)
    json_bound encoded_size (get "rows" projected)
    durable_revision ←
        revision_of (or_else (get "durableRevision" projected) (get "revision" observation))
    next_cursor ← next_text (next_of (get "cursor" observation))
    ok (
        object true (
          field "kind" (string "replacePartition") (
            field "view" view (
              field "partitionKey" (string session) (
                field "source" (replacement_source source_identity durable_revision next_cursor)
                  (field "rows" (get "rows" projected) no_fields))))))

-- `reconcileChange`, for a partition that goes: what is sent at `now`.
unfoldable pub deletion : (view : Value) → (session now : String) → Durable → Value
deletion view session now durable = object true (
    field "kind" (string "deletePartition") (
      field "view" view (
        field "partitionKey" (string session) (
          field "expectedCursor" (string durable.next_cursor) (
            field "sourceIdentity" (string durable.source_identity) (
              field "sourceFence" (string ("alpha4-delete:" +ˢ now))
                (field "lagMs" (number (whole 0)) no_fields)))))))
