-- ===== src/ViewSource/Tests.antt =====
-- Runs of the checks of src/dsh-alpha4-view-source.mjs.
use Prim.Native.String.{String, ◌++◌ as ◌+ˢ◌}
use qq_index.Prelude.{ℕ, ◌≡◌, refl, ◌≢◌, true, Option, some, ok, arith}
use qq_index.Client.Values.{
  Value, string, array, object, number, whole, Items, no_items, item, no_fields, field,
}
use qq_index.Client.ViewRequests.{validate_view_source}
use qq_index.ViewSource.Replacement.{replacement_source, revision_of}
use qq_index.Client.Checks.{nul_free}
use qq_index.Readme.Text.{codes}
use qq_index.ViewSource.Replacement.Fences.{long_revision_refused}

abbrev one_record : Items
one_record = item (object true (field "sessionId" (string "s1") no_fields)) no_items

-- The same session twice.
abbrev two_records : Items
two_records = item (object true (field "sessionId" (string "s1") no_fields)) one_record

-- A revision of 4,096 bytes.
abbrev four : String → String
four s = (s +ˢ s) +ˢ (s +ˢ s)

abbrev sixteen : String → String
sixteen s = four (four s)

abbrev long_revision : String
long_revision = four (sixteen (sixteen "abcd"))

long_revision-nul_free : nul_free (codes long_revision) ≡ true
unfolding nul_free
long_revision-nul_free = refl

long_revision_example :
    (revision_of (string long_revision) ≡ ok long_revision)
    × (validate_view_source (replacement_source "i" long_revision "7") ≢ ok tt)
long_revision_example =
    long_revision_refused "i" long_revision "7" (omega arith) (omega arith) long_revision-nul_free

abbrev observation : Value
observation = object true (
    field "source" (string "live") (
      field "header" (object true (field "id" (string "s1") no_fields)) (
        field "events" (array (item (number (whole 1)) (item (number (whole 2)) no_items)))
          (field "cursor" (number (whole 1)) (field "revision" (string "r") no_fields)))))

abbrev projected : Value
projected = object true (field "rows" (array no_items) no_fields)

abbrev number_text : ℕ → String
number_text n = "2"

abbrev small : Value → Option ℕ
small v = some 2

abbrev sent : Value
sent = object true (
    field "kind" (string "replacePartition") (
      field "view" (string "v") (
        field "partitionKey" (string "s1") (
          field "source" (replacement_source "i" "r" "2")
            (field "rows" (array no_items) no_fields)))))
