-- ===== src/ViewSource/Records.antt =====
-- src/dsh-alpha4-view-source.mjs: its checks of the records, of an observation and of a change of its source, and
-- whether a partition is up to date.
use Prim.Native.String.{String}
use qq_index.Prelude.{
  ℕ, ◌+◌, zero, Bool, true, false, not, ◌&&◌, ◌||◌, Option, none, some, List, [], ◌∷◌, leb, ◌==◌,
  if◌then◌else◌, length, Outcome, ok, err, ◌>>=◌, ◌>>◌,
}
use qq_index.Readme.Text.{codes}
use qq_index.Dsh.Decimal.{decimal, max_safe_integer}
use qq_index.Client.Values.{
  Value, undefined, null, number, string, array, object, whole, negative, no_fields, field, to_list,
  get, same_text, elements,
}
use qq_index.Client.Requests.{is_defined}
use qq_index.Client.Responses.{is_one_of}
use qq_index.ViewSource.Checks.{
  ViewSourceError, type_error, Checked, expect, object_fields, exact_fields, text,
  canonical_unsigned,
}

abbrev pub max_partitions : ℕ
max_partitions = 100000

-- `if (value !== undefined) check(value)`
unfoldable pub if_defined : (Value → Checked) → Value → Checked
unfolding is_defined
if_defined check v = if is_defined v then check v else ok tt

abbrev same_boolean : Bool → Bool → Bool
same_boolean true b = b
same_boolean false b = not b

unfoldable pub revision : Value → Checked
unfolding text
revision v = text v 1 4096

-- One record of the source.
unfoldable pub validate_record : Value → Checked
unfolding exact_fields text is_defined if_defined revision canonical_unsigned
validate_record record_value = do
  exact_fields record_value ("sessionId" ∷ []) ("record" ∷ "durableRevision" ∷ "nextCursor" ∷ [])
  text (get "sessionId" record_value) 1 128
  expect (
      same_boolean (is_defined (get "durableRevision" record_value))
        (is_defined (get "nextCursor" record_value)))
  if_defined revision (get "durableRevision" record_value)
  if_defined canonical_unsigned (get "nextCursor" record_value)

-- The loop of `validateSourceRecords`. Its test of duplicates asks whether `Set.prototype.add` gives something
-- false, which it never does: it gives the set.
unfoldable pub validate_each : List Value → Checked
unfolding validate_record
validate_each [] = ok tt
validate_each (r ∷ rs) = validate_record r >> validate_each rs

unfoldable pub validate_source_records : Value → (maximum : ℕ) → Checked
unfolding validate_each
validate_source_records (array rs) maximum = do
  expect (leb (length (to_list rs)) maximum)
  validate_each (to_list rs)
validate_source_records v maximum = err type_error

-- What the index holds of a partition.
pub record Durable : Type 0 where
  pub source_identity : String
  pub durable_revision : String
  pub next_cursor : String

unfoldable pub same_codes : List ℕ → List ℕ → Bool
same_codes [] [] = true
same_codes (a ∷ xs) (b ∷ ys) = a == b && same_codes xs ys
same_codes xs ys = false

-- `t === String(value)` for a value that `canonicalUnsigned` accepts.
unfoldable pub same_cursor : String → Value → Bool
unfolding same_codes decimal
same_cursor t (string s) = same_text t s
same_cursor t (number (whole n)) = same_codes (codes t) (decimal n)
same_cursor t v = false

abbrev pub is_text : String → Value → Bool
is_text t (string s) = same_text t s
is_text t v = false

unfoldable pub can_skip :
    (record_value : Value)
    → Option Durable
    → (source_identity : String) → Outcome ViewSourceError Bool
unfolding is_defined canonical_unsigned same_cursor
can_skip record_value none source_identity = ok false
can_skip record_value (some durable) source_identity =
    if not (is_defined (get "durableRevision" record_value))
      || not (is_defined (get "nextCursor" record_value))
    then ok false
    else canonical_unsigned (get "nextCursor" record_value)
      >> ok (
          same_text durable.source_identity source_identity
          && (is_text durable.durable_revision (get "durableRevision" record_value)
              && same_cursor durable.next_cursor (get "nextCursor" record_value)))

-- `a ?? b`
unfoldable pub or_else : Value → Value → Value
or_else undefined w = w
or_else null w = w
or_else v w = v

unfoldable pub session_id_of : Value → Outcome ViewSourceError Value
unfolding object_fields or_else text
session_id_of header = do
  fs ← object_fields header
  text (or_else (get "id" header) (get "sessionId" header)) 1 128
  ok (or_else (get "id" header) (get "sessionId" header))

-- `cursor + 1`, for a safe integer of at least -1.
unfoldable pub next_of : Value → Option ℕ
next_of (number (whole n)) = if leb n max_safe_integer then some (n + 1) else none
next_of (number (negative zero)) = some 0
next_of v = none

abbrev pub is_next : ℕ → Option ℕ → Bool
is_next n none = false
is_next n (some m) = m == n

abbrev pub is_array : Value → Bool
is_array (array vs) = true
is_array v = false

unfoldable pub validate_observation : (observation : Value) → (expected : String) → Checked
unfolding object_fields is_one_of session_id_of next_of elements if_defined revision
validate_observation observation expected = do
  fs ← object_fields observation
  expect (is_one_of ("live" ∷ "prepared" ∷ []) (get "source" observation))
  observed ← session_id_of (get "header" observation)
  expect (is_text expected observed)
  expect (is_array (get "events" observation))
  expect
      (is_next (length (elements (get "events" observation))) (next_of (get "cursor" observation)))
  if_defined revision (get "revision" observation)

pub data ChangeKind : Type 0 where
  upsert delete : ChangeKind

pub record Change : Type 0 where
  pub kind : ChangeKind
  pub session : Value
  pub source : Value

abbrev change_kind : Value → ChangeKind
change_kind v = if is_text "delete" v then delete else upsert

-- `normalizeChange`
unfoldable pub normalize_change : Value → Outcome ViewSourceError (Option Change)
unfolding object_fields or_else text
normalize_change null = ok none
normalize_change undefined = ok none
normalize_change (string s) = ok (
    some (record {
      kind = upsert;
      session = string s;
      source = object true (field "id" (string s) no_fields);
    }))
normalize_change change = do
  fs ← object_fields change
  text
      (or_else (or_else (get "sessionId" change) (get "id" change))
        (get "id" (get "header" change)))
      1 128
  ok (
      some (record {
        kind = change_kind (get "kind" change);
        session =
            or_else (or_else (get "sessionId" change) (get "id" change))
              (get "id" (get "header" change));
        source = or_else (get "source" change) change;
      }))
