-- ===== src/Dsh/Records.antt =====
-- What `projectDshSessionLog` of src/session-index-dsh-source.mjs reads of a session log, of its records and of the
-- documents for search, with the checks on the way.
use Prim.Native.String.{String}
use qq_index.Prelude.{
  ℕ, ◌+◌, Bool, true, false, not, ◌&&◌, ◌||◌, Option, none, some, List, [], ◌∷◌, ◌++◌, ltb, ◌==◌,
  if◌then◌else◌, Outcome, ok, err, ◌>>=◌, ◌>>◌, require,
}
use qq_index.Readme.Text.{codes}
use qq_index.Dsh.Errors.{SourceError}
use qq_index.Dsh.Decimal.{Numeric, parse_unsigned}
use qq_index.Client.Values.{
  Value, undefined, null, other, number, string, array, object, Number, whole, to_list, get,
  same_text,
}
use qq_index.Client.Checks.{nul_free, bounded_string, is_safe}
use qq_index.Client.Requests.{text_or_empty}

abbrev pub Answer : Type 0 → Type 0
Answer A = Outcome SourceError A

abbrev pub expect : Bool → Answer (Unit {0})
expect b = require b SourceError.malformed

-- `a ?? b`
unfoldable pub or_else : Value → Value → Value
or_else undefined w = w
or_else null w = w
or_else v w = v

-- `plainObject`, which also takes objects of a class.
abbrev pub is_object : Value → Bool
is_object (object plain fs) = true
is_object v = false

abbrev pub accepts {ℓ κ} : {E : Type ℓ} {A : Type κ} → Outcome E A → Bool
accepts (ok a) = true
accepts (err e) = false

-- `boundedString`, with the text.
unfoldable pub bounded_text : Value → (minimum maximum : ℕ) → Answer String
unfolding bounded_string text_or_empty
bounded_text v minimum maximum =
    expect (accepts (bounded_string v minimum maximum)) >> ok (text_or_empty v)

-- `firstString`; undefined where there is none.
unfoldable pub first_string : List Value → Value
first_string [] = undefined
first_string (string s ∷ vs) = string s
first_string (v ∷ vs) = first_string vs

unfoldable pub array_result : Value → (property : String) → Answer (List Value)
array_result (array vs) property = ok (to_list vs)
array_result v property = elim (get property v) [
  | array vs ↦ ok (to_list vs)
  | w ↦ err SourceError.malformed
]

-- What the language and its libraries compute: `timestamp` is the time of a text or of a Date, if that is a safe integer,
-- `bigint` the bigint that a value is, if it is not negative, `digits` the text of a number, `hashed_scope` the `w` and the
-- first 63 digits of the SHA-256 digest, and `digest` is digestCanonical.
pub record Host : Type 0 where
  pub timestamp : Value → Option Number
  pub bigint : Value → Option ℕ
  pub digits : ℕ → String
  pub is_absolute : String → Bool
  pub hashed_scope : String → String
  pub digest : (domain : String) → Value → String

abbrev pub is_production : Value → Bool
is_production log =
    is_object (get "session" log) && (elim (get "events" log) [ array vs ↦ true | v ↦ false ])

unfoldable pub document_at : ℕ → List (ℕ × Value) → Option Value
document_at seq [] = none
document_at seq ((n, d) ∷ ds) = if n == seq then some d else document_at seq ds

abbrev pub is_found : Option Value → Bool
is_found none = false
is_found (some d) = true

module _ (c : Host) where
  unfoldable pub derive_workspace_scope_token : String → Answer String
  unfolding bounded_text
  derive_workspace_scope_token workspace =
      bounded_text (string workspace) 1 4096 >>= λ w. ok (c.hashed_scope w)

  abbrev pub numeric_of : Value → Numeric
  numeric_of (number (whole n)) = Numeric.number n
  numeric_of (string s) = Numeric.text (codes s)
  numeric_of other = elim (c.bigint other) [ some n ↦ Numeric.bigint n | none ↦ Numeric.refused ]
  numeric_of v = Numeric.refused

  unfoldable pub event_sequence : Value → Answer ℕ
  unfolding or_else get parse_unsigned
  event_sequence v = parse_unsigned (
      numeric_of (
        or_else (get "seq" v) (
          or_else (get "sequence" v)
            (or_else (get "seq" (get "event" v)) (get "sequence" (get "event" v))))))

  abbrev pub time_of : Value → Answer Number
  time_of (number n) = expect (is_safe n) >> ok n
  time_of v = elim (c.timestamp v) [ some n ↦ ok n | none ↦ err SourceError.malformed ]

  unfoldable pub event_time : Value → Answer Number
  unfolding or_else get
  event_time v = time_of (
      or_else (get "eventTimeUnixMs" v) (
        or_else (get "timeUnixMs" v) (
          or_else (get "time" v) (
            or_else (get "eventTimeUnixMs" (get "event" v)) (
              or_else (get "timeUnixMs" (get "event" v))
                (or_else (get "timestamp" v) (get "timestamp" (get "event" v))))))))

  abbrev pub production_workspace : Value → Answer (Option String)
  production_workspace (string s) =
      if same_text s "" || (not (nul_free (codes s)) || not (c.is_absolute s))
      then ok none
      else bounded_text (string s) 1 4096 >>= λ w. ok (some w)
  production_workspace v = ok none

  abbrev pub generated_workspace : Value → Answer (Option String)
  generated_workspace (string s) =
      if same_text s "" then ok none else bounded_text (string s) 1 4096 >>= λ w. ok (some w)
  generated_workspace v = ok none

  -- `usableProductionWorkspace` or `usableGeneratedWorkspace`
  unfoldable pub usable_workspace : Value → Answer (Option String)
  unfolding bounded_text first_string get
  usable_workspace log =
      if is_production log
      then production_workspace (get "cwd" (get "session" log))
      else generated_workspace (
          first_string (
            get "workspaceId" log
            ∷ get "id" (get "workspace" log)
            ∷ get "workspaceId" (get "header" log)
            ∷ []))

  -- The loop over the raw records: each is an object whose number is its index.
  unfoldable pub check_records : (index : ℕ) → List Value → Answer (Unit {0})
  unfolding event_sequence
  check_records index [] = ok tt
  check_records index (r ∷ rs) = do
    expect (is_object r)
    seq ← event_sequence r
    expect (seq == index)
    check_records (index + 1) rs

  -- The loop over the documents. The keys of `recordsBySeq` are the indices of the records, whose `count` this is.
  unfoldable pub by_sequence :
      (count : ℕ) → List (ℕ × Value) → List Value → Answer (List (ℕ × Value))
  unfolding event_sequence document_at
  by_sequence count found [] = ok found
  by_sequence count found (d ∷ ds) = do
    expect (is_object d)
    seq ← event_sequence d
    expect (ltb seq count && not (is_found (document_at seq found)))
    by_sequence count (found ++ ((seq, d) ∷ [])) ds
