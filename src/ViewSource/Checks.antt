-- ===== src/ViewSource/Checks.antt =====
-- src/dsh-alpha4-view-source.mjs: its checks of one value, which throw a TypeError; their texts are left out.
use Prim.Native.String.{String}
use qq_index.Prelude.{
  ◌&&◌, ◌||◌, ◌==◌, leb, [], ◌∷◌, ℕ, ◌*◌, Bool, true, false, not, Option, none, some, List, ◌++◌,
  ltb, if◌then◌else◌, Outcome, ok, err, ◌>>=◌, ◌>>◌, require,
}
use qq_index.Readme.Text.{codes}
use qq_index.Dsh.Decimal.{digits_value, max_sqlite_integer}
use qq_index.Client.Values.{Value, number, string, object, whole, Fields, keys, has_text}
use qq_index.Client.Checks.{bounded_string, every, is_between, is_no_more, is_decimal_byte}
use qq_index.Client.Requests.{is_defined}

pub data ViewSourceError : Type 0 where
  type_error source_disposed : ViewSourceError

abbrev pub Checked : Type 0
Checked = Outcome ViewSourceError (Unit {0})

abbrev pub expect : Bool → Checked
expect b = require b type_error

-- `object`, which also takes objects of a class; with the object's fields.
unfoldable pub object_fields : Value → Outcome ViewSourceError Fields
object_fields (object plain fs) = ok fs
object_fields v = err type_error

unfoldable pub exact_fields : Value → (required optional : List String) → Checked
unfolding object_fields every has_text
exact_fields value required optional = do
  fs ← object_fields value
  expect (every (λ k. has_text k (required ++ optional)) (keys fs))
  expect (every (λ k. has_text k (keys fs)) required)

abbrev accepts {ℓ} : {E : Type 0} {A : Type ℓ} → Outcome E A → Bool
accepts (ok a) = true
accepts (err e) = false

-- `text`: what the client's `boundedString` accepts.
unfoldable pub text : Value → (minimum maximum : ℕ) → Checked
unfolding bounded_string
text value minimum maximum = expect (accepts (bounded_string value minimum maximum))

-- `/^(?:0|[1-9][0-9]*)$/u`
unfoldable pub is_canonical_text : List ℕ → Bool
unfolding every
is_canonical_text [] = false
is_canonical_text (c ∷ cs) =
    (c == 48 && is_no_more cs) || ((leb 49 c && leb c 57) && every is_decimal_byte cs)

-- `canonicalUnsigned`; the text of a natural number is canonical.
unfoldable pub canonical_unsigned : Value → Checked
unfolding is_canonical_text digits_value
canonical_unsigned (number (whole n)) = expect (not (ltb max_sqlite_integer n))
canonical_unsigned (string s) = do
  expect (is_canonical_text (codes s))
  expect (not (ltb max_sqlite_integer (digits_value 0 (codes s))))
canonical_unsigned v = err type_error

abbrev within_bound : Option ℕ → Bool
within_bound none = false
within_bound (some n) = not (ltb (900 * 1024) n)

-- `jsonBound`; `encoded_size` is the length of what `JSON.stringify` gives, none for undefined.
unfoldable pub json_bound : (encoded_size : Value → Option ℕ) → Value → Checked
json_bound encoded_size value = expect (within_bound (encoded_size value))

abbrev natural_of : Value → ℕ
natural_of (number (whole n)) = n
natural_of v = 0

-- `boundedInteger`, whose bounds are safe integers.
unfoldable pub bounded_integer : Value → (fallback minimum maximum : ℕ) → Outcome ViewSourceError ℕ
unfolding is_defined
bounded_integer value fallback minimum maximum =
    if is_defined value
    then (expect (is_between minimum maximum value) >> ok (natural_of value))
    else ok fallback
