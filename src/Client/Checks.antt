-- ===== src/Client/Checks.antt =====
-- The checks of one value in src/session-index-client.mjs, which throw. The `name` of a value only
-- goes into the message of an error, and is left out.
use Prim.Native.String.{String, len}
use qq_index.Prelude.{
  ℕ, ◌-◌, ◌^◌, ◌+◌, Bool, true, false, not, ◌&&◌, ◌||◌, List, [], ◌∷◌, ◌++◌, ltb, leb, ◌==◌,
  if◌then◌else◌, length, Outcome, ok, err, ◌>>=◌, ◌>>◌, require,
}
use qq_index.Readme.Text.{codes}
use qq_index.Dsh.Decimal.{digits_value, max_safe_integer}
use qq_index.Client.Errors.{ClientError, invalid, violation}
use qq_index.Client.Values.{
  Value, null, boolean, number, string, array, object, Number, whole, negative, infinite, Fields,
  to_list, keys, has_text, elements, strict_equal,
}

-- A check returns, or throws.
abbrev pub Check : Type 0
Check = Outcome ClientError (Unit {0})

-- `if (!b) invalid(message)`, and the same with `"protocol_violation"`.
abbrev pub expect : Bool → Check
expect b = require b invalid

abbrev pub expect_protocol : Bool → Check
expect_protocol b = require b violation

-- A loop of checks.
unfoldable pub each {ℓ} : {A : Type ℓ} → (A → Check) → List A → Check
each f [] = ok tt
each f (x ∷ xs) = f x >> each f xs

unfoldable pub every {ℓ} : {A : Type ℓ} → (A → Bool) → List A → Bool
every p [] = true
every p (x ∷ xs) = p x && every p xs

-- `plainObject`, with the fields of the object.
unfoldable pub plain_object : Value → Outcome ClientError Fields
plain_object (object true fs) = ok fs
plain_object v = err invalid

unfoldable pub exact_object : Value → (required optional : List String) → Check
unfolding plain_object every has_text
exact_object value required optional = do
  fs ← plain_object value
  expect (every (λ k. has_text k (required ++ optional)) (keys fs))
  expect (every (λ k. has_text k (keys fs)) required)

unfoldable pub bounded_array : Value → (minimum maximum : ℕ) → Check
bounded_array (array vs) minimum maximum =
    expect (leb minimum (length (to_list vs)) && leb (length (to_list vs)) maximum)
bounded_array v minimum maximum = err invalid

unfoldable pub nul_free : List ℕ → Bool
nul_free [] = true
nul_free (c ∷ cs) = not (c == 0) && nul_free cs

unfoldable pub bounded_string : Value → (minimum_bytes maximum_bytes : ℕ) → Check
unfolding nul_free
bounded_string (string s) minimum_bytes maximum_bytes = do
  expect (nul_free (codes s))
  expect (leb minimum_bytes (len s) && leb (len s) maximum_bytes)
bounded_string v minimum_bytes maximum_bytes = err invalid

-- `[A-Za-z0-9_.:-]`
is_identifier_byte : ℕ → Bool
is_identifier_byte c =
    (leb 65 c && leb c 90)
    || ((leb 97 c && leb c 122) || ((leb 48 c && leb c 58) || (c == 95 || (c == 46 || c == 45))))

-- The value's text, or none.
abbrev pub text_codes : Value → List ℕ
text_codes (string s) = codes s
text_codes v = []

abbrev pub max_request_id_bytes : ℕ
max_request_id_bytes = 128

unfoldable pub identifier : Value → Check
unfolding bounded_string every is_identifier_byte
identifier v = do
  bounded_string v 1 max_request_id_bytes
  expect (every is_identifier_byte (text_codes v))

-- `MAX_U64`
abbrev pub max_u64 : ℕ
max_u64 = 2 ^ 64 - 1

abbrev pub is_no_more {ℓ} : {A : Type ℓ} → List A → Bool
is_no_more [] = true
is_no_more (x ∷ xs) = false

-- `[0-9]`
abbrev pub is_decimal_byte : ℕ → Bool
is_decimal_byte c = leb 48 c && leb c 57

-- `/^(?:0|[1-9][0-9]*)$/u`
unfoldable pub is_unsigned_text : List ℕ → Bool
unfolding every
is_unsigned_text [] = false
is_unsigned_text (c ∷ cs) =
    (c == 48 && is_no_more cs) || ((leb 49 c && leb c 57) && every is_decimal_byte cs)

unfoldable pub unsigned_string : Value → (maximum : ℕ) → (positive : Bool) → Check
unfolding is_unsigned_text digits_value
unsigned_string (string s) maximum positive = do
  expect (is_unsigned_text (codes s))
  expect
      (not (ltb maximum (digits_value 0 (codes s)) || (positive && digits_value 0 (codes s) == 0)))
unsigned_string v maximum positive = err invalid

-- `BigInt(value)` of a value that `unsignedString` accepts.
unfoldable pub unsigned_value : Value → ℕ
unfolding digits_value
unsigned_value v = digits_value 0 (text_codes v)

-- `Number.isSafeInteger`
abbrev pub is_safe : Number → Bool
is_safe (whole n) = leb n max_safe_integer
is_safe (negative n) = leb (n + 1) max_safe_integer
is_safe n = false

unfoldable pub safe_integer : Value → Check
safe_integer (number n) = expect (is_safe n)
safe_integer v = err invalid

-- `value >= minimum && value <= maximum` for a safe integer and natural bounds.
abbrev pub is_between : ℕ → ℕ → Value → Bool
is_between minimum maximum (number (whole n)) = leb minimum n && leb n maximum
is_between minimum maximum v = false

unfoldable pub bounded_integer : Value → (minimum maximum : ℕ) → Check
unfolding safe_integer
bounded_integer v minimum maximum = do safe_integer v; expect (is_between minimum maximum v)

-- `MAX_TIMEOUT_MS`
abbrev pub max_timeout : ℕ
max_timeout = 600000

unfoldable pub timeout : Value → Outcome ClientError ℕ
unfolding bounded_integer
timeout (number (whole n)) = bounded_integer (number (whole n)) 1 max_timeout >> ok n
timeout v = err invalid

abbrev pub is_finite : Value → Bool
is_finite (number infinite) = false
is_finite (number n) = true
is_finite v = false

unfoldable pub finite_number : Value → Check
finite_number v = expect (is_finite v)

abbrev pub is_natural : Value → Bool
is_natural (number (whole n)) = true
is_natural v = false

unfoldable pub nonnegative_safe_integer : Value → Check
unfolding safe_integer
nonnegative_safe_integer v = safe_integer v >> expect (is_natural v)

abbrev pub is_boolean : Value → Bool
is_boolean (boolean b) = true
is_boolean v = false

unfoldable pub boolean_value : Value → Check
boolean_value v = expect (is_boolean v)

abbrev pub is_null : Value → Bool
is_null null = true
is_null v = false

unfoldable pub nullable_snippet : Value → Check
unfolding bounded_string
nullable_snippet v = if is_null v then ok tt else bounded_string v 0 1024

unfoldable pub equal : (actual expected : Value) → Check
unfolding strict_equal
equal actual expected = expect_protocol (strict_equal actual expected)

-- `/^[a-z0-9]{1,64}$/u`
unfoldable pub is_token_byte : ℕ → Bool
is_token_byte c = (leb 97 c && leb c 122) || (leb 48 c && leb c 57)

unfoldable pub is_scope_token : String → Bool
unfolding every is_token_byte
is_scope_token s =
    every is_token_byte (codes s) && (leb 1 (length (codes s)) && leb (length (codes s)) 64)

-- The loop of `scopeTokens`; `unique` are the tokens so far.
unfoldable pub distinct_tokens : List String → List Value → Check
unfolding is_scope_token has_text
distinct_tokens unique [] = ok tt
distinct_tokens unique (string s ∷ vs) = do
  expect (is_scope_token s)
  expect (not (has_text s unique))
  distinct_tokens (s ∷ unique) vs
distinct_tokens unique (v ∷ vs) = err invalid

unfoldable pub scope_tokens : Value → Check
unfolding bounded_array distinct_tokens
scope_tokens values = do bounded_array values 1 16; distinct_tokens [] (elements values)

-- The loop of `stringList`; a value that `boundedString` accepts is a text.
unfoldable pub distinct_strings : (maximum_bytes : ℕ) → List String → List Value → Check
unfolding bounded_string has_text
distinct_strings maximum_bytes unique [] = ok tt
distinct_strings maximum_bytes unique (string s ∷ vs) = do
  bounded_string (string s) 1 maximum_bytes
  expect (not (has_text s unique))
  distinct_strings maximum_bytes (s ∷ unique) vs
distinct_strings maximum_bytes unique (v ∷ vs) = err invalid

unfoldable pub string_list : Value → (maximum_count maximum_bytes : ℕ) → Check
unfolding bounded_array distinct_strings
string_list values maximum_count maximum_bytes = do
  bounded_array values 0 maximum_count
  distinct_strings maximum_bytes [] (elements values)

-- `new Set(ks).size === ks.length`
unfoldable pub are_distinct : List String → Bool
unfolding has_text
are_distinct [] = true
are_distinct (k ∷ ks) = not (has_text k ks) && are_distinct ks
