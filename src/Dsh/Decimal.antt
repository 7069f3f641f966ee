-- ===== src/Dsh/Decimal.antt =====
-- `parseUnsigned` of src/session-index-dsh-source.mjs, and the `toString()` that it is read with: the
-- canonical decimal text of an unsigned number. A text is the list of its code units.
pub mod RoundTrip
use qq_index.Prelude.{
  ℕ, zero, suc, ◌+◌, ◌-◌, ◌*◌, ◌/◌, ◌%◌, ◌^◌, Bool, true, false, ◌&&◌, ◌||◌, List, [], ◌∷◌, ◌++◌,
  ltb, leb, ◌==◌, if◌then◌else◌, Outcome, ok, err,
}
use qq_index.Dsh.Errors.{SourceError, malformed}

-- `MAX_SQLITE_INTEGER`
abbrev pub max_sqlite_integer : ℕ
max_sqlite_integer = 2 ^ 63 - 1

-- `Number.MAX_SAFE_INTEGER`
abbrev pub max_safe_integer : ℕ
max_safe_integer = 2 ^ 53 - 1

-- `BigInt.prototype.toString`, digit by digit; the fuel is a bound on the digits.
decimal_digits : ℕ → ℕ → List ℕ
decimal_digits zero n = []
decimal_digits (suc fuel) n =
    let leading = decimal_digits fuel (n / 10) ++ ((48 + n % 10) ∷ []) in
    if ltb n 10 then (48 + n) ∷ [] else leading

unfoldable pub decimal : ℕ → List ℕ
unfolding decimal_digits
decimal n = decimal_digits (suc n) n

unfoldable pub is_digit : ℕ → Bool
is_digit c = leb 48 c && leb c 57

unfoldable pub all_digits : List ℕ → Bool
unfolding is_digit
all_digits [] = true
all_digits (c ∷ cs) = is_digit c && all_digits cs

-- `/^(?:0|[1-9][0-9]*)$/u`
unfoldable pub is_canonical : List ℕ → Bool
unfolding all_digits
is_canonical [] = false
is_canonical (c ∷ []) = is_digit c
is_canonical (c ∷ d ∷ cs) = (is_digit c && leb 49 c) && all_digits (d ∷ cs)

-- `BigInt(value)` on such a text.
unfoldable pub digits_value : ℕ → List ℕ → ℕ
digits_value n [] = n
digits_value n (c ∷ cs) = digits_value (n * 10 + (c - 48)) cs

-- A value that may be read as an unsigned number: a safe integer, a bigint that is not negative, or a
-- text; anything else is refused.
pub data Numeric : Type 0 where
  number bigint : ℕ → Numeric
  text : List ℕ → Numeric
  refused : Numeric

parse_text : List ℕ → Outcome SourceError ℕ
unfolding is_canonical digits_value
parse_text t =
    if is_canonical t
    then (let n = digits_value 0 t in if ltb max_sqlite_integer n then err malformed else ok n)
    else err malformed

unfoldable pub parse_unsigned : Numeric → Outcome SourceError ℕ
unfolding parse_text decimal
parse_unsigned (number n) = if leb n max_safe_integer then parse_text (decimal n) else err malformed
parse_unsigned (bigint n) = parse_text (decimal n)
parse_unsigned (text t) = parse_text t
parse_unsigned refused = err malformed
