-- ===== src/Client/Accepted/Cursors.antt =====
-- src/session-index-client.mjs, src/session-index-dsh-source.mjs and src/dsh-alpha4-view-source.mjs read the same
-- cursors. Each of them has a regular expression of its own for them.
use Prim.Native.String.{String}
use qq_index.Prelude.{
  ℕ, ◌≡◌, refl, ap, ◌⊎◌, inl, inr, false, ◌&&◌, List, [], ◌∷◌, ltb, ok, err, arith, Bool-cases,
}
use qq_index.Readme.Text.{codes}
use qq_index.Dsh.Errors.{malformed}
use qq_index.Dsh.Decimal.{
  is_digit, all_digits, is_canonical, digits_value, parse_unsigned, text, max_sqlite_integer,
}
use qq_index.Dsh.Decimal.RoundTrip.{parse_unsigned-canonical}
use qq_index.Client.Errors.{invalid}
use qq_index.Client.Values.{string}
use qq_index.Client.Checks.{
  every, is_decimal_byte, is_unsigned_text, unsigned_string, unsigned_value,
}

every-digits : (t : List ℕ) → every is_decimal_byte t ≡ all_digits t
unfolding every all_digits is_digit
every-digits [] = refl
every-digits (c ∷ cs) = ap (λ b. is_decimal_byte c && b) (every-digits cs)

-- The two expressions take the same texts.
unsigned-canonical : (t : List ℕ) → is_unsigned_text t ≡ is_canonical t
unfolding is_unsigned_text is_canonical is_digit every
unsigned-canonical [] = refl
unsigned-canonical (c ∷ []) = ground arith
unsigned-canonical (c ∷ d ∷ cs) = let rest = every-digits (d ∷ cs) in ground (arith, rest)

-- Both the client and the source take a text as a cursor, and then both read the same number, or both refuse it.
pub cursor_agrees :
    (s : String)
    → (unsigned_string (string s) max_sqlite_integer false ≡ ok tt)
        × (parse_unsigned (text (codes s)) ≡ ok (unsigned_value (string s)))
      ⊎ (unsigned_string (string s) max_sqlite_integer false ≡ err invalid)
        × (parse_unsigned (text (codes s)) ≡ err malformed)
unfolding unsigned_string unsigned_value
cursor_agrees s =
    let read = parse_unsigned-canonical (codes s) in
    let same = unsigned-canonical (codes s) in
    elim (Bool-cases (is_canonical (codes s))) [
      | inr other ↦ inr (ground (arith, same, other), ground (arith, read, other))
      | inl decimal ↦ elim (Bool-cases (ltb max_sqlite_integer (digits_value 0 (codes s)))) [
        | inl over ↦ inr (ground (arith, same, decimal, over), ground (arith, read, decimal, over))
        | inr fits ↦ inl (ground (arith, same, decimal, fits), ground (arith, read, decimal, fits))
      ]
    ]
