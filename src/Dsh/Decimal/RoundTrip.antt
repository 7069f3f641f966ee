-- ===== src/Dsh/Decimal/RoundTrip.antt =====
-- `parseUnsigned` undoes `toString`, and accepts no other text.
use mathlib.Core.List.{append-nil, append_assoc}
use native.Mathlib.Nat.{zero-mul, zero-add}
use qq_index.Prelude.{
  if◌then◌else◌, err, leb, ℕ, zero, suc, ◌+◌, ◌-◌, ◌*◌, ◌/◌, ◌%◌, ◌≤◌, ◌<◌, ◌≡◌, refl, sym, ◌∙◌,
  true, false, List, [], ◌∷◌, ◌++◌, ltb, arith, ok, Bool-cases, inl, inr,
}
use qq_index.Dsh.Errors.{malformed}
use qq_index.Dsh.Decimal.{
  Numeric, number, refused, max_safe_integer, max_sqlite_integer, decimal_digits, decimal, is_digit,
  all_digits, is_canonical, digits_value, parse_text, parse_unsigned, bigint, text,
}

digits_value-append :
    (n : ℕ) (xs ys : List ℕ) → digits_value n (xs ++ ys) ≡ digits_value (digits_value n xs) ys
unfolding digits_value
digits_value-append n [] ys = refl
digits_value-append n (x ∷ xs) ys = digits_value-append (n * 10 + (x - 48)) xs ys

digits_value-decimal : (fuel n : ℕ) → n < fuel → digits_value 0 (decimal_digits fuel n) ≡ n
unfolding decimal_digits
digits_value-decimal zero n h = absurd (omega arith)
digits_value-decimal (suc fuel) n h = elim (Bool-cases (ltb n 10)) [
  | inl small ↦ rw small (unfold digits_value in omega arith)
  | inr large ↦
      rw
        (
          large,
          digits_value-append 0 (decimal_digits fuel (n / 10)) _,
          digits_value-decimal fuel (n / 10) (ground arith),
        )
        (unfold digits_value in omega arith)
]

all_digits-append :
    (xs ys : List ℕ) → all_digits xs ≡ true → all_digits ys ≡ true → all_digits (xs ++ ys) ≡ true
unfolding all_digits
all_digits-append [] ys h k = k
all_digits-append (x ∷ xs) ys h k = ground (arith, all_digits-append xs ys)

-- a canonical text that does not stand for 0 goes on with any digit
canonical-snoc :
    (xs : List ℕ) (d : ℕ)
    → is_canonical xs ≡ true
    → 1 ≤ digits_value 0 xs
    → is_digit d ≡ true
    → is_canonical (xs ++ (d ∷ [])) ≡ true
unfolding is_canonical digits_value
canonical-snoc [] d h k e = cc
canonical-snoc (c ∷ []) d h k e = ground arith
canonical-snoc (c ∷ c' ∷ cs) d h k e = ground (arith, all_digits-append (c' ∷ cs) (d ∷ []))

canonical-decimal : (fuel n : ℕ) → n < fuel → is_canonical (decimal_digits fuel n) ≡ true
unfolding decimal_digits
canonical-decimal zero n h = absurd (omega arith)
canonical-decimal (suc fuel) n h = elim (Bool-cases (ltb n 10)) [
  | inl small ↦ rw small (unfold is_canonical in ground arith)
  | inr large ↦ rw large (
      canonical-snoc (decimal_digits fuel (n / 10)) (48 + n % 10)
        (canonical-decimal fuel (n / 10) (ground arith))
        (rw (digits_value-decimal fuel (n / 10) (ground arith)) (ground arith))
        (unfold is_digit in ground arith))
]

-- The fuel makes no difference, as long as it is more than the number.
decimal_fuel : (f g n : ℕ) → n < f → n < g → decimal_digits f n ≡ decimal_digits g n
unfolding decimal_digits
decimal_fuel zero g n h k = absurd (omega arith)
decimal_fuel (suc f) zero n h k = absurd (omega arith)
decimal_fuel (suc f) (suc g) n h k = elim (Bool-cases (ltb n 10)) [
  | inl small ↦ rw small
  | inr large ↦ rw (large, decimal_fuel f g (n / 10) (ground arith) (ground arith))
]

decimal-push :
    (n c : ℕ) → 1 ≤ n → is_digit c ≡ true → decimal (n * 10 + (c - 48)) ≡ decimal n ++ (c ∷ [])
unfolding decimal is_digit
decimal-push n c h k =
    let m : ℕ = n * 10 + (c - 48) in
    let large : ltb m 10 ≡ false = ground arith in
    let tens : m / 10 ≡ n = ground arith in
    let ones : 48 + m % 10 ≡ c = ground arith in
    unfold decimal_digits in
    rw (large, tens, ones, decimal_fuel m (suc n) n (ground arith) (omega arith))

decimal-digits_value :
    (n : ℕ) (cs : List ℕ)
    → 1 ≤ n
    → all_digits cs ≡ true
    → decimal (digits_value n cs) ≡ decimal n ++ cs
unfolding digits_value all_digits
decimal-digits_value n [] h k = sym (append-nil (decimal n))
decimal-digits_value n (c ∷ cs) h k =
    decimal-digits_value (n * 10 + (c - 48)) cs (omega arith) (ground arith)
    ∙ rw (decimal-push n c h (ground arith)) (append_assoc (decimal n) (c ∷ []) cs)

decimal_small : (c : ℕ) → is_digit c ≡ true → decimal (c - 48) ≡ c ∷ []
unfolding decimal decimal_digits is_digit
decimal_small c h = let small : ltb (c - 48) 10 ≡ true = ground arith in rw small (ground arith)

decimal-parsed : (t : List ℕ) → is_canonical t ≡ true → decimal (digits_value 0 t) ≡ t
unfolding is_canonical digits_value
decimal-parsed [] h = cc
decimal-parsed (c ∷ []) h = rw (zero-mul 10, zero-add (c - 48)) (decimal_small c h)
decimal-parsed (c ∷ d ∷ cs) h =
    let digit : is_digit c ≡ true = ground arith in
    let lead : 49 ≤ c = ground arith in
    rw (zero-mul 10, zero-add (c - 48))
      (decimal-digits_value (c - 48) (d ∷ cs) (omega arith) (ground arith)
        ∙ rw (decimal_small c digit))

-- An unsigned number in the SQLite range is read back from its decimal text, and from the bigint itself.
pub parse_unsigned-decimal :
    (n : ℕ)
    → n ≤ max_sqlite_integer
    → (parse_unsigned (text (decimal n)) ≡ ok n) × (parse_unsigned (bigint n) ≡ ok n)
unfolding parse_unsigned parse_text decimal
parse_unsigned-decimal n h =
    let c = canonical-decimal (suc n) n (omega arith) in
    let v = digits_value-decimal (suc n) n (omega arith) in
    let e : parse_text (decimal n) ≡ ok n = rw (c, v) (ground arith) in (e, e)

-- A text that is accepted is the decimal text of the number it stands for, which is in the range.
pub parse_unsigned-text :
    (t : List ℕ) (n : ℕ)
    → parse_unsigned (text t) ≡ ok n
    → (decimal n ≡ t) × (n ≤ max_sqlite_integer)
unfolding parse_unsigned parse_text
parse_unsigned-text t n h =
    let canonical : is_canonical t ≡ true = ground arith in
    let value : digits_value 0 t ≡ n = ground arith in
    (rw (← value) (decimal-parsed t canonical), ground arith)

parse_text-bound : (t : List ℕ) (n : ℕ) → parse_text t ≡ ok n → n ≤ max_sqlite_integer
unfolding parse_unsigned
parse_text-bound t n h = let (same, below) = parse_unsigned-text t n h in below

-- What is read is in the range of the daemon's integers.
pub parse_unsigned-bound :
    (value : Numeric) (n : ℕ) → parse_unsigned value ≡ ok n → n ≤ max_sqlite_integer
unfolding parse_unsigned
parse_unsigned-bound (number m) n h = elim (Bool-cases (leb m max_safe_integer)) [
  | inl e ↦ parse_text-bound (decimal m) n (rw e at h)
  | inr e ↦ cc (rw e at h)
]
parse_unsigned-bound (bigint m) n h = parse_text-bound (decimal m) n h
parse_unsigned-bound (text t) n h = parse_text-bound t n h
parse_unsigned-bound refused n h = cc

-- How a text is read.
pub parse_unsigned-canonical :
    (t : List ℕ)
    → parse_unsigned (text t) ≡ (
        if is_canonical t
        then (if ltb max_sqlite_integer (digits_value 0 t)
            then err malformed
            else ok (digits_value 0 t))
        else err malformed)
unfolding parse_unsigned parse_text
parse_unsigned-canonical t = refl
