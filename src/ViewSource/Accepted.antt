-- ===== src/ViewSource/Accepted.antt =====
-- src/dsh-alpha4-view-source.mjs: what its checks accept, against the source of session logs and the client.
use Prim.Native.String.{String}
use qq_index.Prelude.{
  ℕ, ◌≤◌, ◌≡◌, ◌↔◌, refl, false, List, [], ◌∷◌, ◌++◌, length, ok, err, ◌>>◌, arith, subst, sym,
}
use qq_index.Dsh.Decimal.{max_sqlite_integer}
use qq_index.Client.Values.{Value, string, array, Items, to_list}
use qq_index.Client.Checks.{unsigned_string, is_unsigned_text}
use qq_index.ViewSource.Checks.{Checked, canonical_unsigned, is_canonical_text}
use qq_index.ViewSource.Records.{validate_each, validate_record, validate_source_records}

-- The view source takes a text for a cursor exactly where the client does.
pub view_cursor_agrees :
    (s : String)
    → (canonical_unsigned (string s) ≡ ok tt)
      ↔ (unsigned_string (string s) max_sqlite_integer false ≡ ok tt)
unfolding canonical_unsigned unsigned_string is_canonical_text is_unsigned_text
view_cursor_agrees s = ((λ h. ground (arith, h)), (λ h. ground (arith, h)))

then_rest : (m k : Checked) → (m >> k) ≡ ok tt → (m ≡ ok tt) × (k ≡ ok tt)
then_rest (ok tt) k h = (refl, h)
then_rest (err e) k h = absurd (ground (arith, h))

validate_each-append :
    (xs ys : List Value)
    → validate_each xs ≡ ok tt
    → validate_each ys ≡ ok tt
    → validate_each (xs ++ ys) ≡ ok tt
unfolding validate_each
validate_each-append [] ys h k = k
validate_each-append (x ∷ xs) ys h k =
    let (first, rest) = then_rest (validate_record x) (validate_each xs) h in
    rw (first, validate_each-append xs ys rest k)

records_each :
    (xs : Items) (maximum : ℕ)
    → validate_source_records (array xs) maximum ≡ ok tt
    → validate_each (to_list xs) ≡ ok tt
unfolding validate_source_records
records_each xs maximum h = ground (arith, h)

-- Two lists of records that are accepted are accepted as one list, as long as that is not too long: sessions that
-- both have are not refused, although the check means to refuse a session that is there twice.
duplicates_accepted :
    (xs ys zs : Items) (maximum : ℕ)
    → validate_source_records (array xs) maximum ≡ ok tt
    → validate_source_records (array ys) maximum ≡ ok tt
    → to_list zs ≡ to_list xs ++ to_list ys
    → length (to_list zs) ≤ maximum
    → validate_source_records (array zs) maximum ≡ ok tt
unfolding validate_source_records
duplicates_accepted xs ys zs maximum h k joined fits =
    let both =
      validate_each-append (to_list xs) (to_list ys) (records_each xs maximum h)
        (records_each ys maximum k) in
    let all = subst (λ vs. validate_each vs ≡ ok tt) (sym joined) both in ground (arith, all, fits)
