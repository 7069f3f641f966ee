-- ===== src/Client/Accepted/Texts.antt =====
-- src/session-index-client.mjs: sets of texts, and what the checks of one value promise.
use text.Mathlib.TextEquality.{eq_iff}
use Prim.Native.String.{String}
use qq_index.Prelude.{ℕ, ◌≤◌, ◌≡◌, refl, true, false, not, List, [], ◌∷◌, length, ok, ◌>>◌, arith}
use qq_index.Client.Values.{Value, same_text, has_text, elements, number, whole, strict_equal}
use qq_index.Client.Checks.{Check, every, bounded_array, equal}

-- The parts of an accepted chain of five checks.
pub five_ok :
    (a b c d e : Check)
    → (a >> (b >> (c >> (d >> e)))) ≡ ok tt
    → (a ≡ ok tt) × ((b ≡ ok tt) × ((c ≡ ok tt) × ((d ≡ ok tt) × (e ≡ ok tt))))
five_ok a b c d e h = (ground arith, (ground arith, (ground arith, (ground arith, ground arith))))

pub same_text_sym : (a b : String) → same_text a b ≡ same_text b a
same_text_sym a b = ground (arith, eq_iff a b, eq_iff b a)

-- Texts that are none of `id` and of `received` are none of `received`, and `id` is none of them.
pub new_texts :
    (id : String) (received ks : List String)
    → every (λ k. not (has_text k (id ∷ received))) ks ≡ true
    → (has_text id ks ≡ false) × (every (λ k. not (has_text k received)) ks ≡ true)
unfolding every has_text
new_texts id received [] h = (refl, refl)
new_texts id received (k ∷ ks) h =
    let swap = same_text_sym id k in
    let rest = new_texts id received ks in ground (arith, h, swap, rest)

pub bounded_array_lem :
    (v : Value) (minimum maximum : ℕ)
    → bounded_array v minimum maximum ≡ ok tt
    → (minimum ≤ length (elements v)) × (length (elements v) ≤ maximum)
unfolding bounded_array elements
bounded_array_lem v minimum maximum h = ground (arith, h)

pub equal_number : (v : Value) (n : ℕ) → equal v (number (whole n)) ≡ ok tt → v ≡ number (whole n)
unfolding equal strict_equal
equal_number v n h = ground (arith, h)

pub equal_lem : (v w : Value) → equal v w ≡ ok tt → strict_equal v w ≡ true
unfolding equal
equal_lem v w h = ground (arith, h)
