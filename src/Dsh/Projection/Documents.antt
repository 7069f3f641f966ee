-- ===== src/Dsh/Projection/Documents.antt =====
-- The documents of a log by their numbers: what the loop of `bySequence` collects, and what a lookup in it finds.
use qq_index.Prelude.{
  ℕ, true, false, not, ◌&&◌, ◌≡◌, refl, sym, ap, ◌∙◌, subst, ◌⊎◌, inl, inr, none, some, List, [],
  ◌∷◌, ◌++◌, map, arith, ltb, ◌==◌, Bool-cases, ok, ◌>>=◌, ◌>>◌, bind_ok, then_ok, All,
}
use mathlib.Core.List.{append_assoc, append-nil}
use qq_index.Client.Values.{Value}
use qq_index.Dsh.Records.{
  Host, event_sequence, document_at, is_found, by_sequence, expect, is_object,
}

-- No document has the number.
abbrev pub Free : ℕ → List (ℕ × Value) → Type 0
Free i ds = All (λ (entry : ℕ × Value). (entry.0 == i) ≡ false) ds

-- No two documents have the same number.
pub Distinct : List (ℕ × Value) → Type 0
Distinct [] = Unit
Distinct ((n, d) ∷ ds) = Free n ds × Distinct ds

-- Each document has its number, which is below the count of the records.
abbrev pub Numbered : Host → ℕ → List (ℕ × Value) → Type 0
Numbered c count ds =
    All
      (λ (entry : ℕ × Value). (event_sequence c entry.1 ≡ ok entry.0) × (ltb entry.0 count ≡ true))
      ds

pub document_at-cases :
    (i : ℕ) (ds : List (ℕ × Value))
    → (document_at i ds ≡ none) × Free i ds
      ⊎ (d : Value) × (before : List (ℕ × Value)) × (after : List (ℕ × Value)) × (document_at i ds
          ≡ some d)
        × (ds ≡ before ++ ((i, d) ∷ after))
unfolding document_at
document_at-cases i [] = inl (refl, tt)
document_at-cases i ((n, d) ∷ ds) = elim (Bool-cases (n == i)) [
  | inl e ↦
      let same : n ≡ i = ground (arith, e) in inr (d, [], ds, rw e refl, ap (λ m. (m, d) ∷ ds) same)
  | inr e ↦ elim (document_at-cases i ds) [
    | inl (nothing, free) ↦ inl (rw e nothing, (e, free))
    | inr (d', before, after, found, split) ↦
        inr (d', (n, d) ∷ before, after, rw e found, ap (λ x. (n, d) ∷ x) split)
  ]
]

not_found-Free : (i : ℕ) (ds : List (ℕ × Value)) → is_found (document_at i ds) ≡ false → Free i ds
not_found-Free i ds h = elim (document_at-cases i ds) [
  | inl (nothing, free) ↦ free
  | inr (d, before, after, found, split) ↦ absurd (ground (arith, found, h))
]

Free-snoc :
    (i m : ℕ) (d : Value) (ds : List (ℕ × Value))
    → Free i ds
    → (m == i) ≡ false
    → Free i (ds ++ ((m, d) ∷ []))
Free-snoc i m d [] h k = (k, tt)
Free-snoc i m d (e ∷ ds) (h, later) k = (h, Free-snoc i m d ds later k)

Distinct-snoc :
    (m : ℕ) (d : Value) (ds : List (ℕ × Value))
    → Distinct ds
    → Free m ds
    → Distinct (ds ++ ((m, d) ∷ []))
unfolding Distinct
Distinct-snoc m d [] h k = (tt, tt)
Distinct-snoc m d ((n, e) ∷ ds) (free, h) (k, later) =
    (Free-snoc n m d ds free (ground (arith, k)), Distinct-snoc m d ds h later)

-- What is added when the loop goes on after a document.
abbrev Added :
    Host → ℕ → List (ℕ × Value) → List Value → List (ℕ × Value) → List (ℕ × Value) → Type 0
Added c count found ds all added =
    (all ≡ found ++ added)
    × (map (λ entry. entry.1) added ≡ ds)
    × Numbered c count added
    × Distinct all

one_more :
    (c : Host) (count seq : ℕ) (found added all : List (ℕ × Value)) (d : Value) (ds : List Value)
    → event_sequence c d ≡ ok seq
    → ltb seq count ≡ true
    → Added c count (found ++ ((seq, d) ∷ [])) ds all added
    → Added c count found (d ∷ ds) all ((seq, d) ∷ added)
one_more c count seq found added all d ds own below (e, order, numbered, distinct) = (
  e ∙ append_assoc found ((seq, d) ∷ []) added,
  ap (λ x. d ∷ x) order,
  ((own, below), numbered),
  distinct,
)

-- What the loop adds: the documents in their order, each with its number, and no number twice.
by_sequence_lem :
    (c : Host) (count : ℕ) (found : List (ℕ × Value)) (ds : List Value) (all : List (ℕ × Value))
    → Distinct found
    → by_sequence c count found ds ≡ ok all
    → (added : List (ℕ × Value)) × Added c count found ds all added
unfolding by_sequence
by_sequence_lem c count found [] all v h =
    let same : found ≡ all = cc (h) in
    ([], (sym same ∙ sym (append-nil found), refl, tt, subst Distinct same v))
by_sequence_lem c count found (d ∷ ds) all v h =
    let fresh = λ (seq : ℕ). ltb seq count && not (is_found (document_at seq found)) in
    let next =
      λ (seq : ℕ). expect (fresh seq) >> by_sequence c count (found ++ ((seq, d) ∷ [])) ds in
    let (o1, h1) = then_ok (expect (is_object d)) (event_sequence c d >>= next) all h in
    let (seq, s1, h2) = bind_ok (event_sequence c d) next all h1 in
    let (o2, h3) =
      then_ok (expect (fresh seq)) (by_sequence c count (found ++ ((seq, d) ∷ [])) ds) all h2 in
    let below : ltb seq count ≡ true = ground (arith, o2) in
    let new : is_found (document_at seq found) ≡ false = ground (arith, o2) in
    let (added, later) =
      by_sequence_lem c count (found ++ ((seq, d) ∷ [])) ds all
        (Distinct-snoc seq d found v (not_found-Free seq found new)) h3 in
    ((seq, d) ∷ added, one_more c count seq found added all d ds s1 below later)

-- The documents that the loop has collected.
pub all_documents :
    (c : Host) (count : ℕ) (ds : List Value) (all : List (ℕ × Value))
    → by_sequence c count [] ds ≡ ok all
    → (map (λ entry. entry.1) all ≡ ds) × Numbered c count all × Distinct all
unfolding Distinct
all_documents c count ds all h =
    let (added, (e, order, numbered, distinct)) = by_sequence_lem c count [] ds all tt h in
    (rw e order, rw e numbered, distinct)
