-- ===== src/Views/Authority.antt =====
-- The workspaces of a request, and the tokens that stand for them.
use qq_index.Prelude.{
  ℕ, ◌≤◌, ◌≡◌, ◌⊎◌, refl, subst, ◌∙◌, false, not, ◌&&◌, List, [], ◌∷◌, map, length, arith, inl, inr,
  Bool-cases, ok, err,
}
use qq_index.Views.{
  Query, Expected, authorization_required, named, unique, names, validate_public_query_envelope,
  to_wire_authority, within,
}

-- No name stands in the list twice.
abbrev pub Distinct : List ℕ → Type 0
Distinct [] = Unit
Distinct (x ∷ xs) = (named x xs ≡ false) × Distinct xs

named-unique :
    (t : ℕ) (seen xs : List ℕ) → named t (unique seen xs) ≡ (named t xs && not (named t seen))
unfolding unique named
named-unique t seen [] = refl
named-unique t seen (x ∷ xs) = elim (Bool-cases (named x seen)) [
  | inl e ↦ rw e (ground (arith, e, named-unique t seen xs))
  | inr e ↦ rw e (ground (arith, e, named-unique t (x ∷ seen) xs))
]

unique-Distinct : (seen xs : List ℕ) → Distinct (unique seen xs)
unfolding unique
unique-Distinct seen [] = tt
unique-Distinct seen (x ∷ xs) = elim (Bool-cases (named x seen)) [
  | inl e ↦ rw e (unique-Distinct seen xs)
  | inr e ↦
      rw e (
        unfold named in ground (arith, named-unique x (x ∷ seen) xs),
        unique-Distinct (x ∷ seen) xs,
      )
]

unique-length : (seen xs : List ℕ) → length (unique seen xs) ≤ length xs
unfolding unique
unique-length seen [] = omega arith
unique-length seen (x ∷ xs) = elim (Bool-cases (named x seen)) [
  | inl e ↦ rw e (omega (arith, unique-length seen xs))
  | inr e ↦ rw e (omega (arith, unique-length (x ∷ seen) xs))
]

unique-all : (seen xs : List ℕ) → length (unique seen xs) ≡ length xs → unique seen xs ≡ xs
unfolding unique
unique-all seen [] h = refl
unique-all seen (x ∷ xs) h = elim (Bool-cases (named x seen)) [
  | inl e ↦ absurd (omega (arith, unique-length seen xs, rw e at h))
  | inr e ↦ rw (e, unique-all (x ∷ seen) xs (omega (arith, rw e at h)))
]

names-length : (ws : List (ℕ × ℕ)) → length (names ws) ≡ length ws
names-length [] = refl
names-length ((name, bytes) ∷ ws) = omega (arith, names-length ws)

-- A request that is accepted asks for the expected view and access, and names 1 to 16 workspaces, none of
-- them twice.
pub accepted_query_lem :
    (q : Query) (expected : Expected) (x : Unit {0})
    → validate_public_query_envelope q expected ≡ ok x
    → (q.view.id ≡ expected.id)
      × (q.view.version ≡ expected.view_version)
      × (q.access ≡ expected.access)
      × (1 ≤ length q.workspaces)
      × (length q.workspaces ≤ 16)
      × Distinct (names q.workspaces)
unfolding validate_public_query_envelope within
accepted_query_lem q expected x h =
    let counted : length (unique [] (names q.workspaces)) ≡ length q.workspaces = ground arith in
    let same =
      unique-all [] (names q.workspaces) (omega (arith, counted, names-length q.workspaces)) in
    (
      ground arith,
      ground arith,
      ground arith,
      ground arith,
      ground arith,
      subst Distinct same (unique-Distinct [] (names q.workspaces)),
    )

-- If the tokens are handed over, they are the tokens of the given workspaces, each once; they are refused only
-- if there is no workspace.
pub to_wire_authority_lem :
    (derive : ℕ → ℕ) (workspaces : List ℕ)
    → ((workspaces ≡ []) × (to_wire_authority derive workspaces ≡ err authorization_required))
      ⊎ ((tokens : List ℕ) × (to_wire_authority derive workspaces ≡ ok tokens)
          × Distinct tokens
          × ((t : ℕ) → named t tokens ≡ named t (map derive workspaces)))
unfolding to_wire_authority unique named
to_wire_authority_lem derive [] = inl (refl, refl)
to_wire_authority_lem derive (w ∷ ws) = inr (
  unique [] (map derive (w ∷ ws)),
  refl,
  unique-Distinct [] (map derive (w ∷ ws)),
  λ t. named-unique t [] (map derive (w ∷ ws)) ∙ ground arith,
)
