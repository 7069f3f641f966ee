-- ===== src/Dsh/Listing/Unique.antt =====
-- The sessions that `normalizeSessionList` returns.
use qq_index.Prelude.{
  ℕ, ◌≡◌, sym, subst, false, Option, none, some, List, [], ◌∷◌, length, arith, inl, inr, ok,
  Outcome-cases, All, All-map,
}
use qq_index.Dsh.Source.{has}
use qq_index.Dsh.Listing.{unique_sessions}

-- None of the sessions was seen before.
abbrev Fresh : List ℕ → List ℕ → Type 0
Fresh seen sessions = All (λ (session : ℕ). has session seen ≡ false) sessions

older :
    (first session : ℕ) (seen : List ℕ)
    → has session (first ∷ seen) ≡ false
    → has session seen ≡ false
unfolding has
older first session seen h = ground arith

unique_sessions-Fresh :
    (seen : List ℕ) (values : List (Option ℕ)) (sessions : List ℕ)
    → unique_sessions seen values ≡ ok sessions
    → Fresh seen sessions × (length sessions ≡ length values)
unfolding unique_sessions
unique_sessions-Fresh seen [] sessions h =
    let e : sessions ≡ [] = ground arith in
    subst (λ (s : List ℕ). Fresh seen s × (length s ≡ 0)) (sym e) (tt, omega arith)
unique_sessions-Fresh seen (none ∷ values) sessions h = cc
unique_sessions-Fresh seen (some session ∷ values) sessions h =
    elim (Outcome-cases (unique_sessions (session ∷ seen) values)) [
      | inr (x, e) ↦ absurd (ground (arith, e))
      | inl (later, e) ↦
          let same : sessions ≡ session ∷ later = ground (arith, e) in
          let new : has session seen ≡ false = ground (arith, e) in
          let (fresh, counted) = unique_sessions-Fresh (session ∷ seen) values later e in
          subst (λ (s : List ℕ). Fresh seen s × (length s ≡ length (some session ∷ values)))
            (sym same)
            (
              (
                new,
                All-map
                    (λ (other : ℕ) (f : has other (session ∷ seen) ≡ false).
                      older session other seen f)
                    later fresh,
              ),
              omega (arith, counted),
            )
    ]
