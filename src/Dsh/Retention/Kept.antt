-- ===== src/Dsh/Retention/Kept.antt =====
-- What the kept candidates and evidence rest on.
use qq_index.Prelude.{ℕ, ◌≡◌, true, false, List, [], ◌∷◌, ok, All}
use qq_index.Dsh.Retention.{
  EvidenceKey, Observed, Retained, same_key, has_key, verified_contribution, identities, keys,
  title_of,
}

-- Every contribution of a kept candidate was observed with its rank, its title is the one that was read, and its
-- evidence is of its own contributions.
pub record Backed (titles : List (ℕ × List ℕ)) (observed : List Observed) (r : Retained)
    : Type 0 where
  pub contributed : List (EvidenceKey × ℕ)
  pub named : identities r.session r.contributions ≡ ok contributed
  pub seen : All (λ identity. verified_contribution identity observed ≡ true) contributed
  pub titled : r.title ≡ title_of r.session titles
  pub own : All (λ (o : Observed). has_key o.key (keys contributed) ≡ true) r.evidence

-- No two observations have the same key.
abbrev pub NoTwins : List Observed → Type 0
NoTwins [] = Unit
NoTwins (o ∷ os) = All (λ (p : Observed). same_key o.key p.key ≡ false) os × NoTwins os
