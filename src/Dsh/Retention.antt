-- ===== src/Dsh/Retention.antt =====
-- The end of `verifyDshSearchCandidates` of src/session-index-dsh-source.mjs: which evidence and which candidates are
-- kept. The keys are texts that name their parts with their lengths, so they are the parts here; sessions and
-- documents are numbers.
pub mod Kept
mod Tests
use qq_index.Prelude.{
  ℕ, Bool, true, false, not, ◌&&◌, ◌||◌, Option, none, some, List, [], ◌∷◌, ◌++◌, ◌==◌,
  if◌then◌else◌, Outcome, ok, err, ◌>>=◌,
}
use qq_index.Dsh.Errors.{SourceError}
use qq_index.Dsh.Decimal.{Numeric, parse_unsigned}

-- `verificationEvidenceKey`
pub record EvidenceKey : Type 0 where
  pub session : ℕ
  pub query_ordinal : ℕ
  pub seq : ℕ
  pub document_key : ℕ

unfoldable pub same_key : EvidenceKey → EvidenceKey → Bool
same_key k l =
    k.session == l.session
    && (k.query_ordinal == l.query_ordinal && (k.seq == l.seq && k.document_key == l.document_key))

-- Evidence that an exact read confirmed, with the rank of the source that pointed at it.
pub record Observed : Type 0 where
  pub key : EvidenceKey
  pub source_rank : ℕ
  pub snippet : List ℕ

pub record Contribution : Type 0 where
  pub query_ordinal : ℕ
  pub source_rank : ℕ
  pub seq : Numeric
  pub document_key : ℕ

pub record Candidate : Type 0 where
  pub session : ℕ
  pub contributions : List Contribution
  pub title : Option (List ℕ)

-- A candidate that is kept, with its evidence and the title that was read.
pub record Retained : Type 0 where
  pub session : ℕ
  pub contributions : List Contribution
  pub title : Option (List ℕ)
  pub evidence : List Observed

pub record Verified : Type 0 where
  pub candidates : List Retained
  pub evidence : List Observed

unfoldable pub has_key : EvidenceKey → List EvidenceKey → Bool
has_key k [] = false
has_key k (l ∷ ls) = same_key l k || has_key k ls

-- The first observation of each key.
pub unique_evidence : List EvidenceKey → List Observed → List Observed
unfolding has_key
unique_evidence seen [] = []
unique_evidence seen (o ∷ os) =
    let rest = unique_evidence (if has_key o.key seen then seen else o.key ∷ seen) os in
    if has_key o.key seen then rest else o ∷ rest

-- `verifiedContributionKeys.has`
unfoldable pub verified_contribution : EvidenceKey × ℕ → List Observed → Bool
unfolding same_key
verified_contribution (k, rank) [] = false
verified_contribution (k, rank) (o ∷ os) =
    (o.source_rank == rank && same_key o.key k) || verified_contribution (k, rank) os

pub all_verified : List (EvidenceKey × ℕ) → List Observed → Bool
unfolding verified_contribution
all_verified [] observed = true
all_verified (identity ∷ identities) observed =
    verified_contribution identity observed && all_verified identities observed

abbrev pub key_of : ℕ → ℕ → Contribution → EvidenceKey
key_of session seq c = record {
  session = session;
  query_ordinal = c.query_ordinal;
  seq = seq;
  document_key = c.document_key;
}

-- `contributionIdentities`
pub identities : ℕ → List Contribution → Outcome SourceError (List (EvidenceKey × ℕ))
identities session [] = ok []
identities session (c ∷ cs) = do
  seq ← parse_unsigned c.seq
  later ← identities session cs
  ok ((key_of session seq c, c.source_rank) ∷ later)

abbrev pub keys : List (EvidenceKey × ℕ) → List EvidenceKey
keys [] = []
keys ((k, rank) ∷ rest) = k ∷ keys rest

-- `uniqueObservedEvidence.filter`
pub with_keys : List EvidenceKey → List Observed → List Observed
unfolding has_key
with_keys ks [] = []
with_keys ks (o ∷ os) = let rest = with_keys ks os in if has_key o.key ks then o ∷ rest else rest

-- `titlesBySession.get`
unfoldable pub title_of : ℕ → List (ℕ × List ℕ) → Option (List ℕ)
title_of session [] = none
title_of session ((s, title) ∷ titles) =
    if s == session then some title else title_of session titles

module _ (titles : List (ℕ × List ℕ)) (observed : List Observed) where
  -- A candidate that is kept; its own title is dropped.
  pub keep : Candidate → List (EvidenceKey × ℕ) → Retained
  unfolding with_keys unique_evidence title_of
  keep c contributed = record {
    session = c.session;
    contributions = c.contributions;
    title = title_of c.session titles;
    evidence = with_keys (keys contributed) (unique_evidence [] observed);
  }

  -- One round of the loop over the candidates: what is kept, and the keys of its evidence.
  pub retain_one :
      Candidate
      → List (EvidenceKey × ℕ)
      → List Retained × List EvidenceKey
      → List Retained × List EvidenceKey
  unfolding all_verified keep
  retain_one c contributed (kept, ks) =
      if all_verified contributed observed
      then (keep c contributed ∷ kept, keys contributed ++ ks)
      else (kept, ks)

  pub retain : List Candidate → Outcome SourceError (List Retained × List EvidenceKey)
  unfolding identities retain_one
  retain [] = ok ([], [])
  retain (c ∷ cs) = do
    contributed ← identities c.session c.contributions
    later ← retain cs
    ok (retain_one c contributed later)

  unfoldable pub verified : List Candidate → Outcome SourceError Verified
  unfolding retain with_keys unique_evidence
  verified candidates = do
    kept ← retain candidates
    ok (record { candidates = kept.0; evidence = with_keys kept.1 (unique_evidence [] observed) })
