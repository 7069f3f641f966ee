-- ===== src/Client/Frames/Newlines.antt =====
-- `#onData` of src/session-index-client.mjs: where the first newline of a buffer stands.
use qq_index.Prelude.{
  ℕ, zero, suc, ◌<◌, false, none, some, List, [], ◌∷◌, ◌++◌, ◌≡◌, refl, length, take, drop, arith,
}
use qq_index.Client.Frames.{has_newline, index_of_newline}

pub index_of_newline-none : (bs : List ℕ) → index_of_newline bs ≡ none → has_newline bs ≡ false
unfolding index_of_newline has_newline
index_of_newline-none [] h = refl
index_of_newline-none (b ∷ bs) h = ground (arith, index_of_newline-none bs)

-- Before the first newline there is none.
pub index_of_newline-take :
    (bs : List ℕ) (n : ℕ) → index_of_newline bs ≡ some n → has_newline (take n bs) ≡ false
unfolding index_of_newline has_newline
index_of_newline-take [] n h = absurd (ground (arith, h))
index_of_newline-take (b ∷ bs) zero h = refl
index_of_newline-take (b ∷ bs) (suc n) h = ground (arith, index_of_newline-take bs n)

pub index_of_newline-split :
    (bs : List ℕ) (n : ℕ) → index_of_newline bs ≡ some n → bs ≡ take n bs ++ (10 ∷ drop (suc n) bs)
unfolding index_of_newline
index_of_newline-split [] n h = absurd (ground (arith, h))
index_of_newline-split (b ∷ bs) zero h = ground arith
index_of_newline-split (b ∷ bs) (suc n) h = ground (arith, index_of_newline-split bs n)

pub index_of_newline-length :
    (bs : List ℕ) (n : ℕ)
    → index_of_newline bs ≡ some n
    → (length (take n bs) ≡ n) × (length (drop (suc n) bs) < length bs)
unfolding index_of_newline
index_of_newline-length [] n h = absurd (ground (arith, h))
index_of_newline-length (b ∷ bs) zero h = (refl, omega arith)
index_of_newline-length (b ∷ bs) (suc n) h = ground (arith, index_of_newline-length bs n)
