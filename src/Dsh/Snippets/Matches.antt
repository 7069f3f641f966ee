-- ===== src/Dsh/Snippets/Matches.antt =====
-- The window of a match shows the code units of the match.
use qq_index.Prelude.{
  ℕ, zero, suc, ◌+◌, ◌≤◌, ◌<◌, ◌≡◌, refl, sym, subst, inl, inr, none, some, [], ◌∷◌, arith, ltb,
  length, take, Option-cases, Bool-cases,
}
use qq_index.Readme.Text.{Text}
use qq_index.Dsh.Snippets.{
  Window, units_of, total, units, prefix_units, find_end, or_last, extend, match_window,
}
use qq_index.Dsh.Snippets.Windows.{Within}

-- The points that end before a place start no later than it.
find_end-start :
    (match_index : ℕ) (t : Text) (start index p : ℕ)
    → start ≤ match_index
    → find_end (ltb match_index) t start index ≡ some p
    → (n : ℕ) × (p ≡ index + n) × (start + total units_of (take n t) ≤ match_index)
unfolding find_end total
find_end-start match_index [] start index p h e = cc
find_end-start match_index (c ∷ cs) start index p h e =
    elim (Bool-cases (ltb match_index (start + units_of c))) [
      | inl here ↦ (0, ground arith, omega arith)
      | inr later ↦
          let (n, q, k) =
            find_end-start match_index cs (start + units_of c) (index + 1) p (ground arith)
              (rw later at e) in
          (suc n, omega (arith, q), omega (arith, k))
    ]

find_end-none :
    (match_index : ℕ) (t : Text) (start index : ℕ)
    → start ≤ match_index
    → find_end (ltb match_index) t start index ≡ none
    → start + total units_of t ≤ match_index
unfolding find_end total
find_end-none match_index [] start index h e = omega arith
find_end-none match_index (c ∷ cs) start index h e =
    ground (arith, find_end-none match_index cs (start + units_of c) (index + 1))

total_mono :
    (size : ℕ → ℕ) (t : Text) (m n : ℕ) → m ≤ n → total size (take m t) ≤ total size (take n t)
unfolding total
total_mono size t zero n h = omega arith
total_mono size t (suc m) zero h = absurd (omega arith)
total_mono size [] (suc m) (suc n) h = omega arith
total_mono size (c ∷ cs) (suc m) (suc n) h = omega (arith, total_mono size cs m n (omega arith))

total_all : (size : ℕ → ℕ) (t : Text) (n : ℕ) → length t ≤ n → total size (take n t) ≡ total size t
unfolding total
total_all size [] zero h = refl
total_all size [] (suc n) h = refl
total_all size (c ∷ cs) zero h = absurd (omega arith)
total_all size (c ∷ cs) (suc n) h = omega (arith, total_all size cs n (omega arith))

left_start :
    (t : Text) (match_index : ℕ)
    → match_index < units t
    → prefix_units t (or_last t (find_end (ltb match_index) t 0 0)) ≤ match_index
unfolding prefix_units units
left_start t match_index h = elim (Option-cases (find_end (ltb match_index) t 0 0)) [
  | inl e ↦ absurd (omega (arith, find_end-none match_index t 0 0 (omega arith) e))
  | inr (p, e) ↦
      let (n, q, k) = find_end-start match_index t 0 0 p (omega arith) e in
      let same : p ≡ n = omega (arith, q) in
      subst (λ o. total units_of (take (or_last t o) t) ≤ match_index) (sym e)
        (rw same (omega (arith, k)))
]

-- The points of the text are enough rounds to come to the end of the match.
extend-end :
    (fuel : ℕ) (t : Text) (match_end right : ℕ)
    → length t ≤ fuel + right
    → match_end ≤ units t
    → match_end ≤ prefix_units t (extend fuel t match_end right + 1)
unfolding extend prefix_units units
extend-end zero t match_end right h e =
    omega (arith, total_all units_of t (right + 1) (omega arith))
extend-end (suc fuel) t match_end right h e =
    ground (arith, extend-end fuel t match_end (right + 1), total_all units_of t (right + 1))

-- A match of the text lies between the first unit of its window and the last.
pub match_window-Shown :
    (t : Text) (match_index literal_length : ℕ)
    → match_index < units t
    → match_index + literal_length ≤ units t
    → let m = match_window t match_index literal_length in
      (prefix_units t m.left ≤ match_index)
      × (match_index + literal_length ≤ prefix_units t (m.right + 1))
unfolding match_window
match_window-Shown t match_index literal_length h k = (
  left_start t match_index h,
  extend-end (length t) t (match_index + literal_length)
      (or_last t (find_end (ltb match_index) t 0 0)) (omega arith) k,
)

-- A larger window shows no less.
pub Within-Shown :
    (t : Text) (small large : Window) (first last : ℕ)
    → Within small large
    → (prefix_units t small.left ≤ first) × (last ≤ prefix_units t (small.right + 1))
    → (prefix_units t large.left ≤ first) × (last ≤ prefix_units t (large.right + 1))
unfolding prefix_units units
Within-Shown t small large first last w s = (
  omega (arith, s.0, total_mono units_of t large.left small.left w.0),
  omega
      (arith, s.1, total_mono units_of t (small.right + 1) (large.right + 1) (omega (arith, w.1))),
)
