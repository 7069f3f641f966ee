-- ===== src/Dsh/Snippets/Spaces.antt =====
-- White space: what `normalizeWhitespace` gives, and a clipped title.
use qq_index.Prelude.{
  ℕ, ◌≡◌, refl, ap, ◌∙◌, Bool, true, false, not, ◌&&◌, List, [], ◌∷◌, Bool-cases, inl, inr, arith,
  ◌==◌, if◌then◌else◌,
}
use qq_index.Readme.Text.{Text, is_space, keep_start, trim_end}
use qq_index.Dsh.Snippets.{collapse_spaces, trim_start, normalize_whitespace}

abbrev pub starts_with_space : Text → Bool
starts_with_space [] = false
starts_with_space (c ∷ cs) = is_space c

-- Whether a word starts here.
unfoldable starts_word : Text → Bool
starts_word [] = false
starts_word (c ∷ cs) = not (is_space c)

-- The words with a point put before: into the first word where it goes on, and as a word of its own elsewhere.
unfoldable attach : (goes_on : Bool) → ℕ → List Text → List Text
attach true c (w ∷ ws) = (c ∷ w) ∷ ws
attach true c [] = (c ∷ []) ∷ []
attach false c ws = (c ∷ []) ∷ ws

-- The words of a text: its longest runs of points that are not white space, in their order.
unfoldable pub words_of : Text → List Text
unfolding attach starts_word
words_of [] = []
words_of (c ∷ cs) =
    let rest = words_of cs in
    let word = attach (starts_word cs) c rest in if is_space c then rest else word

-- White space is a single U+0020, and `after_space` says that one is before the text.
unfoldable pub is_tidy : (after_space : Bool) → Text → Bool
is_tidy after_space [] = true
is_tidy after_space (c ∷ cs) =
    let rest = is_tidy (is_space c) cs in
    if is_space c then c == 32 && (not after_space && rest) else rest

unfoldable pub ends_with_space : Text → Bool
ends_with_space [] = false
ends_with_space (c ∷ []) = is_space c
ends_with_space (c ∷ d ∷ ds) = ends_with_space (d ∷ ds)

space_is_space : is_space 32 ≡ true
unfolding is_space
space_is_space = refl

collapse-tidy : (a : Bool) (t : Text) → is_tidy a (collapse_spaces a t) ≡ true
unfolding is_tidy collapse_spaces
collapse-tidy a [] = refl
collapse-tidy true (c ∷ cs) =
    ground (arith, collapse-tidy (is_space c) cs, collapse-tidy true cs, space_is_space)
collapse-tidy false (c ∷ cs) =
    ground (arith, collapse-tidy (is_space c) cs, collapse-tidy true cs, space_is_space)

collapse-starts : (t : Text) → starts_word (collapse_spaces false t) ≡ starts_word t
unfolding starts_word collapse_spaces
collapse-starts [] = refl
collapse-starts (c ∷ cs) = ground (arith, space_is_space)

words-space : (a : Bool) (t : Text) → words_of (if a then t else 32 ∷ t) ≡ words_of t
unfolding words_of
words-space true t = refl
words-space false t = rw space_is_space refl

words-word :
    (c : ℕ) (t : Text)
    → is_space c ≡ false
    → words_of (c ∷ t) ≡ attach (starts_word t) c (words_of t)
unfolding words_of
words-word c t h = rw h refl

words-collapse : (a : Bool) (t : Text) → words_of (collapse_spaces a t) ≡ words_of t
unfolding words_of collapse_spaces
words-collapse a [] = refl
words-collapse a (c ∷ cs) = elim (Bool-cases (is_space c)) [
  | inl s ↦ rw s (words-space a (collapse_spaces true cs) ∙ words-collapse true cs)
  | inr s ↦ rw s (
      words-word c (collapse_spaces false cs) s
      ∙ rw (collapse-starts cs, words-collapse false cs) refl)
]

words-trim_start : (t : Text) → words_of (trim_start t) ≡ words_of t
unfolding words_of trim_start
words-trim_start [] = refl
words-trim_start (c ∷ cs) = ground (arith, words-trim_start cs)

starts-keep_start : (c : ℕ) (t : Text) → starts_word (keep_start c t) ≡ starts_word (c ∷ t)
unfolding starts_word
starts-keep_start c [] = ground arith
starts-keep_start c (d ∷ ds) = refl

words-keep_start : (c : ℕ) (t : Text) → words_of (keep_start c t) ≡ words_of (c ∷ t)
unfolding words_of attach starts_word
words-keep_start c [] = ground arith
words-keep_start c (d ∷ ds) = refl

starts-trim_end : (t : Text) → starts_word (trim_end t) ≡ starts_word t
unfolding starts_word trim_end
starts-trim_end [] = refl
starts-trim_end (c ∷ cs) = starts-keep_start c (trim_end cs)

-- A point before two texts with the same words, of which both or neither start with one.
words_below :
    (c : ℕ) (s t : Text)
    → starts_word s ≡ starts_word t
    → words_of s ≡ words_of t
    → words_of (c ∷ s) ≡ words_of (c ∷ t)
unfolding words_of
words_below c s t h k = rw (h, k) refl

words-trim_end : (t : Text) → words_of (trim_end t) ≡ words_of t
unfolding trim_end
words-trim_end [] = refl
words-trim_end (c ∷ cs) =
    words-keep_start c (trim_end cs)
    ∙ words_below c (trim_end cs) cs (starts-trim_end cs) (words-trim_end cs)

tidy_weaken : (a : Bool) (t : Text) → is_tidy true t ≡ true → is_tidy a t ≡ true
unfolding is_tidy
tidy_weaken a [] h = refl
tidy_weaken true (c ∷ cs) h = h
tidy_weaken false (c ∷ cs) h = ground arith

trim_start-tidy : (a : Bool) (t : Text) → is_tidy a t ≡ true → is_tidy a (trim_start t) ≡ true
unfolding is_tidy trim_start
trim_start-tidy a [] h = refl
trim_start-tidy a (c ∷ cs) h = ground (arith, tidy_weaken a cs, trim_start-tidy a cs)

keep_start-tidy :
    (a : Bool) (c : ℕ) (t : Text) → is_tidy a (c ∷ t) ≡ true → is_tidy a (keep_start c t) ≡ true
unfolding is_tidy
keep_start-tidy a c [] h = ground arith
keep_start-tidy a c (d ∷ ds) h = h

trim_end-tidy : (a : Bool) (t : Text) → is_tidy a t ≡ true → is_tidy a (trim_end t) ≡ true
unfolding is_tidy trim_end
trim_end-tidy a [] h = refl
trim_end-tidy a (c ∷ cs) h =
    keep_start-tidy a c (trim_end cs) (ground (arith, trim_end-tidy (is_space c) cs))

trim_start-starts : (t : Text) → starts_with_space (trim_start t) ≡ false
unfolding trim_start
trim_start-starts [] = refl
trim_start-starts (c ∷ cs) = ground (arith, trim_start-starts cs)

keep_start-starts :
    (c : ℕ) (t : Text) → is_space c ≡ false → starts_with_space (keep_start c t) ≡ false
keep_start-starts c [] h = rw h h
keep_start-starts c (d ∷ ds) h = h

trim_end-starts : (t : Text) → starts_with_space t ≡ false → starts_with_space (trim_end t) ≡ false
unfolding trim_end
trim_end-starts [] h = refl
trim_end-starts (c ∷ cs) h = keep_start-starts c (trim_end cs) h

keep_start-ends :
    (c : ℕ) (t : Text) → ends_with_space t ≡ false → ends_with_space (keep_start c t) ≡ false
unfolding ends_with_space
keep_start-ends c [] h = ground arith
keep_start-ends c (d ∷ ds) h = h

trim_end-ends : (t : Text) → ends_with_space (trim_end t) ≡ false
unfolding trim_end ends_with_space
trim_end-ends [] = refl
trim_end-ends (c ∷ cs) = keep_start-ends c (trim_end cs) (trim_end-ends cs)

-- A text that is normalized stays as it is.
collapse_tidy : (a : Bool) (t : Text) → is_tidy a t ≡ true → collapse_spaces a t ≡ t
unfolding is_tidy collapse_spaces
collapse_tidy a [] h = refl
collapse_tidy a (c ∷ cs) h = ground (arith, collapse_tidy (is_space c) cs)

trim_start_trimmed : (t : Text) → starts_with_space t ≡ false → trim_start t ≡ t
unfolding trim_start
trim_start_trimmed [] h = refl
trim_start_trimmed (c ∷ cs) h = rw h refl

trim_end_trimmed : (t : Text) → ends_with_space t ≡ false → trim_end t ≡ t
unfolding trim_end ends_with_space
trim_end_trimmed [] h = refl
trim_end_trimmed (c ∷ []) h = rw h refl
trim_end_trimmed (c ∷ d ∷ ds) h = ap (keep_start c) (trim_end_trimmed (d ∷ ds) h)

-- What `normalizeWhitespace` gives starts and ends with no white space, has single spaces between its words and no
-- other white space, and has the words of the value (its longest runs of points that are not white space), in their order.
pub normalize_whitespace-Tidy :
    (value : Text)
    → (starts_with_space (normalize_whitespace value) ≡ false)
      × (ends_with_space (normalize_whitespace value) ≡ false)
      × (is_tidy false (normalize_whitespace value) ≡ true)
      × (words_of (normalize_whitespace value) ≡ words_of value)
unfolding normalize_whitespace
normalize_whitespace-Tidy value =
    let collapsed : Text = collapse_spaces false value in
    let trimmed : Text = trim_start collapsed in
    (
      trim_end-starts trimmed (trim_start-starts collapsed),
      trim_end-ends trimmed,
      trim_end-tidy false trimmed (trim_start-tidy false collapsed (collapse-tidy false value)),
      words-trim_end trimmed ∙ (words-trim_start collapsed ∙ words-collapse false value),
    )

-- A text that is tidy, and that no white space starts or ends, is left as it is.
normalize-tidy :
    (t : Text)
    → starts_with_space t ≡ false
    → ends_with_space t ≡ false
    → is_tidy false t ≡ true
    → normalize_whitespace t ≡ t
unfolding normalize_whitespace
normalize-tidy t starts ends tidy =
    ap (λ s. trim_end (trim_start s)) (collapse_tidy false t tidy)
    ∙ (ap trim_end (trim_start_trimmed t starts) ∙ trim_end_trimmed t ends)

-- To normalize a text twice is to normalize it once.
pub normalize_whitespace_idempotent :
    (value : Text) → normalize_whitespace (normalize_whitespace value) ≡ normalize_whitespace value
normalize_whitespace_idempotent value =
    let (starts, ends, tidy, _) = normalize_whitespace-Tidy value in
    normalize-tidy (normalize_whitespace value) starts ends tidy
