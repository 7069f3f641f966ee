-- ===== src/Dsh/Snippets/Windows.antt =====
-- The window of a snippet: it fits, it holds the match where that fits, and it cannot grow.
use qq_index.Prelude.{
  ℕ, zero, suc, ◌+◌, ◌-◌, ◌*◌, ◌≤◌, ◌<◌, ◌≡◌, refl, sym, ap, subst, ◌⊎◌, inl, inr, Bool, true,
  false, Option, none, some, [], ◌∷◌, arith, ltb, leb, length, take, Option-cases, ◌&&◌,
  if◌then◌else◌,
}
use qq_index.Readme.Text.{Text}
use qq_index.Dsh.Snippets.{
  Window, units_of, bytes_of, total, units, bytes, prefix_units, prefix_bytes, find_end, or_last,
  fits, extend, match_window, center_window, first_window, twice_center, can_left, can_right,
  left_is_shorter, widen_once, widen, snippet_window,
}

-- One more point adds at most the size of a point.
total-suc :
    (size : ℕ → ℕ) (most : ℕ)
    → ((c : ℕ) → size c ≤ most)
    → (t : Text) (n : ℕ) → total size (take (suc n) t) ≤ total size (take n t) + most
unfolding total
total-suc size most h [] zero = omega arith
total-suc size most h [] (suc n) = omega arith
total-suc size most h (c ∷ cs) zero = omega (arith, h c)
total-suc size most h (c ∷ cs) (suc n) = omega (arith, total-suc size most h cs n)

total-one :
    (size : ℕ → ℕ) (most : ℕ)
    → ((c : ℕ) → size c ≤ most)
    → (t : Text) (n : ℕ) → total size (take (n + 1) t) ≤ total size (take n t) + most
total-one size most h t n = let e : n + 1 ≡ suc n = omega arith in rw e (total-suc size most h t n)

units_of_bound : (c : ℕ) → units_of c ≤ 2
unfolding units_of
units_of_bound c = ground arith

bytes_of_bound : (c : ℕ) → bytes_of c ≤ 4
unfolding bytes_of
bytes_of_bound c = ground arith

-- A single point fits.
point_fits : (t : Text) (p : ℕ) → fits t p p ≡ true
unfolding fits prefix_units prefix_bytes units bytes
point_fits t p =
    ground (arith, total-one units_of 2 units_of_bound t p, total-one bytes_of 4 bytes_of_bound t p)

find_end-bound :
    (test : ℕ → Bool) (t : Text) (start index p : ℕ)
    → find_end test t start index ≡ some p
    → p < index + length t
unfolding find_end
find_end-bound test [] start index p h = cc
find_end-bound test (c ∷ cs) start index p h =
    ground (arith, find_end-bound test cs (start + units_of c) (index + 1) p)

or_last-bound :
    (test : ℕ → Bool) (t : Text) → 0 < length t → or_last t (find_end test t 0 0) < length t
or_last-bound test t h = elim (Option-cases (find_end test t 0 0)) [
  | inl e ↦ subst (λ o. or_last t o < length t) (sym e) (omega arith)
  | inr (p, e) ↦
      subst (λ o. or_last t o < length t) (sym e) (omega (arith, find_end-bound test t 0 0 p e))
]

extend-bounds :
    (fuel : ℕ) (t : Text) (match_end right : ℕ)
    → right < length t
    → (right ≤ extend fuel t match_end right) × (extend fuel t match_end right < length t)
unfolding extend
extend-bounds zero t match_end right h = (omega arith, h)
extend-bounds (suc fuel) t match_end right h =
    ground (arith, extend-bounds fuel t match_end (right + 1))

match_window-bounds :
    (t : Text) (match_index literal_length : ℕ)
    → 0 < length t
    → let w = match_window t match_index literal_length in (w.left ≤ w.right) × (w.right < length t)
unfolding match_window
match_window-bounds t match_index literal_length h =
    extend-bounds (length t) t (match_index + literal_length) _
      (or_last-bound (ltb match_index) t h)

-- A window of points that fits.
abbrev pub Good : Text → Window → Type 0
Good t w = (fits t w.left w.right ≡ true) × (w.left ≤ w.right) × (w.right < length t)

chosen-Good :
    (t : Text) (b : Bool) (v w : Window)
    → (b ≡ true → Good t v)
    → Good t w
    → Good t (if b then v else w)
chosen-Good t true v w first second = first refl
chosen-Good t false v w first second = second

first_window-Good :
    (t : Text) (match_index literal_length : ℕ)
    → 0 < length t
    → Good t (first_window t match_index literal_length)
unfolding first_window center_window
first_window-Good t match_index literal_length h =
    let w : Window = match_window t match_index literal_length in
    let twice : ℕ = twice_center match_index literal_length in
    let p : ℕ = or_last t (find_end (λ x. leb twice (x * 2)) t 0 0) in
    chosen-Good t (fits t w.left w.right) w (center_window t twice)
      (λ e. (
        e,
        (match_window-bounds t match_index literal_length h).0,
        (match_window-bounds t match_index literal_length h).1,
      ))
      (point_fits t p, omega arith, or_last-bound (λ x. leb twice (x * 2)) t h)

-- A window holds another.
abbrev pub Within : Window → Window → Type 0
Within small large = (large.left ≤ small.left) × (small.right ≤ large.right)

-- The points outside of a window.
abbrev outside : Text → Window → ℕ
outside t w = w.left + (length t - suc w.right)

-- One of two windows is taken, where it is admitted.
taken :
    (a b shorter : Bool) (l r next : Window)
    → (if a && b
        then (if shorter then some l else some r)
        else if a
        then some l
        else if b
        then some r
        else none)
      ≡ some next
    → ((a ≡ true) × (next ≡ l)) ⊎ ((b ≡ true) × (next ≡ r))
taken true true true l r next e = inl (refl, cc)
taken true true false l r next e = inr (refl, cc)
taken true false shorter l r next e = inl (refl, cc)
taken false true shorter l r next e = inr (refl, cc)
taken false false shorter l r next e = cc

-- One more point on a side that has one and where that fits.
abbrev Grown : Text → Window → Window → Type 0
Grown t w next = Good t next × Within w next × (suc (outside t next) ≡ outside t w)

left-Grown :
    (t : Text) (w : Window)
    → Good t w
    → can_left t w ≡ true
    → Grown t w (record w { left = w.left - 1 })
left-Grown t w g e =
    ((ground arith, omega arith, omega arith), (omega arith, omega arith), ground arith)

right-Grown :
    (t : Text) (w : Window)
    → Good t w
    → can_right t w ≡ true
    → Grown t w (record w { right = w.right + 1 })
right-Grown t w g e =
    ((ground arith, omega arith, ground arith), (omega arith, omega arith), ground arith)

widen_once-Grown :
    (t : Text) (twice : ℕ) (w next : Window)
    → Good t w
    → widen_once t twice w ≡ some next
    → Grown t w next
unfolding widen_once
widen_once-Grown t twice w next g e =
    elim (taken (can_left t w) (can_right t w) (left_is_shorter t twice w)
      (record w { left = w.left - 1 }) (record w { right = w.right + 1 }) next e) [
        | inl (admitted, same) ↦ subst (Grown t w) (sym same) (left-Grown t w g admitted)
        | inr (admitted, same) ↦ subst (Grown t w) (sym same) (right-Grown t w g admitted)
      ]

-- Neither side of the window can grow.
abbrev pub Full : Text → Window → Type 0
Full t w = (can_left t w ≡ false) × (can_right t w ≡ false)

widen_once-Full : (t : Text) (twice : ℕ) (w : Window) → widen_once t twice w ≡ none → Full t w
unfolding widen_once
widen_once-Full t twice w e = ground arith

-- As many rounds as there are points outside of the window are enough.
widen-Good :
    (fuel : ℕ) (t : Text) (twice : ℕ) (w : Window)
    → Good t w
    → outside t w < fuel
    → Good t (widen fuel t twice w)
      × Within w (widen fuel t twice w)
      × Full t (widen fuel t twice w)
unfolding widen
widen-Good zero t twice w g h = absurd (omega arith)
widen-Good (suc fuel) t twice w g h =
    let P : Option Window → Type 0 = λ o.
      let final : Window = elim o [ none ↦ w | some next ↦ widen fuel t twice next ] in
      Good t final × Within w final × Full t final in
    elim (Option-cases (widen_once t twice w)) [
      | inl e ↦ subst P (sym e) (g, (omega arith, omega arith), widen_once-Full t twice w e)
      | inr (next, e) ↦
          let (good, within, less) = widen_once-Grown t twice w next g e in
          let (good', within', full) = widen-Good fuel t twice next good (omega (arith, less)) in
          subst P (sym e) (good', (omega arith, omega arith), full)
    ]

first_window-fits :
    (t : Text) (match_index literal_length : ℕ)
    → let m = match_window t match_index literal_length in
      fits t m.left m.right ≡ true → first_window t match_index literal_length ≡ m
unfolding first_window
first_window-fits t match_index literal_length e =
    ap
      (λ b.
        if b
        then match_window t match_index literal_length
        else center_window t (twice_center match_index literal_length))
      e

-- The window of a snippet fits, cannot grow, and holds the window of the match if that fits.
pub snippet_window-Good :
    (t : Text) (match_index literal_length : ℕ)
    → 0 < length t
    → let w = snippet_window t match_index literal_length in
      let m = match_window t match_index literal_length in
      Good t w × Full t w × (fits t m.left m.right ≡ true → Within m w)
unfolding snippet_window
snippet_window-Good t match_index literal_length h =
    let f : Window = first_window t match_index literal_length in
    let good = first_window-Good t match_index literal_length h in
    let (good', within, full) =
      widen-Good (length t) t (twice_center match_index literal_length) f good
        (omega (arith, good)) in
    (
      good',
      full,
      λ e.
          subst (λ v. Within v (widen (length t) t (twice_center match_index literal_length) f))
            (first_window-fits t match_index literal_length e) within,
    )
