-- ===== src/Dsh/Snippets.antt =====
-- `normalizeWhitespace`, `centeredSnippet` and `prefixClipWithEllipsis` of src/session-index-dsh-source.mjs. A text is the
-- list of what `for...of` gives: its code points, a lone surrogate being one. A point is named by its index.
pub mod Windows
pub mod Matches
pub mod Bounds
pub mod Spaces
pub mod Titles
mod Tests
use qq_index.Prelude.{
  ℕ, zero, suc, ◌+◌, ◌-◌, ◌*◌, Bool, true, false, ◌&&◌, ◌||◌, not, Option, none, some, List, [],
  ◌∷◌, ◌++◌, ltb, leb, if◌then◌else◌, length, take, drop,
}
use qq_index.Readme.Text.{Text, is_space, trim_end}

abbrev pub max_snippet_code_units : ℕ
max_snippet_code_units = 320

abbrev pub max_snippet_bytes : ℕ
max_snippet_bytes = 1280

-- The length of one point, and what `Buffer.byteLength` says of it.
unfoldable pub units_of : ℕ → ℕ
units_of c = if ltb c 0x10000 then 1 else 2

unfoldable pub bytes_of : ℕ → ℕ
bytes_of c = if ltb c 0x80 then 1 else if ltb c 0x800 then 2 else if ltb c 0x10000 then 3 else 4

unfoldable pub total : (ℕ → ℕ) → Text → ℕ
total size [] = 0
total size (c ∷ cs) = size c + total size cs

-- `text.length` and `Buffer.byteLength(text, "utf8")`
unfoldable pub units : Text → ℕ
unfolding total
units t = total units_of t

unfoldable pub bytes : Text → ℕ
unfolding total
bytes t = total bytes_of t

-- `prefixUnits[index]`, which is also where a point starts, and `prefixBytes[index]`.
unfoldable pub prefix_units : Text → ℕ → ℕ
prefix_units t index = units (take index t)

unfoldable pub prefix_bytes : Text → ℕ → ℕ
prefix_bytes t index = bytes (take index t)

-- `…`
abbrev pub ellipsis : ℕ
ellipsis = 0x2026

abbrev pub last_index : Text → ℕ
last_index t = length t - 1

-- `points.findIndex`, for a test of the end of a point; the last point if there is none.
unfoldable pub find_end : (ℕ → Bool) → Text → (start index : ℕ) → Option ℕ
unfolding units_of
find_end test [] start index = none
find_end test (c ∷ cs) start index =
    let rest = find_end test cs (start + units_of c) (index + 1) in
    if test (start + units_of c) then some index else rest

abbrev pub or_last : Text → Option ℕ → ℕ
or_last t none = last_index t
or_last t (some index) = index

-- The Boolean `fits(from, to)`.
unfoldable pub fits : Text → (first last : ℕ) → Bool
unfolding prefix_units prefix_bytes
fits t first last =
    let left_edge = if ltb 0 first then 1 else 0 in
    let right_edge = if ltb last (last_index t) then 1 else 0 in
    leb (prefix_units t (last + 1) - prefix_units t first + (left_edge + right_edge))
      max_snippet_code_units
    && leb (prefix_bytes t (last + 1) - prefix_bytes t first + (left_edge * 3 + right_edge * 3))
        max_snippet_bytes

-- The loop that takes in the points of the match; the fuel is a bound on the rounds.
unfoldable pub extend : ℕ → Text → (match_end right : ℕ) → ℕ
unfolding prefix_units
extend zero t match_end right = right
extend (suc fuel) t match_end right =
    let further = extend fuel t match_end (right + 1) in
    if ltb (right + 1) (length t) && ltb (prefix_units t (right + 1)) match_end
    then further
    else right

pub record Window : Type 0 where
  pub left : ℕ
  pub right : ℕ

-- The points of the match.
unfoldable pub match_window : Text → (match_index literal_length : ℕ) → Window
unfolding find_end extend
match_window t match_index literal_length =
    let left = or_last t (find_end (ltb match_index) t 0 0) in
    record { left = left; right = extend (length t) t (match_index + literal_length) left }

-- `center` is half of `twice_center`; the tests that read it are doubled.
abbrev pub twice_center : (match_index literal_length : ℕ) → ℕ
twice_center match_index literal_length = match_index * 2 + literal_length

unfoldable pub center_window : Text → (twice : ℕ) → Window
unfolding find_end
center_window t twice =
    let point = or_last t (find_end (λ e. leb twice (e * 2)) t 0 0) in
    record { left = point; right = point }

unfoldable pub first_window : Text → (match_index literal_length : ℕ) → Window
unfolding match_window center_window fits
first_window t match_index literal_length =
    let w = match_window t match_index literal_length in
    if fits t w.left w.right then w else center_window t (twice_center match_index literal_length)

abbrev pub can_left : Text → Window → Bool
can_left t w = ltb 0 w.left && fits t (w.left - 1) w.right

abbrev pub can_right : Text → Window → Bool
can_right t w = ltb w.right (last_index t) && fits t w.left (w.right + 1)

-- `leftContext <= rightContext`
abbrev pub left_is_shorter : Text → (twice : ℕ) → Window → Bool
left_is_shorter t twice w = leb twice (prefix_units t w.left + prefix_units t (w.right + 1))

-- One round of the loop that widens the window; none where it breaks.
unfoldable pub widen_once : Text → (twice : ℕ) → Window → Option Window
unfolding fits prefix_units
widen_once t twice w =
    if can_left t w && can_right t w
    then (if left_is_shorter t twice w
        then some (record w { left = w.left - 1 })
        else some (record w { right = w.right + 1 }))
    else if can_left t w
    then some (record w { left = w.left - 1 })
    else if can_right t w
    then some (record w { right = w.right + 1 })
    else none

unfoldable pub widen : ℕ → Text → (twice : ℕ) → Window → Window
unfolding widen_once
widen zero t twice w = w
widen (suc fuel) t twice w = elim (widen_once t twice w) [
  | none ↦ w
  | some next ↦ widen fuel t twice next
]

-- The text that is returned for a window.
unfoldable pub clip : Text → Window → Text
clip t w =
    (if ltb 0 w.left then ellipsis ∷ [] else [])
    ++ (take (w.right + 1 - w.left) (drop w.left t)
        ++ (if ltb w.right (last_index t) then ellipsis ∷ [] else []))

unfoldable pub snippet_window : Text → (match_index literal_length : ℕ) → Window
unfolding first_window widen
snippet_window t match_index literal_length =
    widen (length t) t (twice_center match_index literal_length)
      (first_window t match_index literal_length)

unfoldable pub is_short : Text → Bool
unfolding units bytes
is_short t = leb (units t) max_snippet_code_units && leb (bytes t) max_snippet_bytes

unfoldable pub centered_snippet : Text → (match_index literal_length : ℕ) → Text
unfolding is_short clip snippet_window
centered_snippet t match_index literal_length =
    if is_short t then t else clip t (snippet_window t match_index literal_length)

-- The loop of `prefixClipWithEllipsis`, from the sizes of what it has taken.
unfoldable pub prefix_loop : (maximum_units maximum_bytes used_units used_bytes : ℕ) → Text → Text
unfolding units_of bytes_of
prefix_loop maximum_units maximum_bytes used_units used_bytes [] = []
prefix_loop maximum_units maximum_bytes used_units used_bytes (c ∷ cs) =
    let rest =
      prefix_loop maximum_units maximum_bytes (used_units + units_of c) (used_bytes + bytes_of c)
        cs in
    if ltb maximum_units (used_units + units_of c + 1)
      || ltb maximum_bytes (used_bytes + bytes_of c + 3)
    then []
    else c ∷ rest

unfoldable pub prefix_clip_with_ellipsis : Text → (maximum_code_units maximum_bytes : ℕ) → Text
unfolding prefix_loop units bytes trim_end
prefix_clip_with_ellipsis value maximum_code_units maximum_bytes =
    if leb (units value) maximum_code_units && leb (bytes value) maximum_bytes
    then value
    else trim_end (prefix_loop maximum_code_units maximum_bytes 0 0 value) ++ (ellipsis ∷ [])

-- `value.replace(/\s+/gu, " ")`; `after_space` says that the point before was white space.
unfoldable pub collapse_spaces : (after_space : Bool) → Text → Text
unfolding is_space
collapse_spaces after_space [] = []
collapse_spaces after_space (c ∷ cs) =
    let rest = collapse_spaces (is_space c) cs in
    if is_space c then (if after_space then rest else 32 ∷ rest) else c ∷ rest

unfoldable pub trim_start : Text → Text
unfolding is_space
trim_start [] = []
trim_start (c ∷ cs) = let rest = trim_start cs in if is_space c then rest else c ∷ cs

unfoldable pub normalize_whitespace : Text → Text
unfolding collapse_spaces trim_start trim_end
normalize_whitespace value = trim_end (trim_start (collapse_spaces false value))
