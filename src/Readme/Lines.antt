-- ===== src/Readme/Lines.antt =====
-- The patterns that src/index.mjs matches a line with, as functions over its code points.
use qq_index.Prelude.{
  ℕ, zero, suc, Bool, true, false, ◌&&◌, ◌||◌, not, Option, none, some, [], ◌∷◌, leb, ◌==◌,
  if◌then◌else◌,
}
use qq_index.Readme.Text.{Text}

pub record Fence : Type 0 where
  pub character : ℕ
  pub size : ℕ

-- `/^ {0,3}/`: what follows at most `n` leading spaces.
skip_spaces : ℕ → Text → Text
skip_spaces zero t = t
skip_spaces (suc n) [] = []
skip_spaces (suc n) (c ∷ cs) = if c == 32 then skip_spaces n cs else c ∷ cs

-- The length of the leading run of `c`, and what follows it.
run_length : ℕ → Text → ℕ
run_length c [] = 0
run_length c (d ∷ ds) = if d == c then suc (run_length c ds) else 0

after_run : ℕ → Text → Text
after_run c [] = []
after_run c (d ∷ ds) = if d == c then after_run c ds else d ∷ ds

-- `/^.*$/`: no line terminator.
is_one_line : Text → Bool
is_one_line [] = true
is_one_line (c ∷ cs) = not (c == 10 || (c == 13 || (c == 0x2028 || c == 0x2029))) && is_one_line cs

-- `/^[\t ]*$/`
unfoldable pub is_blank_line : Text → Bool
is_blank_line [] = true
is_blank_line (c ∷ cs) = (c == 9 || c == 32) && is_blank_line cs

-- A run of three or more of `c`, with the rest of the line as `rest` wants it.
fence_of : (Text → Bool) → ℕ → Text → Option Fence
unfolding run_length after_run
fence_of rest c t =
    if leb 3 (run_length c t) && rest (after_run c t)
    then some (record { character = c; size = run_length c t })
    else none

abbrev or_else : Option Fence → Option Fence → Option Fence
or_else (some f) g = some f
or_else none g = g

-- `/^ {0,3}(`{3,}|~{3,})…/`
any_fence : (Text → Bool) → Text → Option Fence
unfolding skip_spaces fence_of
any_fence rest line =
    or_else (fence_of rest 96 (skip_spaces 3 line)) (fence_of rest 126 (skip_spaces 3 line))

unfoldable pub fence_delimiter : Text → Option Fence
unfolding any_fence is_one_line
fence_delimiter line = any_fence is_one_line line

unfoldable pub closes_fence : Text → Fence → Bool
unfolding any_fence is_blank_line
closes_fence line fence = elim (any_fence is_blank_line line) [
  | none ↦ false
  | some f ↦ f.character == fence.character && leb fence.size f.size
]

ends_heading : Text → Bool
ends_heading [] = true
ends_heading (c ∷ cs) = c == 9 || c == 32

-- `/^ {0,3}#{1,6}(?:[\t ]+|$)/`
unfoldable pub is_atx_heading : Text → Bool
unfolding skip_spaces run_length after_run ends_heading
is_atx_heading line =
    let t = skip_spaces 3 line in
    leb 1 (run_length 35 t) && (leb (run_length 35 t) 6 && ends_heading (after_run 35 t))

-- `rawLine.endsWith("\r") ? rawLine.slice(0, -1) : rawLine`
unfoldable pub strip_return : Text → Text
strip_return [] = []
strip_return (c ∷ []) = if c == 13 then [] else c ∷ []
strip_return (c ∷ d ∷ cs) = c ∷ strip_return (d ∷ cs)
