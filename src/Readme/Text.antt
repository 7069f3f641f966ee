-- ===== src/Readme/Text.antt =====
-- Texts as lists of code points, with the operations of the language's strings that the program uses.
use Prim.Native.Char.{code}
use qq_index.Prelude.{
  ℕ, ◌≤◌, Bool, true, ◌&&◌, ◌||◌, String, List, [], ◌∷◌, leb, ◌==◌, if◌then◌else◌, length, arith,
}

abbrev pub Text : Type 0
Text = List ℕ

-- The code points of a literal.
abbrev pub codes : String → Text
codes String.[] = []
codes (String.◌∷◌ c s) = code c ∷ codes s

-- What `trim` takes for white space.
unfoldable pub is_space : ℕ → Bool
is_space c =
    (leb 9 c && leb c 13)
    || (c == 32
        || (c == 160
            || (c == 0x1680
                || ((leb 0x2000 c && leb c 0x200a)
                    || (c == 0x2028
                        || (c == 0x2029
                            || (c == 0x202f || (c == 0x205f || (c == 0x3000 || c == 0xfeff)))))))))

abbrev pub keep_start : ℕ → Text → Text
keep_start c [] = if is_space c then [] else c ∷ []
keep_start c (d ∷ ds) = c ∷ d ∷ ds

-- `trimEnd`
unfoldable pub trim_end : Text → Text
unfolding is_space
trim_end [] = []
trim_end (c ∷ cs) = keep_start c (trim_end cs)

-- Whether `trim() === ""`.
unfoldable pub is_blank : Text → Bool
unfolding is_space
is_blank [] = true
is_blank (c ∷ cs) = is_space c && is_blank cs

abbrev pub cons_first : ℕ → List Text → List Text
cons_first c [] = (c ∷ []) ∷ []
cons_first c (l ∷ ls) = (c ∷ l) ∷ ls

-- `split("\n")`
unfoldable pub split_lines : Text → List Text
split_lines [] = [] ∷ []
split_lines (c ∷ cs) = if c == 10 then [] ∷ split_lines cs else cons_first c (split_lines cs)

pub length-trim_end : (t : Text) → length (trim_end t) ≤ length t
unfolding trim_end
length-trim_end [] = omega arith
length-trim_end (c ∷ cs) = ground (arith, length-trim_end cs)
