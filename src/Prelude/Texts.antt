-- ===== src/Prelude/Texts.antt =====
-- What the program uses of the packages strings and unicode, on valid UTF-8.
use Prim.Native.Nat.{ℕ, ◌+◌}
use Prim.Native.Char.{code}
use Prim.Native.String.{String}
use mathlib.Core.Bool.{Bool, ◌&&◌, ◌||◌}
use mathlib.Core.Path.{◌≡◌, refl}
use mathlib.Core.List.{List, [], ◌∷◌}
use text.Mathlib.Text.{◌==◌}
use rysh_cli_shared.Prelude.Tests.{leb, eqb, if◌then◌else◌}
use rysh_cli_shared.Prelude.Words.{◌<>◌}

abbrev pub between : ℕ → ℕ → ℕ → Bool
between lo hi c = leb lo c && leb c hi

-- unicode.IsSpace
abbrev pub is_space : ℕ → Bool
is_space c =
    between 9 13 c
    || eqb c 32
    || eqb c 0x85
    || eqb c 0xa0
    || eqb c 0x1680
    || between 0x2000 0x200a c
    || eqb c 0x2028
    || eqb c 0x2029
    || eqb c 0x202f
    || eqb c 0x205f
    || eqb c 0x3000

-- strings.TrimLeftFunc and strings.TrimRightFunc
unfoldable pub trim_left : (ℕ → Bool) → String → String
trim_left p String.[] = ""
trim_left p (String.◌∷◌ c s) =
    let rest = trim_left p s in if p (code c) then rest else String.◌∷◌ c s

unfoldable pub trim_right : (ℕ → Bool) → String → String
trim_right p String.[] = ""
trim_right p (String.◌∷◌ c s) =
    let rest = trim_right p s in if rest == "" && p (code c) then "" else String.◌∷◌ c rest

-- strings.TrimSpace
unfoldable pub trim_space : String → String
trim_space s = trim_right is_space (trim_left is_space s)

-- The text before the first space.
unfoldable pub until_space : String → String
until_space String.[] = ""
until_space (String.◌∷◌ c s) =
    let rest = String.◌∷◌ c (until_space s) in if is_space (code c) then "" else rest

-- strings.Fields(s)[0], or "" where there is no field
unfoldable pub first_field : String → String
first_field s = until_space (trim_left is_space s)

-- The test and the rest of strings.HasPrefix and strings.TrimPrefix: the rest in a list of one, or no
-- rest.
unfoldable pub strip_prefix : String → String → List String
strip_prefix String.[] s = s ∷ []
strip_prefix (String.◌∷◌ c p) String.[] = []
strip_prefix (String.◌∷◌ c p) (String.◌∷◌ d s) =
    let rest = strip_prefix p s in if eqb (code c) (code d) then rest else []

-- strings.Split, at a character
unfoldable pub prepend_first : String → List String → List String
prepend_first s [] = s ∷ []
prepend_first s (t ∷ ts) = (s <> t) ∷ ts

unfoldable pub split_at : ℕ → String → List String
split_at b String.[] = "" ∷ []
split_at b (String.◌∷◌ c s) =
    let rest = split_at b s in
    if eqb (code c) b then "" ∷ rest else prepend_first (String.◌∷◌ c "") rest

-- strings.Join
unfoldable pub join_texts : String → List String → String
join_texts sep [] = ""
join_texts sep (s ∷ []) = s
join_texts sep (s ∷ t ∷ ts) = s <> (sep <> join_texts sep (t ∷ ts))

-- strings.Count, of a character
unfoldable pub count_char : ℕ → String → ℕ
count_char b String.[] = 0
count_char b (String.◌∷◌ c s) = (if eqb (code c) b then 1 else 0) + count_char b s

trim_space_example : trim_space " a b\n" ≡ "a b"
unfolding trim_space trim_left trim_right
trim_space_example = refl

first_field_example : first_field "  git status" ≡ "git"
unfolding first_field trim_left until_space
first_field_example = refl

split_at_example : split_at 10 "a\nbc\n" ≡ "a" ∷ "bc" ∷ "" ∷ []
unfolding split_at prepend_first
split_at_example = refl
