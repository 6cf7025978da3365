-- ===== src/Text.antt =====
-- Go strings as lists of bytes, and what the sources use of the package strings: comparison,
-- HasPrefix, CutPrefix, Cut, Split, Join, TrimSpace, Fields and ToLower. White space and letter
-- case are those of ASCII. The laws are in the child modules.
pub mod Equality
pub mod Parts
pub mod Trim
pub mod Sort
use Prim.Native.Char.{code}
use Prim.Native.String.{String}
use ozone_oidc_proxy.Base.{
  ℕ, ◌+◌, Bool, true, false, not, ◌&&◌, ◌||◌, List, [], ◌∷◌, ◌++◌, map, Option, none, some, ltb,
  leb, ◌==◌, if◌then◌else◌, is_nil,
}

abbrev pub Text : Type 0
Text = List ℕ

-- The bytes of an ASCII literal.
abbrev pub codes : String → Text
codes String.[] = []
codes (String.◌∷◌ c s) = code c ∷ codes s

-- `s == t`
unfoldable pub text_eq : Text → Text → Bool
text_eq [] [] = true
text_eq [] (b ∷ t) = false
text_eq (a ∷ s) [] = false
text_eq (a ∷ s) (b ∷ t) = a == b && text_eq s t

-- `s < t`
unfoldable pub text_lt : Text → Text → Bool
text_lt [] [] = false
text_lt [] (b ∷ t) = true
text_lt (a ∷ s) [] = false
text_lt (a ∷ s) (b ∷ t) = ltb a b || (a == b && text_lt s t)

-- `strings.CutPrefix`: `none` where the prefix is missing.
unfoldable pub cut_prefix : Text → Text → Option Text
cut_prefix s [] = some s
cut_prefix [] (b ∷ t) = none
cut_prefix (a ∷ s) (b ∷ t) = let rest = cut_prefix s t in if a == b then rest else none

unfoldable pub has_prefix : Text → Text → Bool
has_prefix s [] = true
has_prefix [] (b ∷ t) = false
has_prefix (a ∷ s) (b ∷ t) = a == b && has_prefix s t

-- `strings.Cut` at one byte: the text before it, the text behind it, and whether it was found.
unfoldable pub cut : ℕ → Text → Text × Text × Bool
cut sep [] = ([], [], false)
cut sep (c ∷ s) =
    let (before, after, found) = cut sep s in
    if c == sep then ([], s, true) else (c ∷ before, after, found)

abbrev pub extend : ℕ → List Text → List Text
extend c [] = (c ∷ []) ∷ []
extend c (p ∷ ps) = (c ∷ p) ∷ ps

-- The parts between the bytes that pass the test; there is always at least one.
unfoldable pub split_by : (ℕ → Bool) → Text → List Text
split_by test [] = [] ∷ []
split_by test (c ∷ s) = let rest = split_by test s in if test c then [] ∷ rest else extend c rest

-- `strings.Split` at one byte
abbrev pub split : ℕ → Text → List Text
split sep = split_by (λ c. c == sep)

-- `strings.Join` with one byte
unfoldable pub join : ℕ → List Text → Text
join sep [] = []
join sep (p ∷ []) = p
join sep (p ∷ q ∷ ps) = p ++ (sep ∷ join sep (q ∷ ps))

abbrev pub is_space : ℕ → Bool
is_space c = c == 32 || (leb 9 c && leb c 13)

unfoldable pub trim_left : Text → Text
trim_left [] = []
trim_left (c ∷ s) = let rest = trim_left s in if is_space c then rest else c ∷ s

unfoldable pub trim_right : Text → Text
trim_right [] = []
trim_right (c ∷ s) = let rest = trim_right s in if is_nil rest && is_space c then [] else c ∷ rest

unfoldable pub trim_space : Text → Text
unfolding trim_left trim_right
trim_space s = trim_right (trim_left s)

unfoldable pub drop_empty : List Text → List Text
drop_empty [] = []
drop_empty (p ∷ ps) = let rest = drop_empty ps in if is_nil p then rest else p ∷ rest

-- `strings.Fields`
unfoldable pub fields : Text → List Text
unfolding split_by drop_empty
fields s = drop_empty (split_by is_space s)

abbrev pub lower : ℕ → ℕ
lower c = if leb 65 c && leb c 90 then c + 32 else c

-- `strings.ToLower`
unfoldable pub to_lower : Text → Text
to_lower = map lower
