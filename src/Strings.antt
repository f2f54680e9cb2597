-- ===== src/Strings.antt =====
-- Go's strings as lists of bytes, with the operations of Go's `strings` package that the program
-- calls. Every separator that it splits or joins at is a single byte.
pub mod Members
pub mod Order
pub mod Split
pub mod Suffix
use Prim.Native.Char.{code}
use Prim.Native.String.{String}
use mathlib.Core.List.{reverse}
use tinkerbell_hegel.Prelude.{
  ℕ, Bool, true, false, ◌&&◌, ◌||◌, not, List, [], ◌∷◌, ◌++◌, ltb, leb, ◌==◌, if◌then◌else◌,
}

abbrev pub Str : Type 0
Str = List ℕ

-- The code points of a literal: its bytes where the text is ASCII, as every literal here is.
abbrev pub codes : String → Str
codes String.[] = []
codes (String.◌∷◌ c s) = code c ∷ codes s

-- `s == t`
unfoldable pub str_eq : Str → Str → Bool
str_eq [] [] = true
str_eq [] (d ∷ t) = false
str_eq (c ∷ s) [] = false
str_eq (c ∷ s) (d ∷ t) = c == d && str_eq s t

-- `s < t`, Go's lexical order on bytes
unfoldable pub str_less : Str → Str → Bool
str_less [] [] = false
str_less [] (d ∷ t) = true
str_less (c ∷ s) [] = false
str_less (c ∷ s) (d ∷ t) = ltb c d || (c == d && str_less s t)

-- `strings.HasPrefix(s, string(b))`
unfoldable pub has_prefix : Str → ℕ → Bool
has_prefix [] b = false
has_prefix (c ∷ s) b = c == b

-- `strings.HasSuffix(s, string(b))`
unfoldable pub has_suffix : Str → ℕ → Bool
has_suffix [] b = false
has_suffix (c ∷ []) b = c == b
has_suffix (c ∷ d ∷ s) b = has_suffix (d ∷ s) b

abbrev drop_last : Str → Str
drop_last [] = []
drop_last (c ∷ []) = []
drop_last (c ∷ d ∷ s) = c ∷ drop_last (d ∷ s)

-- `strings.TrimSuffix(s, string(b))`
unfoldable pub trim_suffix : Str → ℕ → Str
unfolding has_suffix
trim_suffix s b = if has_suffix s b then drop_last s else s

-- a byte in front of the first part
abbrev pub onto_head : ℕ → List Str → List Str
onto_head c [] = (c ∷ []) ∷ []
onto_head c (p ∷ ps) = (c ∷ p) ∷ ps

-- `strings.Split(s, string(sep))`
unfoldable pub split : Str → ℕ → List Str
split [] sep = [] ∷ []
split (c ∷ s) sep = let rest = split s sep in if c == sep then [] ∷ rest else onto_head c rest

-- `strings.Join(parts, string(sep))`
unfoldable pub join : List Str → ℕ → Str
join [] sep = []
join (p ∷ []) sep = p
join (p ∷ q ∷ ps) sep = p ++ sep ∷ join (q ∷ ps) sep

-- whether a byte occurs: `strings.IndexByte(s, b) >= 0`
unfoldable pub has_byte : Str → ℕ → Bool
has_byte [] b = false
has_byte (c ∷ s) b = c == b || has_byte s b
