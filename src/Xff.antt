-- ===== src/Xff.antt =====
-- internal/xff/xff.go: the trusted proxies, and the middleware over the xff library.
mod Tests
pub mod Entries
pub mod Parsed
pub mod Lone
use tinkerbell_hegel.Prelude.{
  ℕ, zero, suc, ◌-◌, Bool, true, false, ◌||◌, ◌&&◌, List, [], ◌∷◌, ◌++◌, Option, none, some, ◌==◌,
  leb, if◌then◌else◌,
}
use tinkerbell_hegel.Strings.{Str, codes, str_eq, split}
use tinkerbell_hegel.Errors.{GoError, text, error_text, Result, ok, err, ◌>>=◌}
use tinkerbell_hegel.Cidr.{parse_cidr, parse_ip, to4}

-- the white space among the bytes of ASCII
abbrev pub is_space : ℕ → Bool
is_space c = c == b' ' || leb 9 c && leb c 13

-- one white space of Unicode, and no more, as the bytes of its encoding
abbrev pub is_white : Str → Bool
is_white (c ∷ []) = is_space c
is_white (c ∷ d ∷ []) = c == 0xC2 && (d == 0x85 || d == 0xA0)
is_white (c ∷ d ∷ e ∷ []) =
    (c == 0xE1 && (d == 0x9A && e == 0x80))
    || (c == 0xE2
        && (d == 0x80 && ((leb 0x80 e && leb e 0x8A) || (e == 0xA8 || (e == 0xA9 || e == 0xAF)))))
    || (c == 0xE2 && (d == 0x81 && e == 0x9F))
    || (c == 0xE3 && (d == 0x80 && e == 0x80))
is_white _ = false

-- how many bytes the white space in front of a text has, or 0
abbrev pub white_width : Str → ℕ
white_width [] = 0
white_width (c ∷ []) = if is_white (c ∷ []) then 1 else 0
white_width (c ∷ d ∷ []) = if is_white (c ∷ []) then 1 else if is_white (c ∷ d ∷ []) then 2 else 0
white_width (c ∷ d ∷ e ∷ s) =
    if is_white (c ∷ [])
    then 1
    else if is_white (c ∷ d ∷ [])
    then 2
    else if is_white (c ∷ d ∷ e ∷ [])
    then 3
    else 0

-- what is left of a text without a number of bytes and the white space behind them
unfoldable pub trim_from : ℕ → Str → Str
trim_from skipped [] = []
trim_from (suc skipped) (c ∷ s) = trim_from skipped s
trim_from zero (c ∷ s) =
    let width = white_width (c ∷ s) in
    let rest = trim_from (width - 1) s in if width == 0 then c ∷ s else rest

unfoldable pub trim_left : Str → Str
unfolding trim_from
trim_left s = trim_from 0 s

-- a byte in front of a text that has no white space at its end
abbrev pub onto_trimmed : ℕ → Str → Str
onto_trimmed c s = if is_white (c ∷ s) then [] else c ∷ s

unfoldable pub trim_right : Str → Str
trim_right [] = []
trim_right (c ∷ s) = onto_trimmed c (trim_right s)

-- `strings.TrimSpace`
unfoldable pub trim_space : Str → Str
unfolding trim_left trim_right
trim_space s = trim_right (trim_left s)

-- the suffix of a lone address, given its 16 bytes
abbrev pub suffix_of : Option (List ℕ) → Str
suffix_of (some bytes) = codes "/32"
suffix_of none = codes "/128"

-- a lone address, as a network
abbrev pub lone_entry : Str → Option (List ℕ) → Result (Option Str)
lone_entry cidr (some ip) = ok (some (cidr ++ suffix_of (to4 ip)))
lone_entry cidr none = err (text (codes "invalid cidr or ip: " ++ cidr))

-- the body of the loop of `Parse`: what is appended for a trimmed entry
unfoldable pub entry_of : Str → Result (Option Str)
unfolding parse_cidr parse_ip to4
entry_of cidr = if str_eq cidr [] then ok none else elim (parse_cidr cidr) [
  | some net ↦ ok (some cidr)
  | none ↦ lone_entry cidr (parse_ip cidr)
]

abbrev pub appended : List Str → Option Str → List Str
appended result none = result
appended result (some cidr) = result ++ cidr ∷ []

-- the loop, with the result so far
unfoldable pub parse_entries : List Str → List Str → Result (List Str)
unfolding trim_space entry_of
parse_entries [] result = ok result
parse_entries (entry ∷ entries) result = do
  added ← entry_of (trim_space entry)
  parse_entries entries (appended result added)

unfoldable pub parse : Str → Result (List Str)
unfolding parse_entries split
parse trusted_proxies = parse_entries (split trusted_proxies b',') []

-- The xff library: `New` with the allowed subnets, and what its `ServeHTTP` makes of a request
-- before it calls the next handler.
pub record XffLibrary (Request : Type 0) : Type 0 where
  pub new : List Str → Result (Request → Request)

module _ {Request : Type 0} (library : XffLibrary Request) where
  -- The middleware, as what the next handler is given: without proxies, the request itself.
  unfoldable pub middleware : List Str → Result (Request → Request)
  middleware [] = ok (λ r. r)
  middleware (p ∷ proxies) = elim (library.new (p ∷ proxies)) [
    | err e ↦ err (text (codes "create forward for handler: " ++ error_text e))
    | ok xffmw ↦ ok xffmw
  ]

  unfoldable pub middleware_from_unparsed : Str → Result (Request → Request)
  unfolding parse middleware
  middleware_from_unparsed proxies = do parsed ← parse proxies; middleware parsed
