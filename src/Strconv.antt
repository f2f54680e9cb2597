-- ===== src/Strconv.antt =====
-- `strconv.Atoi` and the decimal text of a number, from Go's library. An `int` has 64 bits.
pub mod RoundTrip
use tinkerbell_hegel.Prelude.{
  ℕ, zero, suc, ◌+◌, ◌-◌, ◌*◌, ◌/◌, ◌%◌, ◌^◌, Bool, true, false, ◌&&◌, List, [], ◌∷◌, Option, none,
  some, ◌==◌, ltb, leb, if◌then◌else◌,
}
use tinkerbell_hegel.Strings.{Str}

-- `negsuc n` is -(n + 1).
pub data ℤ : Type 0 where
  pos : ℕ → ℤ
  negsuc : ℕ → ℤ

abbrev pub is_digit : ℕ → Bool
is_digit c = leb b'0' c && leb c b'9'

-- the loop over the digits; it has no bound of its own, and the caller checks the range
unfoldable pub parse_digits : ℕ → Str → Option ℕ
parse_digits n [] = some n
parse_digits n (c ∷ s) = if is_digit c then parse_digits (n * 10 + (c - b'0')) s else none

unfoldable pub parse_uint : Str → Option ℕ
unfolding parse_digits
parse_uint [] = none
parse_uint (c ∷ s) = parse_digits 0 (c ∷ s)

abbrev negate : ℕ → ℤ
negate zero = pos 0
negate (suc n) = negsuc n

abbrev positive : Option ℕ → Option ℤ
positive none = none
positive (some n) = if ltb n (2 ^ 63) then some (pos n) else none

abbrev negative : Option ℕ → Option ℤ
negative none = none
negative (some n) = if leb n (2 ^ 63) then some (negate n) else none

-- `none` for an error, of syntax or of range
unfoldable pub atoi : Str → Option ℤ
unfolding parse_uint
atoi [] = none
atoi (c ∷ s) =
    if c == b'-'
    then negative (parse_uint s)
    else if c == b'+'
    then positive (parse_uint s)
    else positive (parse_uint (c ∷ s))

-- the digits of `n` in front of `acc`, on fuel
unfoldable pub format_digits : ℕ → ℕ → Str → Str
format_digits zero n acc = acc
format_digits (suc fuel) n acc =
    let more = format_digits fuel (n / 10) ((b'0' + n % 10) ∷ acc) in
    if ltb n 10 then (b'0' + n) ∷ acc else more

-- `strconv.Itoa` of a number that is not negative; `Strconv.RoundTrip` shows the fuel is enough
unfoldable pub itoa : ℕ → Str
unfolding format_digits
itoa n = format_digits (suc n) n []
