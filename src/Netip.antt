-- ===== src/Netip.antt =====
-- `netip.ParseAddr` of Go's library. A failure is `none`: the program does not look at its text.
pub mod Chars
pub mod Bytes
pub mod Rounds
pub mod Sizes
use tinkerbell_hegel.Prelude.{
  ℕ, zero, suc, ◌+◌, ◌-◌, ◌*◌, ◌/◌, ◌%◌, Bool, true, false, ◌&&◌, ◌||◌, not, List, [], ◌∷◌, ◌++◌,
  Option, none, some, ◌==◌, ltb, leb, length, take, drop, if◌then◌else◌, ◌≡◌, refl,
}
use tinkerbell_hegel.Strings.{Str, has_byte}
use tinkerbell_hegel.Strconv.{is_digit}
use tinkerbell_hegel.Net.{index_byte}
use tinkerbell_hegel.Options.{◌>>=◌, ◌>>◌, guard}

-- An address without a zone, by its 4 or its 16 bytes.
pub data Addr : Type 0 where
  v4 : List ℕ → Addr
  v6 : List ℕ → Addr

abbrev pub bit_len : Addr → ℕ
bit_len (v4 bytes) = 32
bit_len (v6 bytes) = 128

abbrev pub is_nil : Str → Bool
is_nil [] = true
is_nil (c ∷ s) = false

-- the variables of `parseIPv4`: the fields that are complete, the value of the next one and the number
-- of its digits
pub record Quad : Type 0 where
  pub fields : List ℕ
  pub val : ℕ
  pub dig_len : ℕ

-- A digit: no field has a leading zero, or is above 255.
abbrev pub quad_digit : Quad → ℕ → Option Quad
quad_digit q d =
    if q.dig_len == 1 && q.val == 0
    then none
    else if ltb 255 (q.val * 10 + d)
    then none
    else some (record q { val = q.val * 10 + d; dig_len = q.dig_len + 1 })

-- A dot: not at the start, at the end, behind a dot, or behind the last field.
abbrev pub quad_dot : Quad → Bool → Option Quad
quad_dot q at_end =
    if q.dig_len == 0 || at_end
    then none
    else if length q.fields == 3
    then none
    else some (record { fields = q.fields ++ q.val ∷ []; val = 0; dig_len = 0 })

abbrev pub quad_byte : Quad → ℕ → Bool → Option Quad
quad_byte q c at_end =
    if is_digit c then quad_digit q (c - b'0') else if c == b'.' then quad_dot q at_end else none

-- the loop of `parseIPv4` and what follows it
unfoldable pub v4_fields : Str → Quad → Option (List ℕ)
v4_fields [] q = if length q.fields == 3 then some (q.fields ++ q.val ∷ []) else none
v4_fields (c ∷ s) q = do q' ← quad_byte q c (is_nil s); v4_fields s q'

unfoldable pub parse_v4 : Str → Option (List ℕ)
unfolding v4_fields
parse_v4 s = v4_fields s (record { fields = []; val = 0; dig_len = 0 })

unfoldable pub hex_value : ℕ → Option ℕ
hex_value c =
    if is_digit c
    then some (c - b'0')
    else if leb b'a' c && leb c b'f'
    then some (c - b'a' + 10)
    else if leb b'A' c && leb c b'F'
    then some (c - b'A' + 10)
    else none

-- the loop over the digits of a field: their number, the value, and the text behind them
unfoldable pub hex_digits : Str → ℕ → ℕ → Option (ℕ × ℕ × Str)
unfolding hex_value
hex_digits [] off acc = some (off, acc, [])
hex_digits (c ∷ s) off acc = elim (hex_value c) [
  | none ↦ some (off, acc, c ∷ s)
  | some d ↦ if ltb 3 off then none else hex_digits s (off + 1) (acc * 16 + d)
]

abbrev pub is_some {ℓ} : {A : Type ℓ} → Option A → Bool
is_some none = false
is_some (some a) = true

-- the text left, the bytes so far, and the number of bytes before the `::`
pub record Fields : Type 0 where
  pub rest : Str
  pub ip : List ℕ
  pub ellipsis : Option ℕ

-- how a round of the loop over the fields ends: by `break`, or with what the next round has
pub data Round : Type 0 where
  stop : Fields → Round
  go_on : Fields → Round

abbrev pub fields_of : Str → List ℕ → Option ℕ → Fields
fields_of rest ip ellipsis = record { rest = rest; ip = ip; ellipsis = ellipsis }

-- a field that a dot follows: the text is the address's last 4 bytes
unfoldable pub embedded_v4 : Fields → Option Round
unfolding parse_v4
embedded_v4 f = do
  guard (is_some f.ellipsis || length f.ip == 12)
  guard (leb (length f.ip + 4) 16)
  bytes ← parse_v4 f.rest
  some (stop (fields_of [] (f.ip ++ bytes) f.ellipsis))

-- behind a `::`
abbrev pub double_colon : Str → List ℕ → Option ℕ → Option Round
double_colon s ip (some e) = none
double_colon [] ip none = some (stop (fields_of [] ip (some (length ip))))
double_colon (c ∷ s) ip none = some (go_on (fields_of (c ∷ s) ip (some (length ip))))

-- behind a field, its 2 bytes saved
abbrev pub behind : Str → List ℕ → Option ℕ → Option Round
behind [] ip ellipsis = some (stop (fields_of [] ip ellipsis))
behind (c ∷ []) ip ellipsis = none
behind (c ∷ d ∷ s) ip ellipsis =
    if c == b':'
    then if d == b':'
      then double_colon s ip ellipsis
      else some (go_on (fields_of (d ∷ s) ip ellipsis))
    else none

abbrev pub starts_with_dot : Str → Bool
starts_with_dot [] = false
starts_with_dot (c ∷ s) = c == b'.'

-- behind the digits of a field
abbrev pub field_end : Fields → ℕ → Str → Option Round
unfolding embedded_v4
field_end f acc rest =
    if starts_with_dot rest
    then embedded_v4 f
    else behind rest (f.ip ++ acc / 256 ∷ acc % 256 ∷ []) f.ellipsis

-- a round of the loop
unfoldable pub v6_round : Fields → Option Round
unfolding hex_digits field_end
v6_round f = do
  (off, acc, rest) ← hex_digits f.rest 0 0
  guard (not (off == 0))
  field_end f acc rest

-- the loop `for i < 16`, by the rounds that are left
unfoldable pub v6_fields : ℕ → Fields → Option Fields
unfolding v6_round
v6_fields zero f = some f
v6_fields (suc left) f = elim (v6_round f) [
  | none ↦ none
  | some (stop g) ↦ some g
  | some (go_on g) ↦ v6_fields left g
]

unfoldable pub zeros : ℕ → List ℕ
zeros zero = []
zeros (suc n) = 0 ∷ zeros n

-- behind the loop: the ellipsis is spread, and stands for at least one field
unfoldable pub expand : Fields → Option (List ℕ)
unfolding zeros
expand f = if not (is_nil f.rest) then none else elim f.ellipsis [
  | none ↦ if ltb (length f.ip) 16 then none else some f.ip
  | some e ↦
      if ltb (length f.ip) 16
      then some (take e f.ip ++ (zeros (16 - length f.ip) ++ drop e f.ip))
      else none
]

-- behind a `::` at the start; nothing behind it is all zeros
abbrev pub leading_ellipsis : Str → Option Fields
leading_ellipsis [] = some (fields_of [] [] (some 0))
leading_ellipsis (c ∷ s) = v6_fields 8 (fields_of (c ∷ s) [] (some 0))

abbrev pub begin : Str → Option Fields
begin (c ∷ d ∷ s) =
    if c == b':' && d == b':'
    then leading_ellipsis s
    else v6_fields 8 (fields_of (c ∷ d ∷ s) [] none)
begin s = v6_fields 8 (fields_of s [] none)

-- An address with a zone, which a `%` begins, is refused by both callers.
unfoldable pub parse_v6 : Str → Option (List ℕ)
unfolding v6_fields expand
parse_v6 s = if has_byte s b'%' then none else (do f ← begin s; expand f)

-- which parser the first of `.`, `:` and `%` chooses
unfoldable pub parse_by : Str → Str → Option Addr
unfolding parse_v4 parse_v6
parse_by s [] = none
parse_by s (c ∷ t) =
    if c == b'.'
    then (do bytes ← parse_v4 s; some (v4 bytes))
    else if c == b':'
    then (do bytes ← parse_v6 s; some (v6 bytes))
    else if c == b'%'
    then none
    else parse_by s t

-- `netip.ParseAddr`
unfoldable pub parse_addr : Str → Option Addr
unfolding parse_by
parse_addr s = parse_by s s
