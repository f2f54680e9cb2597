-- ===== src/Netip/Chars.antt =====
-- The bytes of a text that parses as an address or as a network.
use tinkerbell_hegel.Prelude.{
  ℕ, zero, suc, ◌+◌, ◌*◌, Bool, true, ◌&&◌, ◌||◌, not, List, [], ◌∷◌, ◌≡◌, inl, inr, refl, arith,
  Option, none, some, ◌==◌, all, Bool-cases, Option-cases,
}
use tinkerbell_hegel.Strings.{Str, has_byte}
use tinkerbell_hegel.Options.{>>=-eq-some, guard-eq-some}
use tinkerbell_hegel.Netip.{
  Addr, v4, v6, is_nil, Quad, quad_byte, v4_fields, parse_v4, hex_value, hex_digits, is_some,
  Fields, Round, stop, go_on, embedded_v4, double_colon, behind, starts_with_dot, field_end,
  v6_round, v6_fields, expand, leading_ellipsis, begin, parse_v6, parse_by, parse_addr,
}

-- a hexadecimal digit, a dot or a colon
abbrev pub is_addr_byte : ℕ → Bool
is_addr_byte c = is_some (hex_value c) || c == b'.' || c == b':'

abbrev pub IsAddrText : Str → Type 0
IsAddrText s = all is_addr_byte s ≡ true

quad_byte-is_addr_byte :
    (q : Quad) (c : ℕ) (at_end : Bool) {q' : Quad}
    → quad_byte q c at_end ≡ some q'
    → is_addr_byte c ≡ true
unfolding hex_value
quad_byte-is_addr_byte q c at_end h = ground arith

v4_fields-IsAddrText :
    (s : Str) (q : Quad) {bytes : List ℕ} → v4_fields s q ≡ some bytes → IsAddrText s
unfolding v4_fields
v4_fields-IsAddrText [] q h = refl
v4_fields-IsAddrText (c ∷ s) q h =
    let (q', e, k) = >>=-eq-some (quad_byte q c (is_nil s)) (v4_fields s) h in
    rw (quad_byte-is_addr_byte q c (is_nil s) e) (v4_fields-IsAddrText s q' k)

parse_v4-IsAddrText : (s : Str) {bytes : List ℕ} → parse_v4 s ≡ some bytes → IsAddrText s
unfolding parse_v4
parse_v4-IsAddrText s h = v4_fields-IsAddrText s _ h

hex_digits-IsAddrText :
    (s : Str) (off acc n value : ℕ) (rest : Str)
    → hex_digits s off acc ≡ some (n, value, rest)
    → IsAddrText rest
    → IsAddrText s
unfolding hex_digits
hex_digits-IsAddrText [] off acc n value rest h r = refl
hex_digits-IsAddrText (c ∷ s) off acc n value rest h r = elim (Option-cases (hex_value c)) [
  | inl other ↦ ground (arith, other)
  | inr (d, e) ↦ ground (arith, e, hex_digits-IsAddrText s (off + 1) (acc * 16 + d) n value rest)
]

-- What the next round has, or what is left behind the loop.
abbrev fields_in : Round → Fields
fields_in (stop f) = f
fields_in (go_on f) = f

embedded_v4-IsAddrText : (f : Fields) {r : Round} → embedded_v4 f ≡ some r → IsAddrText f.rest
unfolding embedded_v4
embedded_v4-IsAddrText f h =
    let (_, h1) = guard-eq-some _ _ h in
    let (_, h2) = guard-eq-some _ _ h1 in
    let (bytes, e, _) = >>=-eq-some (parse_v4 f.rest) _ h2 in parse_v4-IsAddrText f.rest e

double_colon-IsAddrText :
    (s : Str) (ip : List ℕ) (o : Option ℕ) {r : Round}
    → double_colon s ip o ≡ some r
    → IsAddrText (fields_in r).rest
    → IsAddrText s
double_colon-IsAddrText s ip (some e) h k = cc
double_colon-IsAddrText [] ip none h k = refl
double_colon-IsAddrText (c ∷ s) ip none h k = ground (arith, h, k)

behind-IsAddrText :
    (s : Str) (ip : List ℕ) (o : Option ℕ) {r : Round}
    → behind s ip o ≡ some r
    → IsAddrText (fields_in r).rest
    → IsAddrText s
behind-IsAddrText [] ip o h k = refl
behind-IsAddrText (c ∷ []) ip o h k = cc
behind-IsAddrText (c ∷ d ∷ s) ip o h k = ground (arith, h, k, double_colon-IsAddrText s ip o)

v6_round-IsAddrText :
    (f : Fields) {r : Round}
    → v6_round f ≡ some r
    → IsAddrText (fields_in r).rest
    → IsAddrText f.rest
unfolding v6_round
v6_round-IsAddrText f h k =
    let ((off, acc, rest), e, h1) = >>=-eq-some (hex_digits f.rest 0 0) _ h in
    let (_, h2) = guard-eq-some (not (off == 0)) (field_end f acc rest) h1 in
    elim (Bool-cases (starts_with_dot rest)) [
      | inl dot ↦ embedded_v4-IsAddrText f (rw dot at h2)
      | inr other ↦
          hex_digits-IsAddrText f.rest 0 0 off acc rest e
            (behind-IsAddrText rest _ f.ellipsis (rw other at h2) k)
    ]

v6_fields-IsAddrText :
    (left : ℕ) (f g : Fields) → v6_fields left f ≡ some g → g.rest ≡ [] → IsAddrText f.rest
unfolding v6_fields
v6_fields-IsAddrText zero f g h e = ground (arith, h, e)
v6_fields-IsAddrText (suc left) f g h e = elim (Option-cases (v6_round f)) [
  | inl refused ↦ cc (rw (refused, v6_fields) at h)
  | inr (stop x, r) ↦ v6_round-IsAddrText f r (ground (arith, r, h, e))
  | inr (go_on x, r) ↦
      v6_round-IsAddrText f r (v6_fields-IsAddrText left x g (rw (r, v6_fields) at h) e)
]

expand-rest : (f : Fields) {bytes : List ℕ} → expand f ≡ some bytes → f.rest ≡ []
unfolding expand
expand-rest f h = ground arith

leading_ellipsis-IsAddrText :
    (s : Str) (f : Fields) → leading_ellipsis s ≡ some f → f.rest ≡ [] → IsAddrText s
leading_ellipsis-IsAddrText [] f h e = refl
leading_ellipsis-IsAddrText (c ∷ s) f h e = v6_fields-IsAddrText 8 _ f h e

begin-IsAddrText : (s : Str) (f : Fields) → begin s ≡ some f → f.rest ≡ [] → IsAddrText s
begin-IsAddrText [] f h e = refl
begin-IsAddrText (c ∷ []) f h e = v6_fields-IsAddrText 8 _ f h e
begin-IsAddrText (c ∷ d ∷ s) f h e = elim (Bool-cases (c == b':' && d == b':')) [
  | inl double ↦ ground (arith, double, leading_ellipsis-IsAddrText s f (rw double at h) e)
  | inr other ↦ v6_fields-IsAddrText 8 _ f (rw other at h) e
]

parse_v6-IsAddrText : (s : Str) {bytes : List ℕ} → parse_v6 s ≡ some bytes → IsAddrText s
unfolding parse_v6
parse_v6-IsAddrText s h = elim (Bool-cases (has_byte s b'%')) [
  | inl zone ↦ cc (rw zone at h)
  | inr plain ↦
      let (f, e, k) = >>=-eq-some (begin s) expand (rw plain at h) in
      begin-IsAddrText s f e (expand-rest f k)
]

parse_by-IsAddrText : (s t : Str) {a : Addr} → parse_by s t ≡ some a → IsAddrText s
unfolding parse_by
parse_by-IsAddrText s [] h = cc
parse_by-IsAddrText s (c ∷ t) h = elim (Bool-cases (c == b'.')) [
  | inl dot ↦
      let (bytes, e, _) = >>=-eq-some (parse_v4 s) (λ b. some (v4 b)) (rw (dot, parse_by) at h) in
      parse_v4-IsAddrText s e
  | inr not_dot ↦ elim (Bool-cases (c == b':')) [
    | inl colon ↦
        let (bytes, e, _) =
          >>=-eq-some (parse_v6 s) (λ b. some (v6 b)) (rw (not_dot, colon, parse_by) at h) in
        parse_v6-IsAddrText s e
    | inr not_colon ↦ elim (Bool-cases (c == b'%')) [
      | inl zone ↦ cc (rw (not_dot, not_colon, zone, parse_by) at h)
      | inr other ↦ parse_by-IsAddrText s t (rw (not_dot, not_colon, other, parse_by) at h)
    ]
  ]
]

-- An address is written in hexadecimal digits, dots and colons.
pub parse_addr-IsAddrText : (s : Str) {a : Addr} → parse_addr s ≡ some a → IsAddrText s
unfolding parse_addr
parse_addr-IsAddrText s h = parse_by-IsAddrText s s h
