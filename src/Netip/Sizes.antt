-- ===== src/Netip/Sizes.antt =====
-- The number of the bytes of a parsed address.
use tinkerbell_hegel.Prelude.{
  ℕ, zero, suc, ◌+◌, ◌-◌, ◌≤◌, ◌<◌, ◌&&◌, List, [], ◌∷◌, ◌++◌, ◌≡◌, inl, inr, refl, subst, arith,
  Option, none, some, ◌==◌, length, take, drop, All, Bool-cases, Option-cases,
}
use tinkerbell_hegel.Strings.{Str, has_byte}
use tinkerbell_hegel.Options.{>>=-eq-some}
use tinkerbell_hegel.Netip.{
  Addr, v4, v6, parse_v4, Fields, fields_of, zeros, expand, leading_ellipsis, begin, parse_v6,
  parse_by, parse_addr,
}
use tinkerbell_hegel.Netip.Bytes.{IsBytes, IsSized, IsBytes-append, parse_v4-IsBytes}
use tinkerbell_hegel.Netip.Rounds.{IsWithin, IsPart, v6_fields-IsPart}

zeros-IsBytes : (n : ℕ) → IsBytes n (zeros n)
unfolding zeros
zeros-IsBytes zero = (refl, tt)
zeros-IsBytes (suc n) = let (l, b) = zeros-IsBytes n in (omega arith, (omega arith, b))

take-drop-IsBytes :
    (e : ℕ) (ip : List ℕ)
    → e ≤ length ip
    → All (λ b. b < 256) ip
    → IsBytes e (take e ip) × IsBytes (length ip - e) (drop e ip)
take-drop-IsBytes zero ip h b = ((refl, tt), (omega arith, b))
take-drop-IsBytes (suc e) [] h b = elim h [ ]
take-drop-IsBytes (suc e) (x ∷ ip) h (bx, b) =
    let ((lt_, bt), (ld, bd)) = take-drop-IsBytes e ip (omega arith) b in
    ((omega arith, (bx, bt)), (omega arith, bd))

abbrev spread_out : ℕ → List ℕ → List ℕ
spread_out e ip = take e ip ++ (zeros (16 - length ip) ++ drop e ip)

spread_out-IsBytes :
    (e : ℕ) (ip : List ℕ)
    → e ≤ length ip
    → length ip ≤ 16
    → All (λ b. b < 256) ip
    → IsBytes 16 (spread_out e ip)
spread_out-IsBytes e ip h l b =
    let (before, after) = take-drop-IsBytes e ip h b in
    let total : e + ((16 - length ip) + (length ip - e)) ≡ 16 = omega arith in
    subst (λ n. IsBytes n (spread_out e ip)) total
      (IsBytes-append _ _ (take e ip) _ before
        (IsBytes-append _ _ (zeros (16 - length ip)) _ (zeros-IsBytes (16 - length ip)) after))

expand-IsBytes : (f : Fields) (bytes : List ℕ) → IsPart f → expand f ≡ some bytes → IsBytes 16 bytes
unfolding expand
expand-IsBytes f bytes i h = elim (Option-cases f.ellipsis) [
  | inl whole ↦ ground (arith, whole, h)
  | inr (e, spread) ↦
      let w : e ≤ length f.ip = subst (λ o. IsWithin o (length f.ip)) spread i.spread in
      let same : spread_out e f.ip ≡ bytes = ground (arith, spread, h) in
      subst (IsBytes 16) same (spread_out-IsBytes e f.ip w i.within i.bytes)
]

start-IsPart : (s : Str) (o : Option ℕ) → IsWithin o 0 → IsPart (fields_of s [] o)
start-IsPart s o h = record { bytes = tt; within = omega arith; spread = h }

leading_ellipsis-IsPart : (s : Str) (f : Fields) → leading_ellipsis s ≡ some f → IsPart f
leading_ellipsis-IsPart [] f h = subst IsPart (cc) (start-IsPart [] (some 0) (omega arith))
leading_ellipsis-IsPart (c ∷ s) f h =
    v6_fields-IsPart 8 _ f (start-IsPart (c ∷ s) (some 0) (omega arith)) (omega arith) h

begin-IsPart : (s : Str) (f : Fields) → begin s ≡ some f → IsPart f
begin-IsPart [] f h = v6_fields-IsPart 8 _ f (start-IsPart [] none tt) (omega arith) h
begin-IsPart (c ∷ []) f h = v6_fields-IsPart 8 _ f (start-IsPart (c ∷ []) none tt) (omega arith) h
begin-IsPart (c ∷ d ∷ s) f h = elim (Bool-cases (c == b':' && d == b':')) [
  | inl double ↦ leading_ellipsis-IsPart s f (rw double at h)
  | inr other ↦
      v6_fields-IsPart 8 _ f (start-IsPart (c ∷ d ∷ s) none tt) (omega arith) (rw other at h)
]

parse_v6-IsBytes : (s : Str) (bytes : List ℕ) → parse_v6 s ≡ some bytes → IsBytes 16 bytes
unfolding parse_v6
parse_v6-IsBytes s bytes h = elim (Bool-cases (has_byte s b'%')) [
  | inl zone ↦ cc (rw zone at h)
  | inr plain ↦
      let (f, e, k) = >>=-eq-some (begin s) expand (rw plain at h) in
      expand-IsBytes f bytes (begin-IsPart s f e) k
]

parse_by-IsSized : (s t : Str) (a : Addr) → parse_by s t ≡ some a → IsSized a
unfolding parse_by
parse_by-IsSized s [] a h = cc
parse_by-IsSized s (c ∷ t) a h = elim (Bool-cases (c == b'.')) [
  | inl dot ↦
      let (bytes, e, k) = >>=-eq-some (parse_v4 s) (λ b. some (v4 b)) (rw (dot, parse_by) at h) in
      let same : v4 bytes ≡ a = cc in subst IsSized same (parse_v4-IsBytes s bytes e)
  | inr not_dot ↦ elim (Bool-cases (c == b':')) [
    | inl colon ↦
        let (bytes, e, k) =
          >>=-eq-some (parse_v6 s) (λ b. some (v6 b)) (rw (not_dot, colon, parse_by) at h) in
        let same : v6 bytes ≡ a = cc in subst IsSized same (parse_v6-IsBytes s bytes e)
    | inr not_colon ↦ elim (Bool-cases (c == b'%')) [
      | inl zone ↦ cc (rw (not_dot, not_colon, zone, parse_by) at h)
      | inr other ↦ parse_by-IsSized s t a (rw (not_dot, not_colon, other, parse_by) at h)
    ]
  ]
]

-- A parsed address has its number of bytes, and each fits into 8 bits.
pub parse_addr-IsSized : (s : Str) (a : Addr) → parse_addr s ≡ some a → IsSized a
unfolding parse_addr
parse_addr-IsSized s a h = parse_by-IsSized s s a h
