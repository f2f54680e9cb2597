-- ===== src/Netip/Bytes.antt =====
-- Bytes that fit into 8 bits: an IPv4 address has 4, and a field of IPv6 has two.
use tinkerbell_hegel.Prelude.{
  ℕ, ◌+◌, ◌*◌, ◌≤◌, ◌<◌, Bool, List, [], ◌∷◌, ◌++◌, ◌≡◌, inl, inr, arith, some, ◌==◌, length, All,
  All-append, length-append, if◌then◌else◌, Bool-cases, Option-cases,
}
use tinkerbell_hegel.Strings.{Str}
use tinkerbell_hegel.Options.{>>=-eq-some}
use tinkerbell_hegel.Netip.{
  Addr, v4, v6, is_nil, Quad, quad_byte, v4_fields, parse_v4, hex_value, hex_digits,
}

-- `n` bytes of 8 bits each.
abbrev pub IsBytes : ℕ → List ℕ → Type 0
IsBytes n bytes = (length bytes ≡ n) × All (λ b. b < 256) bytes

abbrev pub IsSized : Addr → Type 0
IsSized (v4 bytes) = IsBytes 4 bytes
IsSized (v6 bytes) = IsBytes 16 bytes

pub IsBytes-append :
    (m n : ℕ) (xs ys : List ℕ) → IsBytes m xs → IsBytes n ys → IsBytes (m + n) (xs ++ ys)
IsBytes-append m n xs ys (lx, hx) (ly, hy) =
    (omega (arith, length-append xs ys, lx, ly), All-append (λ b. b < 256) xs ys hx hy)

record IsQuad (q : Quad) : Type 0 where
  bytes : All (λ b. b < 256) q.fields
  within : length q.fields ≤ 3
  small : q.val < 256

quad_byte-IsQuad :
    (q : Quad) (c : ℕ) (at_end : Bool) (q' : Quad)
    → IsQuad q
    → quad_byte q c at_end ≡ some q'
    → IsQuad q'
quad_byte-IsQuad q c at_end q' i h =
    ground (
      arith,
      All-append (λ b. b < 256) q.fields (q.val ∷ []),
      length-append q.fields (q.val ∷ []),
      h,
    )

v4_fields-IsBytes :
    (s : Str) (q : Quad) (bytes : List ℕ) → IsQuad q → v4_fields s q ≡ some bytes → IsBytes 4 bytes
unfolding v4_fields
v4_fields-IsBytes [] q bytes i h = elim (Bool-cases (length q.fields == 3)) [
  | inl full ↦ ground (
    arith,
    full,
    h,
    All-append (λ b. b < 256) q.fields (q.val ∷ []),
    length-append q.fields (q.val ∷ []),
  )
  | inr few ↦ cc (rw few at h)
]
v4_fields-IsBytes (c ∷ s) q bytes i h =
    let (q', e, k) = >>=-eq-some (quad_byte q c (is_nil s)) (v4_fields s) h in
    v4_fields-IsBytes s q' bytes (quad_byte-IsQuad q c (is_nil s) q' i e) k

pub parse_v4-IsBytes : (s : Str) (bytes : List ℕ) → parse_v4 s ≡ some bytes → IsBytes 4 bytes
unfolding parse_v4
parse_v4-IsBytes s bytes h =
    v4_fields-IsBytes s _ bytes (record { bytes = tt; within = omega arith; small = omega arith }) h

-- what `n` hexadecimal digits stay below
abbrev pub limit : ℕ → ℕ
limit n =
    if n == 0
    then 1
    else if n == 1
    then 16
    else if n == 2
    then 256
    else if n == 3
    then 4096
    else 65536

hex_value-lt : (c d : ℕ) → hex_value c ≡ some d → d < 16
unfolding hex_value
hex_value-lt c d h = ground arith

limit-suc : (off acc d : ℕ) → off ≤ 3 → acc < limit off → d < 16 → acc * 16 + d < limit (off + 1)
limit-suc off acc d h k l = ground arith

pub hex_digits-lt :
    (s : Str) (off acc n value : ℕ) (rest : Str)
    → off ≤ 4
    → acc < limit off
    → hex_digits s off acc ≡ some (n, value, rest)
    → value < 65536
unfolding hex_digits
hex_digits-lt [] off acc n value rest h k e = ground arith
hex_digits-lt (c ∷ s) off acc n value rest h k e = elim (Option-cases (hex_value c)) [
  | inl other ↦ ground (arith, other)
  | inr (d, v) ↦ ground (
    arith,
    v,
    hex_value-lt c d v,
    limit-suc off acc d,
    hex_digits-lt s (off + 1) (acc * 16 + d) n value rest,
  )
]
