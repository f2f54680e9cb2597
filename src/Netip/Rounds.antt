-- ===== src/Netip/Rounds.antt =====
-- The bytes of an IPv6 address while its fields are read.
use tinkerbell_hegel.Prelude.{
  ℕ, zero, suc, ◌+◌, ◌*◌, ◌/◌, ◌%◌, ◌≤◌, ◌<◌, ◌||◌, not, List, [], ◌∷◌, ◌++◌, ◌≡◌, inl, inr, subst,
  arith, Option, none, some, ◌==◌, leb, length, All, All-append, length-append, Bool-cases,
  Option-cases,
}
use tinkerbell_hegel.Strings.{Str}
use tinkerbell_hegel.Options.{>>=-eq-some, guard-eq-some}
use tinkerbell_hegel.Netip.{
  parse_v4, hex_digits, is_some, Fields, fields_of, Round, stop, go_on, embedded_v4, double_colon,
  behind, starts_with_dot, field_end, v6_round, v6_fields,
}
use tinkerbell_hegel.Netip.Bytes.{parse_v4-IsBytes, hex_digits-lt}

abbrev pub IsWithin : Option ℕ → ℕ → Type 0
IsWithin none n = Unit
IsWithin (some e) n = e ≤ n

pub record IsPart (f : Fields) : Type 0 where
  pub bytes : All (λ b. b < 256) f.ip
  pub within : length f.ip ≤ 16
  pub spread : IsWithin f.ellipsis (length f.ip)

-- A round that goes on has added one field.
abbrev pub Follows : ℕ → Round → Type 0
Follows n (stop f) = IsPart f
Follows n (go_on f) = IsPart f × (length f.ip ≤ n)

IsWithin-mono : (o : Option ℕ) (m n : ℕ) → m ≤ n → IsWithin o m → IsWithin o n
IsWithin-mono none m n h k = tt
IsWithin-mono (some e) m n h k = omega arith

Follows-eq :
    (n : ℕ) (x r : Round) → Follows n x → ◌≡◌ {A = Option Round} (some x) (some r) → Follows n r
Follows-eq n x r h e = subst (Follows n) (cc) h

embedded_v4-Follows :
    (f : Fields) (n : ℕ) (r : Round) → IsPart f → embedded_v4 f ≡ some r → Follows n r
unfolding embedded_v4
embedded_v4-Follows f n r i h =
    let (_, h1) = guard-eq-some (is_some f.ellipsis || length f.ip == 12) _ h in
    let (fits, h2) = guard-eq-some (leb (length f.ip + 4) 16) _ h1 in
    let (bytes, e, h3) = >>=-eq-some (parse_v4 f.rest) _ h2 in
    let (l, b) = parse_v4-IsBytes f.rest bytes e in
    Follows-eq n (stop (fields_of [] (f.ip ++ bytes) f.ellipsis)) r
      (record {
        bytes = All-append (λ b. b < 256) f.ip bytes i.bytes b;
        within = ground (arith, fits, l, length-append f.ip bytes);
        spread = IsWithin-mono f.ellipsis _ _ (omega (arith, length-append f.ip bytes)) i.spread;
      })
      h3

double_colon-Follows :
    (s : Str) (ip : List ℕ) (o : Option ℕ) (r : Round)
    → All (λ b. b < 256) ip
    → length ip ≤ 16
    → double_colon s ip o ≡ some r
    → Follows (length ip) r
double_colon-Follows s ip (some e) r b l h = cc
double_colon-Follows [] ip none r b l h =
    Follows-eq _ _ r (record { bytes = b; within = l; spread = omega arith }) h
double_colon-Follows (c ∷ s) ip none r b l h =
    Follows-eq _ _ r (record { bytes = b; within = l; spread = omega arith }, omega arith) h

behind-Follows :
    (s : Str) (ip : List ℕ) (o : Option ℕ) (r : Round)
    → All (λ b. b < 256) ip
    → length ip ≤ 16
    → IsWithin o (length ip)
    → behind s ip o ≡ some r
    → Follows (length ip) r
behind-Follows [] ip o r b l w h = Follows-eq _ _ r (record { bytes = b; within = l; spread = w }) h
behind-Follows (c ∷ []) ip o r b l w h = cc
behind-Follows (c ∷ d ∷ s) ip o r b l w h = elim (Bool-cases (c == b':')) [
  | inr other ↦ cc (rw other at h)
  | inl colon ↦ elim (Bool-cases (d == b':')) [
    | inl double ↦ double_colon-Follows s ip o r b l (rw (colon, double) at h)
    | inr single ↦
        Follows-eq _ _ r (record { bytes = b; within = l; spread = w }, omega arith)
          (rw (colon, single) at h)
  ]
]

v6_round-Follows :
    (f : Fields) (r : Round)
    → IsPart f
    → length f.ip + 2 ≤ 16
    → v6_round f ≡ some r
    → Follows (length f.ip + 2) r
unfolding v6_round
v6_round-Follows f r i fits h =
    let ((off, acc, rest), e, h1) = >>=-eq-some (hex_digits f.rest 0 0) _ h in
    let (_, h2) = guard-eq-some (not (off == 0)) (field_end f acc rest) h1 in
    let small = hex_digits-lt f.rest 0 0 off acc rest (omega arith) (omega arith) e in
    let pair : List ℕ = acc / 256 ∷ acc % 256 ∷ [] in
    let l : length (f.ip ++ pair) ≡ length f.ip + 2 = length-append f.ip pair in
    elim (Bool-cases (starts_with_dot rest)) [
      | inl dot ↦ embedded_v4-Follows f _ r i (rw dot at h2)
      | inr other ↦
          subst (λ n. Follows n r) l
            (behind-Follows rest (f.ip ++ pair) f.ellipsis r
              (All-append (λ b. b < 256) f.ip pair i.bytes (omega arith)) (omega arith)
              (IsWithin-mono f.ellipsis _ _ (omega arith) i.spread) (rw other at h2))
    ]

pub v6_fields-IsPart :
    (left : ℕ) (f g : Fields)
    → IsPart f
    → length f.ip + 2 * left ≤ 16
    → v6_fields left f ≡ some g
    → IsPart g
unfolding v6_fields
v6_fields-IsPart zero f g i fits h = subst IsPart (cc) i
v6_fields-IsPart (suc left) f g i fits h = elim (Option-cases (v6_round f)) [
  | inl refused ↦ cc (rw (refused, v6_fields) at h)
  | inr (stop x, r) ↦
      let part = v6_round-Follows f (stop x) i (omega arith) r in
      let same : x ≡ g = ground (arith, r, h) in subst IsPart same part
  | inr (go_on x, r) ↦
      let (part, grown) = v6_round-Follows f (go_on x) i (omega arith) r in
      v6_fields-IsPart left x g part (omega arith) (rw (r, v6_fields) at h)
]
