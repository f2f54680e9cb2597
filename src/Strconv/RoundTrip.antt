-- ===== src/Strconv/RoundTrip.antt =====
-- The decimal text of a number is read back as the number.
use tinkerbell_hegel.Prelude.{
  ℕ, zero, suc, ◌+◌, ◌/◌, ◌%◌, ◌^◌, ◌<◌, ◌≤◌, [], ◌∷◌, ◌≡◌, refl, sym, ◌∙◌, arith, some, ltb,
  Bool-cases, inl, inr,
}
use tinkerbell_hegel.Strings.{Str}
use tinkerbell_hegel.Strconv.{pos, parse_digits, atoi, format_digits, itoa}

-- Reading the digits of `n` in front of a text goes on in the text with the number read so far.
parse-format :
    (fuel n : ℕ) (acc : Str)
    → n < fuel
    → parse_digits 0 (format_digits fuel n acc) ≡ parse_digits n acc
unfolding parse_digits format_digits
parse-format zero n acc h = elim h [ ]
parse-format (suc fuel) n acc h = elim (Bool-cases (ltb n 10)) [
  | inl small ↦ rw small (ground arith)
  | inr big ↦
      rw big (parse-format fuel (n / 10) ((b'0' + n % 10) ∷ acc) (ground arith) ∙ ground arith)
]

format-head :
    (fuel n : ℕ) (acc : Str)
    → n < fuel
    → (c : ℕ) × (s : Str) × (format_digits fuel n acc ≡ c ∷ s) × (b'0' ≤ c) × (c ≤ b'9')
unfolding format_digits
format-head zero n acc h = elim h [ ]
format-head (suc fuel) n acc h = elim (Bool-cases (ltb n 10)) [
  | inl small ↦ rw small (b'0' + n, acc, refl, omega arith, ground arith)
  | inr big ↦ rw big (format-head fuel (n / 10) ((b'0' + n % 10) ∷ acc) (ground arith))
]

atoi_digits :
    (c : ℕ) (s : Str) (n : ℕ)
    → b'0' ≤ c
    → c ≤ b'9'
    → n < 2 ^ 63
    → parse_digits 0 (c ∷ s) ≡ some n
    → atoi (c ∷ s) ≡ some (pos n)
unfolding atoi
atoi_digits c s n lo hi h e = ground arith

-- Every number that an `int` holds is read back from its decimal text.
pub atoi-itoa : (n : ℕ) → n < 2 ^ 63 → atoi (itoa n) ≡ some (pos n)
unfolding itoa
atoi-itoa n h =
    go (format-head (suc n) n [] (omega arith)) (parse-format (suc n) n [] (omega arith))
  where
    go :
        ((c : ℕ) × (s : Str) × (format_digits (suc n) n [] ≡ c ∷ s) × (b'0' ≤ c) × (c ≤ b'9'))
        → parse_digits 0 (format_digits (suc n) n []) ≡ parse_digits n []
        → atoi (format_digits (suc n) n []) ≡ some (pos n)
    go (c, s, e, lo, hi) read =
        rw e (atoi_digits c s n lo hi h (rw e at read ∙ unfold parse_digits in refl))

-- Two numbers with one decimal text are the same.
pub itoa_injective : (m n : ℕ) → itoa m ≡ itoa n → m ≡ n
unfolding itoa
itoa_injective m n h =
    let read_m = parse-format (suc m) m [] (omega arith) in
    let read_n = parse-format (suc n) n [] (omega arith) in
    let same : parse_digits m [] ≡ parse_digits n [] = sym read_m ∙ (rw h read_n) in
    unfold parse_digits in cc
