-- ===== src/Strings/Suffix.antt =====
-- A trailing byte: tested, taken off and put on.
use tinkerbell_hegel.Prelude.{ℕ, true, [], ◌∷◌, ◌++◌, ◌≡◌, refl, ap, arith}
use tinkerbell_hegel.Strings.{Str, drop_last, has_suffix, trim_suffix}

pub has_suffix-snoc : (s : Str) (b : ℕ) → has_suffix (s ++ b ∷ []) b ≡ true
unfolding has_suffix
has_suffix-snoc [] b = ground arith
has_suffix-snoc (c ∷ []) b = ground arith
has_suffix-snoc (c ∷ d ∷ s) b = has_suffix-snoc (d ∷ s) b

drop_last-snoc : (s : Str) (b : ℕ) → drop_last (s ++ b ∷ []) ≡ s
drop_last-snoc [] b = refl
drop_last-snoc (c ∷ []) b = refl
drop_last-snoc (c ∷ d ∷ s) b = ap (◌∷◌ c) (drop_last-snoc (d ∷ s) b)

drop_last_lem : (s : Str) (b : ℕ) → has_suffix s b ≡ true → s ≡ drop_last s ++ b ∷ []
unfolding has_suffix
drop_last_lem [] b h = cc
drop_last_lem (c ∷ []) b h = ground arith
drop_last_lem (c ∷ d ∷ s) b h = ap (◌∷◌ c) (drop_last_lem (d ∷ s) b h)

pub trim_suffix-snoc : (s : Str) (b : ℕ) → trim_suffix (s ++ b ∷ []) b ≡ s
unfolding trim_suffix
trim_suffix-snoc s b = rw (has_suffix-snoc s b) (drop_last-snoc s b)

pub trim_suffix_lem : (s : Str) (b : ℕ) → has_suffix s b ≡ true → s ≡ trim_suffix s b ++ b ∷ []
unfolding trim_suffix
trim_suffix_lem s b h = ground (arith, drop_last_lem s b h)
