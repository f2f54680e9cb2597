-- ===== src/Strings/Order.antt =====
-- Equality of Go strings is decided by `==`, and `<` is a strict total order on them.
use tinkerbell_hegel.Prelude.{true, false, [], ◌∷◌, ◌≡◌, ◌≢◌, ◌↔◌, refl, arith}
use tinkerbell_hegel.Strings.{Str, str_eq, str_less}

pub str_eq_refl : (s : Str) → str_eq s s ≡ true
unfolding str_eq
str_eq_refl [] = refl
str_eq_refl (c ∷ s) = ground (arith, str_eq_refl s)

pub eq_of_str_eq : (s t : Str) → str_eq s t ≡ true → s ≡ t
unfolding str_eq
eq_of_str_eq [] [] h = refl
eq_of_str_eq [] (d ∷ t) h = cc
eq_of_str_eq (c ∷ s) [] h = cc
eq_of_str_eq (c ∷ s) (d ∷ t) h = ground (arith, eq_of_str_eq s t)

pub str_eq_iff : (s t : Str) → (str_eq s t ≡ true) ↔ (s ≡ t)
str_eq_iff s t = (eq_of_str_eq s t, λ e. rw e (str_eq_refl t))

pub str_eq-false : (s t : Str) → s ≢ t → str_eq s t ≡ false
str_eq-false s t h = ground (arith, str_eq_iff s t)

pub str_less_irrefl : (s : Str) → str_less s s ≡ false
unfolding str_less
str_less_irrefl [] = refl
str_less_irrefl (c ∷ s) = ground (arith, str_less_irrefl s)

pub str_less_trans : (s t u : Str) → str_less s t ≡ true → str_less t u ≡ true → str_less s u ≡ true
unfolding str_less
str_less_trans [] [] u h k = cc
str_less_trans [] (d ∷ t) [] h k = cc
str_less_trans [] (d ∷ t) (e ∷ u) h k = refl
str_less_trans (c ∷ s) [] u h k = cc
str_less_trans (c ∷ s) (d ∷ t) [] h k = cc
str_less_trans (c ∷ s) (d ∷ t) (e ∷ u) h k = ground (arith, str_less_trans s t u)

pub str_less_total : (s t : Str) → str_less s t ≡ false → str_less t s ≡ false → s ≡ t
unfolding str_less
str_less_total [] [] h k = refl
str_less_total [] (d ∷ t) h k = cc
str_less_total (c ∷ s) [] h k = cc
str_less_total (c ∷ s) (d ∷ t) h k = ground (arith, str_less_total s t)

pub str_less_asymm : (s t : Str) → str_less s t ≡ true → str_less t s ≡ false
str_less_asymm s t h = ground (arith, str_less_trans s t s, str_less_irrefl s)
