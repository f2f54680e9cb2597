-- ===== src/Sort/Keyed.antt =====
-- Sorting by a key sorts the keys, and keeps what holds of every element.
use mathlib.Core.List.{map}
use tinkerbell_hegel.Prelude.{List, [], ◌∷◌, ◌≡◌, refl, ap, ◌∙◌, arith, Bool-cases, inl, inr, All}
use tinkerbell_hegel.Strings.{Str, str_less}
use tinkerbell_hegel.Sort.{sort_insert, sort_by, sort_strings}

module _ {ℓ} {A : Type ℓ} (key : A → Str) where
  map-sort_insert :
      (x : A) (xs : List A)
      → map key (sort_insert key x xs) ≡ sort_insert (λ s. s) (key x) (map key xs)
  unfolding sort_insert
  map-sort_insert x [] = refl
  map-sort_insert x (y ∷ ys) = ground (arith, map-sort_insert x ys)

  pub map-sort_by : (xs : List A) → map key (sort_by key xs) ≡ sort_strings (map key xs)
  unfolding sort_by sort_strings
  map-sort_by [] = refl
  map-sort_by (x ∷ xs) =
      map-sort_insert x (sort_by key xs) ∙ ap (sort_insert (λ s. s) (key x)) (map-sort_by xs)

module _ {ℓ κ} {A : Type ℓ} (key : A → Str) (P : A → Type κ) where
  All-sort_insert : (x : A) (xs : List A) → P x → All P xs → All P (sort_insert key x xs)
  unfolding sort_insert
  All-sort_insert x [] p h = (p, tt)
  All-sort_insert x (y ∷ ys) p (q, h) = elim (Bool-cases (str_less (key y) (key x))) [
    | inl lt ↦ rw lt (q, All-sort_insert x ys p h)
    | inr ge ↦ rw ge (p, (q, h))
  ]

  pub All-sort_by : (xs : List A) → All P xs → All P (sort_by key xs)
  unfolding sort_by
  All-sort_by [] h = tt
  All-sort_by (x ∷ xs) (p, h) = All-sort_insert x (sort_by key xs) p (All-sort_by xs h)
