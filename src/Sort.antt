-- ===== src/Sort.antt =====
-- Go's `sort.Strings` and `sort.Sort`: a list in ascending order of a key. Go's sort is not stable;
-- `Sort.Ascending` shows that where the keys are distinct there is one ascending list only, so the
-- algorithm does not matter.
pub mod Ascending
pub mod Keyed
use tinkerbell_hegel.Prelude.{List, [], ◌∷◌, if◌then◌else◌}
use tinkerbell_hegel.Strings.{Str, str_less}

module _ {ℓ} {A : Type ℓ} (key : A → Str) where
  sort_insert : A → List A → List A
  sort_insert x [] = x ∷ []
  sort_insert x (y ∷ ys) = if str_less (key y) (key x) then y ∷ sort_insert x ys else x ∷ y ∷ ys

  unfoldable pub sort_by : List A → List A
  unfolding sort_insert
  sort_by [] = []
  sort_by (x ∷ xs) = sort_insert x (sort_by xs)

-- `sort.Strings`
unfoldable pub sort_strings : List Str → List Str
unfolding sort_by
sort_strings = sort_by (λ s. s)
