-- ===== src/GoMap.antt =====
-- Go's maps with string keys, as lists of bindings. Go ranges over a map in an unspecified order:
-- here the order of the list, so a theorem that holds of every list with the same bindings holds of
-- every order of iteration.
use tinkerbell_hegel.Prelude.{
  Bool, false, List, [], ◌∷◌, ◌≡◌, refl, arith, Option, none, some, ◌||◌, if◌then◌else◌,
}
use tinkerbell_hegel.Strings.{Str, str_eq}
use tinkerbell_hegel.Strings.Order.{str_eq_iff}
use tinkerbell_hegel.Strings.Members.{contains, IsDistinct}

abbrev pub GoMap {ℓ} : Type ℓ → Type ℓ
GoMap V = List (Str × V)

module _ {ℓ} {V : Type ℓ} where
  -- `v, ok := m[k]`
  unfoldable pub lookup : Str → GoMap V → Option V
  lookup k [] = none
  lookup k ((j, v) ∷ m) = if str_eq j k then some v else lookup k m

  -- `m[k] = v`
  unfoldable pub put : Str → V → GoMap V → GoMap V
  put k v [] = (k, v) ∷ []
  put k v ((j, w) ∷ m) = if str_eq j k then (j, v) ∷ m else (j, w) ∷ put k v m

  unfoldable pub keys : GoMap V → List Str
  keys [] = []
  keys ((j, v) ∷ m) = j ∷ keys m

  -- `_, ok := m[k]`
  unfoldable pub has_key : Str → GoMap V → Bool
  unfolding contains keys
  has_key k m = contains k (keys m)

  pub lookup-put :
      (k j : Str) (v : V) (m : GoMap V)
      → lookup j (put k v m) ≡ (if str_eq k j then some v else lookup j m)
  unfolding lookup put
  lookup-put k j v [] = refl
  lookup-put k j v ((i, w) ∷ m) =
      ground (arith, str_eq_iff k j, str_eq_iff i k, str_eq_iff i j, lookup-put k j v m)

  pub contains-keys-put :
      (k j : Str) (v : V) (m : GoMap V)
      → contains j (keys (put k v m)) ≡ (str_eq k j || contains j (keys m))
  unfolding contains keys put
  contains-keys-put k j v [] = refl
  contains-keys-put k j v ((i, w) ∷ m) =
      ground (arith, str_eq_iff k j, str_eq_iff i k, str_eq_iff i j, contains-keys-put k j v m)

  pub put-IsDistinct :
      (k : Str) (v : V) (m : GoMap V) → IsDistinct (keys m) → IsDistinct (keys (put k v m))
  unfolding keys put contains
  put-IsDistinct k v [] h = (refl, tt)
  put-IsDistinct k v ((j, w) ∷ m) (n, h) =
      ground
        (arith, put-IsDistinct k v m h, contains-keys-put k j v m, str_eq_iff j k, str_eq_iff k j)

  pub lookup-none_of_keys :
      (k : Str) (m : GoMap V) → contains k (keys m) ≡ false → lookup k m ≡ none
  unfolding keys lookup contains
  lookup-none_of_keys k [] h = refl
  lookup-none_of_keys k ((j, v) ∷ m) h = ground (arith, lookup-none_of_keys k m)

  pub lookup-none_of_has_key : (k : Str) (m : GoMap V) → has_key k m ≡ false → lookup k m ≡ none
  unfolding has_key
  lookup-none_of_has_key k m h = lookup-none_of_keys k m h
