-- ===== src/Strings/Members.antt =====
-- Membership in a list of Go strings as a test, and lists without repetition.
use tinkerbell_hegel.Prelude.{
  Bool, true, false, List, [], ◌∷◌, ◌++◌, ◌≡◌, refl, arith, ◌||◌, ◌&&◌, if◌then◌else◌,
}
use tinkerbell_hegel.Strings.{Str, str_eq}
use tinkerbell_hegel.Strings.Order.{str_eq_iff}

unfoldable pub contains : Str → List Str → Bool
contains x [] = false
contains x (y ∷ ys) = str_eq y x || contains x ys

-- No element occurs twice.
abbrev pub IsDistinct : List Str → Type 0
IsDistinct [] = Unit
IsDistinct (x ∷ xs) = (contains x xs ≡ false) × IsDistinct xs

pub contains-append :
    (x : Str) (ys zs : List Str) → contains x (ys ++ zs) ≡ (contains x ys || contains x zs)
unfolding contains
contains-append x [] zs = refl
contains-append x (y ∷ ys) zs = ground (arith, contains-append x ys zs)

pub IsDistinct-snoc :
    (x : Str) (xs : List Str) → IsDistinct xs → contains x xs ≡ false → IsDistinct (xs ++ x ∷ [])
unfolding contains
IsDistinct-snoc x [] h n = (refl, tt)
IsDistinct-snoc x (y ∷ ys) (m, h) n = (
  ground (arith, contains-append y ys (x ∷ []), str_eq_iff x y, str_eq_iff y x),
  IsDistinct-snoc x ys h (ground arith),
)

abbrev pub distinct_test : List Str → Bool
distinct_test [] = true
distinct_test (x ∷ xs) = (if contains x xs then false else true) && distinct_test xs

pub distinct_test-IsDistinct : (xs : List Str) → distinct_test xs ≡ true → IsDistinct xs
distinct_test-IsDistinct [] h = tt
distinct_test-IsDistinct (x ∷ xs) h =
    (ground (arith, h), distinct_test-IsDistinct xs (ground (arith, h)))
