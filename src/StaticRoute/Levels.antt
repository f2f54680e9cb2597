-- ===== src/StaticRoute/Levels.antt =====
-- Which parent and child each round of the loop of `FromEndpoint` records.
use tinkerbell_hegel.Prelude.{
  ℕ, zero, suc, ◌-◌, ◌<◌, ◌≤◌, Bool, true, false, ◌&&◌, ◌||◌, List, [], ◌∷◌, ◌++◌, ◌≡◌, ◌≢◌, ◌↔◌,
  inl, inr, refl, sym, ap, arith, Bool-cases, length, get_or, take, drop, length-append, ◌==◌,
  ==_iff,
}
use tinkerbell_hegel.Strings.{Str, str_eq, join}
use tinkerbell_hegel.Strings.Order.{str_eq_iff, str_eq_refl}

-- The test that some round from `i` down to 1 records the child `c` of the parent `p`.
unfoldable pub level_test : List Str → ℕ → Str → Str → Bool
level_test parts zero p c = false
level_test parts (suc i) p c =
    (str_eq (join (take (suc i) parts) b'/') p && str_eq (get_or parts (suc i) []) c)
    || level_test parts i p c

-- `p` joins the parts before some part `c`, at least one.
pub record IsLevel (parts : List Str) (p c : Str) : Type 0 where
  pub before : List Str
  pub after : List Str
  pub nonempty : before ≢ []
  pub spelled : parts ≡ before ++ c ∷ after
  pub parent : p ≡ join before b'/'

module _ {ℓ} {A : Type ℓ} where
  take-get_or-drop :
      (xs : List A) (i : ℕ) (d : A)
      → i < length xs
      → xs ≡ take i xs ++ get_or xs i d ∷ drop (suc i) xs
  take-get_or-drop [] i d h = absurd (omega arith)
  take-get_or-drop (x ∷ xs) zero d h = refl
  take-get_or-drop (x ∷ xs) (suc i) d h = ap (◌∷◌ x) (take-get_or-drop xs i d (omega arith))

  take-suc-ne-nil : (xs : List A) (i : ℕ) → i < length xs → take (suc i) xs ≢ []
  take-suc-ne-nil [] i h = absurd (omega arith)
  take-suc-ne-nil (x ∷ xs) i h = cc

  take-length-append : (xs ys : List A) → take (length xs) (xs ++ ys) ≡ xs
  take-length-append [] [] = refl
  take-length-append [] (y ∷ ys) = refl
  take-length-append (x ∷ xs) ys = ap (◌∷◌ x) (take-length-append xs ys)

  get_or-length-append : (xs ys : List A) (y d : A) → get_or (xs ++ y ∷ ys) (length xs) d ≡ y
  get_or-length-append [] ys y d = refl
  get_or-length-append (x ∷ xs) ys y d = get_or-length-append xs ys y d

level_test_sound :
    (parts : List Str) (i : ℕ) (p c : Str)
    → i < length parts
    → level_test parts i p c ≡ true
    → IsLevel parts p c
unfolding level_test
level_test_sound parts zero p c h t = cc
level_test_sound parts (suc i) p c h t =
    elim (Bool-cases
      (str_eq (join (take (suc i) parts) b'/') p && str_eq (get_or parts (suc i) []) c)) [
        | inl now ↦ record {
          before = take (suc i) parts;
          after = drop (suc (suc i)) parts;
          nonempty = take-suc-ne-nil parts i (omega arith);
          spelled =
              rw (← (str_eq_iff (get_or parts (suc i) []) c).0 (ground arith))
                (take-get_or-drop parts (suc i) [] h);
          parent = sym ((str_eq_iff _ _).0 (ground arith));
        }
        | inr later ↦ level_test_sound parts i p c (omega arith) (ground arith)
      ]

-- A round that has been made stays recorded.
level_test-at :
    (parts : List Str) (i k : ℕ) (p c : Str)
    → suc k ≤ i
    → str_eq (join (take (suc k) parts) b'/') p ≡ true
    → str_eq (get_or parts (suc k) []) c ≡ true
    → level_test parts i p c ≡ true
unfolding level_test
level_test-at parts zero k p c h e f = absurd (omega arith)
level_test-at parts (suc i) k p c h e f = elim (Bool-cases (i == k)) [
  | inl same ↦ rw ((==_iff i k).0 same) (rw (e, f))
  | inr other ↦ ground (arith, level_test-at parts i k p c)
]

level_test_complete :
    (before : List Str) (c : Str) (after : List Str)
    → before ≢ []
    → (i : ℕ) → length before ≤ i
    → level_test (before ++ c ∷ after) i (join before b'/') c ≡ true
level_test_complete [] c after h i le = absurd (h refl)
level_test_complete (x ∷ before) c after h i le =
    level_test-at ((x ∷ before) ++ c ∷ after) i (length before) (join (x ∷ before) b'/') c le
      (rw (take-length-append (x ∷ before) (c ∷ after)) (str_eq_refl _))
      (rw (get_or-length-append (x ∷ before) after c []) (str_eq_refl _))

-- The loop of `FromEndpoint` visits each parent and child that the parts spell, and no others.
pub level_test-iff_IsLevel :
    (parts : List Str) (p c : Str)
    → parts ≢ []
    → (level_test parts (length parts - 1) p c ≡ true) ↔ IsLevel parts p c
level_test-iff_IsLevel [] p c h = absurd (h refl)
level_test-iff_IsLevel (x ∷ xs) p c h = (
  level_test_sound (x ∷ xs) _ p c (omega arith),
  λ l.
      rw (l.spelled, l.parent)
        (level_test_complete l.before c l.after l.nonempty _
          (omega (arith, ap length l.spelled, length-append l.before (c ∷ l.after)))),
)
