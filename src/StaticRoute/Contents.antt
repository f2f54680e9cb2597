-- ===== src/StaticRoute/Contents.antt =====
-- What a builder holds after any calls of `FromEndpoint`, and its well-formedness.
use tinkerbell_hegel.Prelude.{
  ℕ, zero, suc, ◌-◌, Bool, true, false, ◌&&◌, ◌||◌, List, [], ◌∷◌, ◌≡◌, ◌≢◌, ◌↔◌, inl, inr, refl,
  ◌∙◌, arith, Bool-cases, length, get_or, take, any, if◌then◌else◌,
}
use tinkerbell_hegel.Strings.{Str, str_eq, join, has_prefix}
use tinkerbell_hegel.Strings.Order.{str_eq_iff}
use tinkerbell_hegel.Strings.Split.{split-ne-nil}
use tinkerbell_hegel.Strings.Members.{contains, contains-append}
use tinkerbell_hegel.GoMap.{
  lookup, put, has_key, lookup-put, lookup-none_of_keys, lookup-none_of_has_key,
}
use tinkerbell_hegel.StaticRoute.{
  UnorderedSet, set_insert, Builder, set_at, ensure_key, add_child, add_levels, parts_of,
  from_endpoint, from_endpoints,
}
use tinkerbell_hegel.StaticRoute.Levels.{IsLevel, level_test, level_test-iff_IsLevel}

-- whether the set of `p` has the child `c`
unfoldable pub has : Builder → Str → Str → Bool
unfolding contains lookup
has b p c = contains c (set_at p b)

pub contains-set_insert :
    (v x : Str) (s : UnorderedSet) → contains x (set_insert v s) ≡ (str_eq v x || contains x s)
unfolding set_insert contains
contains-set_insert v x s = ground (arith, contains-append x s (v ∷ []), str_eq_iff v x)

pub set_at-put :
    (p q : Str) (s : UnorderedSet) (b : Builder)
    → set_at q (put p s b) ≡ (if str_eq p q then s else set_at q b)
set_at-put p q s b = ground (arith, lookup-put p q s b)

-- A key that is made holds the empty set, which an absent key stands for too.
pub set_at-ensure_key : (p q : Str) (b : Builder) → set_at q (ensure_key b p) ≡ set_at q b
unfolding ensure_key
set_at-ensure_key p q b = elim (Bool-cases (has_key p b)) [
  | inl there ↦ rw there
  | inr absent ↦ rw absent (set_at-put p q [] b ∙ new_at absent)
]
  where
    new_at : has_key p b ≡ false → (if str_eq p q then [] else set_at q b) ≡ set_at q b
    new_at absent = elim (Bool-cases (str_eq p q)) [
      | inl same ↦ rw (same, ← (str_eq_iff p q).0 same, lookup-none_of_keys p b absent)
      | inr other ↦ rw other
    ]

pub has-add_child :
    (b : Builder) (p c q d : Str)
    → has (add_child b p c) q d ≡ ((str_eq p q && str_eq c d) || has b q d)
unfolding has add_child
has-add_child b p c q d = ground (
  arith,
  set_at-put p q (set_insert c (set_at p (ensure_key b p))) (ensure_key b p),
  set_at-ensure_key p p b,
  set_at-ensure_key p q b,
  contains-set_insert c d (set_at p b),
  str_eq_iff p q,
)

has-add_levels :
    (parts : List Str) (i : ℕ) (b : Builder) (p c : Str)
    → has (add_levels parts i b) p c ≡ (level_test parts i p c || has b p c)
unfolding add_levels level_test
has-add_levels parts zero b p c = refl
has-add_levels parts (suc i) b p c =
    let parent = join (take (suc i) parts) b'/' in
    let child = get_or parts (suc i) [] in
    ground (
      arith,
      has-add_levels parts i (add_child b parent child) p c,
      has-add_child b parent child p c,
    )

parts_of-ne-nil : (e : Str) → parts_of e ≢ []
unfolding parts_of
parts_of-ne-nil e = split-ne-nil (if has_prefix e b'/' then e else b'/' ∷ e) b'/'

-- whether an endpoint has the child `c` under the parent `p`
unfoldable pub endpoint_test : Str → Str → Str → Bool
endpoint_test e p c = level_test (parts_of e) (length (parts_of e) - 1) p c

pub endpoint_test-iff_IsLevel :
    (e p c : Str) → (endpoint_test e p c ≡ true) ↔ IsLevel (parts_of e) p c
unfolding endpoint_test
endpoint_test-iff_IsLevel e p c = level_test-iff_IsLevel (parts_of e) p c (parts_of-ne-nil e)

-- A builder holds what its endpoints spell and what it held before.
pub has-from_endpoints :
    (es : List Str) (b : Builder) (p c : Str)
    → has (from_endpoints es b) p c ≡ (any (λ e. endpoint_test e p c) es || has b p c)
unfolding from_endpoints endpoint_test
has-from_endpoints [] b p c = refl
has-from_endpoints (e ∷ es) b p c = ground (
  arith,
  has-from_endpoints es (from_endpoint b e) p c,
  has-add_levels (parts_of e) (length (parts_of e) - 1) b p c,
)

-- A path with a child is a key.
pub has_key-of_has : (b : Builder) (p c : Str) → has b p c ≡ true → has_key p b ≡ true
unfolding has
has_key-of_has b p c h = ground (arith, lookup-none_of_has_key p b)
