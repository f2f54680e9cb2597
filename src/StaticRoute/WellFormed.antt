-- ===== src/StaticRoute/WellFormed.antt =====
-- The invariant of a builder, and that `FromEndpoint` keeps it.
use tinkerbell_hegel.Prelude.{
  ℕ, zero, suc, ◌-◌, true, false, ◌&&◌, ◌||◌, List, [], ◌∷◌, ◌≡◌, ◌⊎◌, inl, inr, refl, sym, ◌∙◌,
  arith, Bool-cases, length, get_or, if◌then◌else◌, All,
}
use tinkerbell_hegel.Strings.{Str, str_eq, has_prefix}
use tinkerbell_hegel.Strings.Order.{str_eq_iff, str_eq_refl}
use tinkerbell_hegel.Strings.Split.{Lacks, split-Lacks}
use tinkerbell_hegel.Strings.Members.{contains, IsDistinct, IsDistinct-snoc}
use tinkerbell_hegel.GoMap.{keys, has_key, contains-keys-put, put-IsDistinct}
use tinkerbell_hegel.StaticRoute.{
  UnorderedSet, set_insert, Builder, set_at, ensure_key, add_child, add_levels, parts_of,
  from_endpoint, from_endpoints, new_builder,
}
use tinkerbell_hegel.StaticRoute.Contents.{has, set_at-put, set_at-ensure_key, has-add_child}

-- Keys are distinct, a key has a child, no set has an element twice, and no child has a slash.
pub record IsWellFormed (b : Builder) : Type 0 where
  pub keys_distinct : IsDistinct (keys b)
  pub sets_distinct : (p : Str) → IsDistinct (set_at p b)
  pub inhabited : (p : Str) → has_key p b ≡ true → (c : Str) × (has b p c ≡ true)
  pub slashless : (p c : Str) → has b p c ≡ true → Lacks b'/' c

set_insert-IsDistinct : (v : Str) (s : UnorderedSet) → IsDistinct s → IsDistinct (set_insert v s)
unfolding set_insert
set_insert-IsDistinct v s h = elim (Bool-cases (contains v s)) [
  | inl there ↦ rw there h
  | inr new ↦ rw new (IsDistinct-snoc v s h new)
]

keys-add_child :
    (b : Builder) (p c : Str) → IsDistinct (keys b) → IsDistinct (keys (add_child b p c))
unfolding add_child
keys-add_child b p c h = put-IsDistinct p _ (ensure_key b p) (ensured h)
  where
    ensured : IsDistinct (keys b) → IsDistinct (keys (ensure_key b p))
    ensured h = elim (Bool-cases (has_key p b)) [
      | inl there ↦ rw (ensure_key, there) h
      | inr absent ↦ rw (ensure_key, absent) (put-IsDistinct p [] b h)
    ]

has_key-ensure_key :
    (b : Builder) (p q : Str) → has_key q (ensure_key b p) ≡ (str_eq p q || has_key q b)
unfolding ensure_key has_key
has_key-ensure_key b p q = ground (arith, contains-keys-put p q [] b, str_eq_iff p q)

has_key-add_child :
    (b : Builder) (p c q : Str) → has_key q (add_child b p c) ≡ (str_eq p q || has_key q b)
unfolding add_child
has_key-add_child b p c q = ground (
  arith,
  has_key-ensure_key b p q,
  contains-keys-put p q (set_insert c (set_at p (ensure_key b p))) (ensure_key b p),
)

sets-add_child :
    (b : Builder) (p c q : Str)
    → ((q : Str) → IsDistinct (set_at q b))
    → IsDistinct (set_at q (add_child b p c))
unfolding add_child
sets-add_child b p c q h =
    rw (set_at-put p q _ (ensure_key b p), set_at-ensure_key p p b)
      (elim (Bool-cases (str_eq p q)) [
        | inl same ↦ rw same (set_insert-IsDistinct c (set_at p b) (h p))
        | inr other ↦ rw (other, set_at-ensure_key p q b) (h q)
      ])

add_child-IsWellFormed :
    (b : Builder) (p c : Str) → Lacks b'/' c → IsWellFormed b → IsWellFormed (add_child b p c)
add_child-IsWellFormed b p c l w = record {
  keys_distinct = keys-add_child b p c w.keys_distinct;
  sets_distinct = λ q. sets-add_child b p c q w.sets_distinct;
  inhabited = λ q k. found q (Bool-cases (str_eq p q)) (sym (has_key-add_child b p c q) ∙ k);
  slashless = λ q d h. clean q d (Bool-cases (str_eq c d)) (sym (has-add_child b p c q d) ∙ h);
}
  where
    found :
        (q : Str)
        → (str_eq p q ≡ true) ⊎ (str_eq p q ≡ false)
        → (str_eq p q || has_key q b) ≡ true
        → (d : Str) × (has (add_child b p c) q d ≡ true)
    found q (inl same) k = (c, has-add_child b p c q c ∙ rw (same, str_eq_refl c) refl)
    found q (inr other) k =
        let (d, h) = w.inhabited q (rw other at k) in
        (d, has-add_child b p c q d ∙ rw (other, h) refl)

    clean :
        (q d : Str)
        → (str_eq c d ≡ true) ⊎ (str_eq c d ≡ false)
        → ((str_eq p q && str_eq c d) || has b q d) ≡ true
        → Lacks b'/' d
    clean q d (inl same) h = rw (← (str_eq_iff c d).0 same) l
    clean q d (inr other) h = w.slashless q d (ground arith)

get_or-Lacks : (parts : List Str) (i : ℕ) → All (Lacks b'/') parts → Lacks b'/' (get_or parts i [])
get_or-Lacks [] i h = tt
get_or-Lacks (x ∷ xs) zero (p, h) = p
get_or-Lacks (x ∷ xs) (suc i) (p, h) = get_or-Lacks xs i h

add_levels-IsWellFormed :
    (parts : List Str) (i : ℕ) (b : Builder)
    → All (Lacks b'/') parts
    → IsWellFormed b
    → IsWellFormed (add_levels parts i b)
unfolding add_levels
add_levels-IsWellFormed parts zero b h w = w
add_levels-IsWellFormed parts (suc i) b h w =
    add_levels-IsWellFormed parts i _ h
      (add_child-IsWellFormed b _ _ (get_or-Lacks parts (suc i) h) w)

parts_of-Lacks : (e : Str) → All (Lacks b'/') (parts_of e)
unfolding parts_of
parts_of-Lacks e = split-Lacks (if has_prefix e b'/' then e else b'/' ∷ e) b'/'

pub from_endpoints-IsWellFormed :
    (es : List Str) (b : Builder) → IsWellFormed b → IsWellFormed (from_endpoints es b)
unfolding from_endpoints
from_endpoints-IsWellFormed [] b w = w
from_endpoints-IsWellFormed (e ∷ es) b w =
    from_endpoints-IsWellFormed es (from_endpoint b e)
      (add_levels-IsWellFormed (parts_of e) (length (parts_of e) - 1) b (parts_of-Lacks e) w)

pub new_builder-IsWellFormed : IsWellFormed new_builder
unfolding new_builder has has_key
new_builder-IsWellFormed = record {
  keys_distinct = tt;
  sets_distinct = λ p. tt;
  inhabited = λ p h. cc;
  slashless = λ p c h. cc;
}
