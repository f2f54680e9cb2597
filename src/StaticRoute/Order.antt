-- ===== src/StaticRoute/Order.antt =====
-- The result of `Build` depends neither on the order in which Go ranges over the maps nor on the
-- order or repetition of the endpoints.
use tinkerbell_hegel.Prelude.{
  Bool, true, ◌||◌, List, [], ◌∷◌, ◌≡◌, refl, sym, ap, ap₂, ◌∙◌, arith, Bool-eq, All, any,
  Bool-cases, inl, inr,
}
use tinkerbell_hegel.Strings.{Str, join}
use tinkerbell_hegel.Strings.Order.{str_eq_iff, str_eq_refl}
use tinkerbell_hegel.Strings.Members.{contains}
use tinkerbell_hegel.GoMap.{has_key}
use tinkerbell_hegel.Sort.Ascending.{IsAscending-eq_of_contains}
use tinkerbell_hegel.StaticRoute.{
  Builder, Route, new_builder, set_at, route_of, from_endpoints, build,
}
use tinkerbell_hegel.StaticRoute.Contents.{has, has_key-of_has, endpoint_test, has-from_endpoints}
use tinkerbell_hegel.StaticRoute.WellFormed.{
  IsWellFormed, from_endpoints-IsWellFormed, new_builder-IsWellFormed,
}
use tinkerbell_hegel.StaticRoute.Listing.{entry, children-IsAscending, contains-children_iff}
use tinkerbell_hegel.StaticRoute.Routes.{
  endpoints, build-IsOwn, endpoints-build-IsAscending, contains-endpoints-build,
}

abbrev own : Builder → Str → Route
own b p = route_of b p (set_at p b)

-- Two lists of routes with the same endpoints, each route determined by its endpoint.
routes-eq :
    (f g : Str → Route) (rs ts : List Route)
    → All (λ r. r ≡ f r.endpoint) rs
    → All (λ r. r ≡ g r.endpoint) ts
    → ((p : Str) → f p ≡ g p)
    → endpoints rs ≡ endpoints ts
    → rs ≡ ts
routes-eq f g [] [] _ _ same e = refl
routes-eq f g [] (t ∷ ts) _ _ same e = cc
routes-eq f g (r ∷ rs) [] _ _ same e = cc
routes-eq f g (r ∷ rs) (t ∷ ts) (p, h) (q, k) same e =
    let heads : r.endpoint ≡ t.endpoint = cc in
    let tails : endpoints rs ≡ endpoints ts = cc in
    ap₂ ◌∷◌ (p ∙ ap f heads ∙ same t.endpoint ∙ sym q) (routes-eq f g rs ts h k same tails)

module _ (b b' : Builder) (w : IsWellFormed b) (w' : IsWellFormed b')
    (same : (p c : Str) → has b p c ≡ has b' p c) where
  has_key-eq : (p : Str) → has_key p b ≡ has_key p b'
  has_key-eq p =
      Bool-eq (has_key p b) (has_key p b')
        (λ h. let (c, k) = w.inhabited p h in has_key-of_has b' p c (sym (same p c) ∙ k))
        (λ h. let (c, k) = w'.inhabited p h in has_key-of_has b p c (same p c ∙ k))

  entry-eq : (p c : Str) → entry b p c ≡ entry b' p c
  entry-eq p c = rw (has_key-eq (join (p ∷ c ∷ []) b'/'))

  contains-children-eq :
      (p x : Str) → contains x (own b p).children ≡ contains x (own b' p).children
  unfolding has
  contains-children-eq p x =
      Bool-eq _ _
        (λ h.
          let (c, m, e) = (contains-children_iff b p (set_at p b) x).0 h in
          (contains-children_iff b' p (set_at p b') x).1
            (c, sym (same p c) ∙ m, sym (entry-eq p c) ∙ e))
        (λ h.
          let (c, m, e) = (contains-children_iff b' p (set_at p b') x).0 h in
          (contains-children_iff b p (set_at p b) x).1 (c, same p c ∙ m, entry-eq p c ∙ e))

  own-eq : (p : Str) → own b p ≡ own b' p
  unfolding has route_of
  own-eq p =
      let kids =
        IsAscending-eq_of_contains (own b p).children (own b' p).children
          (children-IsAscending b p (set_at p b) (w.sets_distinct p) (w.slashless p))
          (children-IsAscending b' p (set_at p b') (w'.sets_distinct p) (w'.slashless p))
          (contains-children-eq p) in
      λ i. record { endpoint = p; children = kids i }

  -- Well-formed builders that hold the same children under the same parents build the same
  -- routes, however their maps and sets are ordered.
  pub build-eq : build b ≡ build b'
  build-eq =
      routes-eq (own b) (own b') (build b) (build b') (build-IsOwn b w.keys_distinct)
        (build-IsOwn b' w'.keys_distinct) own-eq
        (IsAscending-eq_of_contains (endpoints (build b)) (endpoints (build b'))
          (endpoints-build-IsAscending b w.keys_distinct)
          (endpoints-build-IsAscending b' w'.keys_distinct)
          (λ p. contains-endpoints-build b p ∙ has_key-eq p ∙ sym (contains-endpoints-build b' p)))

any_sound :
    (f : Str → Bool) (xs : List Str)
    → any f xs ≡ true
    → (x : Str) × (contains x xs ≡ true) × (f x ≡ true)
unfolding contains
any_sound f [] h = cc
any_sound f (x ∷ xs) h = elim (Bool-cases (f x)) [
  | inl now ↦ (x, rw (str_eq_refl x) refl, now)
  | inr later ↦ let (y, m, e) = any_sound f xs (rw later at h) in (y, ground arith, e)
]

any_complete :
    (f : Str → Bool) (xs : List Str) (x : Str) → contains x xs ≡ true → f x ≡ true → any f xs ≡ true
unfolding contains
any_complete f [] x m h = cc
any_complete f (y ∷ ys) x m h = ground (arith, str_eq_iff y x, any_complete f ys x)

any-eq_of_contains :
    (f : Str → Bool) (xs ys : List Str)
    → ((x : Str) → contains x xs ≡ contains x ys)
    → any f xs ≡ any f ys
any-eq_of_contains f xs ys same =
    Bool-eq _ _ (λ h. let (x, m, e) = any_sound f xs h in any_complete f ys x (sym (same x) ∙ m) e)
      (λ h. let (x, m, e) = any_sound f ys h in any_complete f xs x (same x ∙ m) e)

-- The routes depend on which endpoints were added, and not on their order or repetition.
pub build-from_endpoints-eq :
    (es fs : List Str)
    → ((e : Str) → contains e es ≡ contains e fs)
    → build (from_endpoints es new_builder) ≡ build (from_endpoints fs new_builder)
build-from_endpoints-eq es fs same =
    build-eq (from_endpoints es new_builder) (from_endpoints fs new_builder)
      (from_endpoints-IsWellFormed es new_builder new_builder-IsWellFormed)
      (from_endpoints-IsWellFormed fs new_builder new_builder-IsWellFormed)
      (λ p c.
        has-from_endpoints es new_builder p c
        ∙ ap (λ t. t || has new_builder p c)
            (any-eq_of_contains (λ e. endpoint_test e p c) es fs same)
        ∙ sym (has-from_endpoints fs new_builder p c))
