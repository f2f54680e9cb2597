-- ===== src/StaticRoute/Index.antt =====
-- The contract of the package: `Build` is the index of the endpoints, and there is one index only.
use mathlib.Core.Bool.{false≢true}
use tinkerbell_hegel.Prelude.{
  true, false, List, [], ◌∷◌, ◌++◌, ◌≡◌, ◌↔◌, ◌⊎◌, inl, inr, refl, sym, ap, ◌∙◌, arith, Bool-cases,
  any, All, All-map,
}
use tinkerbell_hegel.Strings.{Str, codes, str_eq, join}
use tinkerbell_hegel.Strings.Order.{str_eq_iff, str_eq_refl}
use tinkerbell_hegel.Strings.Members.{contains}
use tinkerbell_hegel.GoMap.{has_key}
use tinkerbell_hegel.Sort.Ascending.{IsAscending}
use tinkerbell_hegel.StaticRoute.{
  Builder, Route, new_builder, set_at, parts_of, route_of, from_endpoints, build,
}
use tinkerbell_hegel.StaticRoute.Levels.{IsLevel}
use tinkerbell_hegel.StaticRoute.Contents.{
  has, has_key-of_has, endpoint_test, endpoint_test-iff_IsLevel, has-from_endpoints,
}
use tinkerbell_hegel.StaticRoute.WellFormed.{
  IsWellFormed, from_endpoints-IsWellFormed, new_builder-IsWellFormed,
}
use tinkerbell_hegel.StaticRoute.Listing.{entry, children-IsAscending, contains-children_iff}
use tinkerbell_hegel.StaticRoute.Routes.{
  endpoints, IsOwn, build-IsOwn, endpoints-build-IsAscending, contains-endpoints-build,
}

-- Some endpoint has the part `c` directly below the path `p`.
abbrev pub Below : List Str → Str → Str → Type 0
Below es p c = (e : Str) × (contains e es ≡ true) × IsLevel (parts_of e) p c

-- How `c` is listed under `p`: with a slash if something lies below it.
abbrev pub ListedAs : List Str → Str → Str → Str → Type 0
ListedAs es p c x =
    (((d : Str) × Below es (join (p ∷ c ∷ []) b'/') d) × (x ≡ c ++ codes "/"))
    ⊎ ((¬ ((d : Str) × Below es (join (p ∷ c ∷ []) b'/') d)) × (x ≡ c))

-- The children are ascending, and are the parts below the route's endpoint, each as it is listed.
pub record IsListing (es : List Str) (r : Route) : Type 0 where
  pub ascending : IsAscending r.children
  pub children_iff :
      (x : Str)
      → (contains x r.children ≡ true)
        ↔ ((c : Str) × Below es r.endpoint c × ListedAs es r.endpoint c x)

-- The routes are ascending, there is one for each path with something below it, and each is right.
pub record IsIndex (es : List Str) (rs : List Route) : Type 0 where
  pub ascending : IsAscending (endpoints rs)
  pub endpoints_iff : (p : Str) → (contains p (endpoints rs) ≡ true) ↔ ((c : Str) × Below es p c)
  pub listings : All (IsListing es) rs

any-endpoint_test_sound :
    (es : List Str) (p c : Str) → any (λ e. endpoint_test e p c) es ≡ true → Below es p c
unfolding contains
any-endpoint_test_sound [] p c h = cc
any-endpoint_test_sound (e ∷ es) p c h = elim (Bool-cases (endpoint_test e p c)) [
  | inl now ↦ (e, rw (str_eq_refl e) refl, (endpoint_test-iff_IsLevel e p c).0 now)
  | inr later ↦
      let (d, m, l) = any-endpoint_test_sound es p c (rw later at h) in (d, ground arith, l)
]

any-endpoint_test_complete :
    (es : List Str) (e p c : Str)
    → contains e es ≡ true
    → IsLevel (parts_of e) p c
    → any (λ e. endpoint_test e p c) es ≡ true
unfolding contains
any-endpoint_test_complete [] e p c m l = cc
any-endpoint_test_complete (f ∷ es) e p c m l = elim (Bool-cases (str_eq f e)) [
  | inl same ↦ rw ((str_eq_iff f e).0 same) (rw ((endpoint_test-iff_IsLevel e p c).1 l) refl)
  | inr other ↦ rw (any-endpoint_test_complete es e p c (rw other at m) l) (ground arith)
]

abbrev built : List Str → Builder
built es = from_endpoints es new_builder

built-IsWellFormed : (es : List Str) → IsWellFormed (built es)
built-IsWellFormed es = from_endpoints-IsWellFormed es new_builder new_builder-IsWellFormed

has-new_builder : (p c : Str) → has new_builder p c ≡ false
unfolding has new_builder
has-new_builder p c = refl

has-built_iff : (es : List Str) (p c : Str) → (has (built es) p c ≡ true) ↔ Below es p c
has-built_iff es p c = (
  λ h.
      any-endpoint_test_sound es p c
        (ground (arith, has-from_endpoints es new_builder p c, has-new_builder p c)),
  λ (e, m, l).
      has-from_endpoints es new_builder p c ∙ rw (any-endpoint_test_complete es e p c m l) refl,
)

has_key-built_iff :
    (es : List Str) (p : Str) → (has_key p (built es) ≡ true) ↔ ((c : Str) × Below es p c)
has_key-built_iff es p = (
  λ k. let (c, h) = (built-IsWellFormed es).inhabited p k in (c, (has-built_iff es p c).0 h),
  λ (c, l). has_key-of_has (built es) p c ((has-built_iff es p c).1 l),
)

entry-ListedAs : (es : List Str) (p c : Str) → ListedAs es p c (entry (built es) p c)
entry-ListedAs es p c = elim (Bool-cases (has_key (join (p ∷ c ∷ []) b'/') (built es))) [
  | inl parent ↦ rw parent (inl ((has_key-built_iff es _).0 parent, refl))
  | inr leaf ↦ rw leaf (inr (λ d. false≢true (sym leaf ∙ (has_key-built_iff es _).1 d), refl))
]

ListedAs-eq : (es : List Str) (p c x y : Str) → ListedAs es p c x → ListedAs es p c y → x ≡ y
ListedAs-eq es p c x y (inl (_, e)) (inl (_, f)) = e ∙ sym f
ListedAs-eq es p c x y (inl (d, _)) (inr (n, _)) = absurd (n d)
ListedAs-eq es p c x y (inr (n, _)) (inl (d, _)) = absurd (n d)
ListedAs-eq es p c x y (inr (_, e)) (inr (_, f)) = e ∙ sym f

module _ (es : List Str) (r : Route) (own : IsOwn (built es) r) where
  own_children :
      r.children ≡ (route_of (built es) r.endpoint (set_at r.endpoint (built es))).children
  own_children = ap (λ (x : Route). x.children) own

  children_sound :
      (x : Str)
      → contains x r.children ≡ true
      → (c : Str) × Below es r.endpoint c × ListedAs es r.endpoint c x
  unfolding has
  children_sound x h =
      let (c, m, e) =
        (contains-children_iff (built es) r.endpoint (set_at r.endpoint (built es)) x).0
          (rw own_children at h) in
      (c, (has-built_iff es r.endpoint c).0 m, rw (← e) (entry-ListedAs es r.endpoint c))

  children_complete :
      (x c : Str)
      → Below es r.endpoint c
      → ListedAs es r.endpoint c x
      → contains x r.children ≡ true
  unfolding has
  children_complete x c l a = rw own_children (
      (contains-children_iff (built es) r.endpoint (set_at r.endpoint (built es)) x).1 (
        c,
        (has-built_iff es r.endpoint c).1 l,
        ListedAs-eq es r.endpoint c _ x (entry-ListedAs es r.endpoint c) a,
      ))

  built-IsListing : IsListing es r
  unfolding has
  built-IsListing = record {
    ascending =
        let w = built-IsWellFormed es in
        rw own_children (
          children-IsAscending (built es) r.endpoint (set_at r.endpoint (built es))
            (w.sets_distinct r.endpoint) (w.slashless r.endpoint));
    children_iff = λ x. (children_sound x, λ (c, l, a). children_complete x c l a);
  }

-- `Build` after `FromEndpoint` on each of the endpoints is their index.
pub build-IsIndex : (es : List Str) → IsIndex es (build (from_endpoints es new_builder))
build-IsIndex es =
    let w = built-IsWellFormed es in
    record {
      ascending = endpoints-build-IsAscending (built es) w.keys_distinct;
      endpoints_iff = λ p. rw (contains-endpoints-build (built es) p) (has_key-built_iff es p);
      listings =
          All-map _ _ (built-IsListing es) (build (built es))
            (build-IsOwn (built es) w.keys_distinct);
    }
