-- ===== src/StaticRoute/Routes.antt =====
-- The routes of `Build`: one for each key of the builder, in ascending order of the endpoints.
use mathlib.Core.List.{map}
use tinkerbell_hegel.Prelude.{
  false, List, [], ◌∷◌, ◌++◌, ◌≡◌, refl, sym, ap, ◌∙◌, arith, All, append-nil, append_assoc, some,
}
use tinkerbell_hegel.Strings.{Str}
use tinkerbell_hegel.Strings.Order.{str_eq_iff, str_eq_refl}
use tinkerbell_hegel.Strings.Members.{contains, IsDistinct}
use tinkerbell_hegel.GoMap.{lookup, keys, has_key}
use tinkerbell_hegel.Sort.{sort_strings}
use tinkerbell_hegel.Sort.Keyed.{map-sort_by, All-sort_by}
use tinkerbell_hegel.Sort.Ascending.{IsAscending, contains-sort_strings, sort_strings-IsAscending}
use tinkerbell_hegel.StaticRoute.{
  UnorderedSet, Builder, Route, set_at, route_of, build_routes, build,
}

abbrev pub endpoints : List Route → List Str
endpoints = map (λ (r : Route). r.endpoint)

abbrev binding_route : Builder → Str × UnorderedSet → Route
binding_route b e = route_of b e.0 e.1

build_routes-map :
    (b m : Builder) (acc : List Route) → build_routes b m acc ≡ acc ++ map (binding_route b) m
unfolding build_routes
build_routes-map b [] acc = sym (append-nil acc)
build_routes-map b ((p, s) ∷ m) acc =
    build_routes-map b m (acc ++ route_of b p s ∷ [])
    ∙ append_assoc acc (route_of b p s ∷ []) (map (binding_route b) m)

endpoints-bindings : (b m : Builder) → endpoints (map (binding_route b) m) ≡ keys m
unfolding keys route_of
endpoints-bindings b [] = refl
endpoints-bindings b ((p, s) ∷ m) = ap (◌∷◌ p) (endpoints-bindings b m)

pub endpoints-build : (b : Builder) → endpoints (build b) ≡ sort_strings (keys b)
unfolding build
endpoints-build b =
    map-sort_by (λ (r : Route). r.endpoint) (build_routes b b [])
    ∙ ap sort_strings (ap endpoints (build_routes-map b b []) ∙ endpoints-bindings b b)

-- Each binding of a map with distinct keys is what its key looks up.
abbrev Binds : Builder → Builder → Type 0
Binds b = All (λ e. lookup e.0 b ≡ some e.1)

Binds-cons :
    (k : Str) (v : UnorderedSet) (b m : Builder)
    → contains k (keys m) ≡ false
    → Binds b m
    → Binds ((k, v) ∷ b) m
unfolding lookup keys contains
Binds-cons k v b [] n h = tt
Binds-cons k v b ((j, w) ∷ m) n (e, h) =
    (ground (arith, str_eq_iff k j, str_eq_iff j k), Binds-cons k v b m (ground arith) h)

Binds-self : (b : Builder) → IsDistinct (keys b) → Binds b b
unfolding keys
Binds-self [] h = tt
Binds-self ((k, v) ∷ b) (n, h) =
    (unfold lookup in rw (str_eq_refl k), Binds-cons k v b b n (Binds-self b h))

-- A route is determined by its endpoint.
abbrev pub IsOwn : Builder → Route → Type 0
IsOwn b r = r ≡ route_of b r.endpoint (set_at r.endpoint b)

bindings-IsOwn : (b m : Builder) → Binds b m → All (IsOwn b) (map (binding_route b) m)
unfolding route_of
bindings-IsOwn b [] h = tt
bindings-IsOwn b ((p, s) ∷ m) (e, h) = (rw e, bindings-IsOwn b m h)

pub build-IsOwn : (b : Builder) → IsDistinct (keys b) → All (IsOwn b) (build b)
unfolding build
build-IsOwn b h =
    All-sort_by (λ (r : Route). r.endpoint) (IsOwn b) (build_routes b b [])
      (rw (build_routes-map b b []) (bindings-IsOwn b b (Binds-self b h)))

pub endpoints-build-IsAscending :
    (b : Builder) → IsDistinct (keys b) → IsAscending (endpoints (build b))
endpoints-build-IsAscending b h = rw (endpoints-build b) (sort_strings-IsAscending (keys b) h)

pub contains-endpoints-build :
    (b : Builder) (p : Str) → contains p (endpoints (build b)) ≡ has_key p b
unfolding has_key
contains-endpoints-build b p = rw (endpoints-build b) (contains-sort_strings p (keys b))
