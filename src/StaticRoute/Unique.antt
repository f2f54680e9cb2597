-- ===== src/StaticRoute/Unique.antt =====
-- The index of a list of endpoints is unique, so the contract determines every byte of the routes.
use tinkerbell_hegel.Prelude.{
  List, [], ◌∷◌, ◌≡◌, ◌↔◌, inl, inr, refl, sym, subst, ap₂, ◌∙◌, Bool-eq, All, All-map,
}
use tinkerbell_hegel.Strings.{Str, join}
use tinkerbell_hegel.Strings.Members.{contains}
use tinkerbell_hegel.Sort.Ascending.{IsAscending-eq_of_contains}
use tinkerbell_hegel.StaticRoute.{Route, new_builder, from_endpoints, build}
use tinkerbell_hegel.StaticRoute.Routes.{endpoints}
use tinkerbell_hegel.StaticRoute.Index.{Below, ListedAs, IsIndex, IsListing, build-IsIndex}

route-eq : (r t : Route) → r.endpoint ≡ t.endpoint → r.children ≡ t.children → r ≡ t
route-eq r t e k i = record { endpoint = e i; children = k i }

IsListing-eq :
    (es : List Str) (r t : Route)
    → r.endpoint ≡ t.endpoint
    → IsListing es r
    → IsListing es t
    → r ≡ t
IsListing-eq es r t e a b = route-eq r t e (
    IsAscending-eq_of_contains r.children t.children a.ascending b.ascending λ x.
      Bool-eq _ _ (λ h. (b.children_iff x).1 (rw e at ((a.children_iff x).0 h)))
        (λ h. (a.children_iff x).1 (rw (← e) at ((b.children_iff x).0 h))))

listings-eq :
    (es : List Str) (rs ts : List Route)
    → All (IsListing es) rs
    → All (IsListing es) ts
    → endpoints rs ≡ endpoints ts
    → rs ≡ ts
listings-eq es [] [] _ _ e = refl
listings-eq es [] (t ∷ ts) _ _ e = cc
listings-eq es (r ∷ rs) [] _ _ e = cc
listings-eq es (r ∷ rs) (t ∷ ts) (p, h) (q, k) e =
    let heads : r.endpoint ≡ t.endpoint = cc in
    let tails : endpoints rs ≡ endpoints ts = cc in
    ap₂ ◌∷◌ (IsListing-eq es r t heads p q) (listings-eq es rs ts h k tails)

-- Two indexes of the same endpoints are equal.
pub IsIndex-unique : (es : List Str) (rs ts : List Route) → IsIndex es rs → IsIndex es ts → rs ≡ ts
IsIndex-unique es rs ts a b = listings-eq es rs ts a.listings b.listings (
    IsAscending-eq_of_contains (endpoints rs) (endpoints ts) a.ascending b.ascending λ p.
      Bool-eq _ _ (λ h. (b.endpoints_iff p).1 ((a.endpoints_iff p).0 h))
        (λ h. (a.endpoints_iff p).1 ((b.endpoints_iff p).0 h)))

-- `Build` after `FromEndpoint` of each of some endpoints gives the one index of them: routes are it
-- just where they are ascending, one for each path that has something directly below it, and the
-- children of each are, ascending, the parts directly below its path, with a slash just if
-- something lies below them too.
pub IsIndex-build :
    (es : List Str) (rs : List Route) → IsIndex es rs ↔ (rs ≡ build (from_endpoints es new_builder))
IsIndex-build es rs = (
  λ h. IsIndex-unique es rs (build (from_endpoints es new_builder)) h (build-IsIndex es),
  λ e. subst (IsIndex es) (sym e) (build-IsIndex es),
)

Below-same :
    (es fs : List Str)
    → ((e : Str) → contains e es ≡ contains e fs)
    → (p c : Str) → Below es p c
    → Below fs p c
Below-same es fs same p c (e, m, l) = (e, sym (same e) ∙ m, l)

ListedAs-same :
    (es fs : List Str)
    → ((e : Str) → contains e es ≡ contains e fs)
    → (p c x : Str) → ListedAs es p c x
    → ListedAs fs p c x
ListedAs-same es fs same p c x (inl ((d, b), e)) =
    inl ((d, Below-same es fs same (join (p ∷ c ∷ []) b'/') d b), e)
ListedAs-same es fs same p c x (inr (n, e)) =
    inr ((λ (d, b). n (d, Below-same fs es (λ y. sym (same y)) (join (p ∷ c ∷ []) b'/') d b)), e)

IsListing-same :
    (es fs : List Str)
    → ((e : Str) → contains e es ≡ contains e fs)
    → (r : Route) → IsListing es r
    → IsListing fs r
IsListing-same es fs same r i = record {
  ascending = i.ascending;
  children_iff = λ x. (
    λ h.
        let (c, b, l) = (i.children_iff x).0 h in
        (c, Below-same es fs same r.endpoint c b, ListedAs-same es fs same r.endpoint c x l),
    λ (c, b, l).
        let back : (e : Str) → contains e fs ≡ contains e es = λ y. sym (same y) in
        (i.children_iff x).1
          (c, Below-same fs es back r.endpoint c b, ListedAs-same fs es back r.endpoint c x l),
  );
}

-- An index depends on which endpoints there are only.
pub IsIndex-same :
    (es fs : List Str)
    → ((e : Str) → contains e es ≡ contains e fs)
    → (rs : List Route) → IsIndex es rs
    → IsIndex fs rs
IsIndex-same es fs same rs i = record {
  ascending = i.ascending;
  endpoints_iff = λ p. (
    λ h. let (c, b) = (i.endpoints_iff p).0 h in (c, Below-same es fs same p c b),
    λ (c, b). (i.endpoints_iff p).1 (c, Below-same fs es (λ y. sym (same y)) p c b),
  );
  listings = All-map _ _ (IsListing-same es fs same) rs i.listings;
}

-- `Build` gives the same routes after any two runs of `FromEndpoint` over the same endpoints, in
-- whatever order and however often each is given.
pub build-eq_of_contains :
    (es fs : List Str)
    → ((e : Str) → contains e es ≡ contains e fs)
    → build (from_endpoints es new_builder) ≡ build (from_endpoints fs new_builder)
build-eq_of_contains es fs same =
    (IsIndex-build fs (build (from_endpoints es new_builder))).0
      (IsIndex-same es fs same (build (from_endpoints es new_builder)) (build-IsIndex es))
