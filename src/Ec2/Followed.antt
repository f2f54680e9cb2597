-- ===== src/Ec2/Followed.antt =====
-- The listings of the EC2 frontend can be followed.
use tinkerbell_hegel.Prelude.{
  Bool, true, not, ◌&&◌, List, [], ◌∷◌, ◌++◌, ◌≡◌, ◌⊎◌, inl, inr, refl, arith, all, All, All-append,
  All-map, if◌then◌else◌,
}
use tinkerbell_hegel.Strings
use tinkerbell_hegel.Strings.{Str, codes, str_eq, str_less, split, has_suffix}
use tinkerbell_hegel.Strings.Members.{contains}
use tinkerbell_hegel.GinUtil.{Registration, string, full_paths, alternate_endpoint}
use tinkerbell_hegel.StaticRoute.{Route, build, from_endpoints, new_builder}
use tinkerbell_hegel.Ec2.Routes.{FilterFunc, DataRoute, data_routes, join}
use tinkerbell_hegel.Ec2.Frontend.{
  Handler, Request, Frontend, group_prefix, data_handler, static_handler, configure,
}
use tinkerbell_hegel.Ec2.Registered.{endpoints_of, configure-pairs, data_pairs, static_pairs}

-- The path that a line of a listing leads to, from the path of the listing.
abbrev pub followed : Str → Str → Str
followed path line = if has_suffix path b'/' then path ++ line else path ++ codes "/" ++ line

-- The paths of data endpoints, with and without a trailing slash.
abbrev pub paths_of_data : List DataRoute → List Str
paths_of_data [] = []
paths_of_data (r ∷ rs) =
    (group_prefix ++ r.endpoint) ∷ (group_prefix ++ r.endpoint ++ codes "/") ∷ paths_of_data rs

-- The line leads to a path that is registered, and that is one of a data endpoint just if the line has
-- no slash at its end.
abbrev pub leads : List Str → Str → Str → Bool
leads registered path line =
    contains (followed path line) registered
    && (if has_suffix line b'/'
        then not (contains (followed path line) (paths_of_data data_routes))
        else contains (followed path line) (paths_of_data data_routes))

-- A registration of a data endpoint's path, with a handler of the backend's data.
abbrev pub ServesData : Frontend → Registration Handler → Type 0
ServesData f r =
    (filter : FilterFunc) × (r.handler ≡ data_handler f filter)
    × (contains (r.group ++ r.path) (paths_of_data data_routes) ≡ true)

-- A registration that answers each request with the same text, each line of which leads on.
abbrev pub ServesLinks : List Str → Registration Handler → Type 0
ServesLinks registered r =
    (body : Str) × ((req : Request) → r.handler req ≡ string 200 body ∷ [])
    × (all (leads registered (r.group ++ r.path)) (split body b'\n') ≡ true)

abbrev data_test : List DataRoute → Bool
data_test [] = true
data_test (r ∷ rs) =
    contains (group_prefix ++ r.endpoint) (paths_of_data data_routes)
    && (contains (group_prefix ++ alternate_endpoint r.endpoint) (paths_of_data data_routes)
        && data_test rs)

data_pairs-ServesData :
    (f : Frontend) (rs : List DataRoute)
    → data_test rs ≡ true
    → All (ServesData f) (data_pairs f rs)
unfolding data_pairs
data_pairs-ServesData f [] h = tt
data_pairs-ServesData f (r ∷ rs) h = (
  (r.filter, refl, ground (arith, h)),
  ((r.filter, refl, ground (arith, h)), data_pairs-ServesData f rs (ground (arith, h))),
)

abbrev links_test : List Str → List Route → Bool
links_test registered [] = true
links_test registered (r ∷ rs) =
    all (leads registered (group_prefix ++ r.endpoint)) (split (join r.children) b'\n')
    && (all (leads registered (group_prefix ++ alternate_endpoint r.endpoint))
          (split (join r.children) b'\n')
        && links_test registered rs)

static_pairs-ServesLinks :
    (registered : List Str) (rs : List Route)
    → links_test registered rs ≡ true
    → All (ServesLinks registered) (static_pairs rs)
unfolding static_pairs static_handler
static_pairs-ServesLinks registered [] h = tt
static_pairs-ServesLinks registered (r ∷ rs) h = (
  (join r.children, λ req. refl, ground (arith, h)),
  (
    (join r.children, λ req. refl, ground (arith, h)),
    static_pairs-ServesLinks registered rs (ground (arith, h)),
  ),
)

abbrev static_routes : List Route
static_routes = build (from_endpoints (endpoints_of data_routes) new_builder)

data_tested : data_test data_routes ≡ true
unfolding data_routes str_eq contains alternate_endpoint has_suffix
data_tested = refl

links_tested :
    (f : Frontend)
    → links_test (full_paths (data_pairs f data_routes ++ static_pairs static_routes)) static_routes
      ≡ true
unfolding data_pairs data_routes static_pairs build from_endpoints new_builder str_eq str_less
    contains alternate_endpoint has_suffix split join Strings.join
links_tested f = refl

abbrev Serves : Frontend → List Str → Registration Handler → Type 0
Serves f registered r = ServesData f r ⊎ ServesLinks registered r

-- Each registration of the frontend is one of two. Either it has the path of a data endpoint and a
-- handler of the backend's data; or it answers each request with 200 and a listing. Behind the
-- listing's own path, with one slash between, each line of a listing is a path that the frontend
-- registers: one of a data endpoint if the line has no slash at its end, and one of another listing
-- if it has.
pub configure-Serves :
    (f : Frontend)
    → All (λ r. ServesData f r ⊎ ServesLinks (full_paths (configure f [])) r) (configure f [])
configure-Serves f = rw (configure-pairs f []) (
    All-append (Serves f (full_paths (data_pairs f data_routes ++ static_pairs static_routes)))
      (data_pairs f data_routes) (static_pairs static_routes)
      (All-map _ _ (λ r h. inl h) (data_pairs f data_routes)
        (data_pairs-ServesData f data_routes data_tested))
      (All-map _ _ (λ r h. inr h) (static_pairs static_routes)
        (static_pairs-ServesLinks
          (full_paths (data_pairs f data_routes ++ static_pairs static_routes)) static_routes
          (links_tested f))))
