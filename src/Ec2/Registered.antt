-- ===== src/Ec2/Registered.antt =====
-- What `Configure` of the EC2 frontend registers.
use tinkerbell_hegel.Prelude.{
  true, List, [], ◌∷◌, ◌++◌, ◌≡◌, refl, sym, ap, ◌∙◌, append_assoc, append-nil,
}
use tinkerbell_hegel.Strings.{Str, codes, str_eq, str_less}
use tinkerbell_hegel.Strings
use tinkerbell_hegel.Strings.Members.{contains, IsDistinct, distinct_test, distinct_test-IsDistinct}
use tinkerbell_hegel.GinUtil.{Registration, slash_get, alternate_endpoint}
use tinkerbell_hegel.StaticRoute.{Route, Builder, build, new_builder, from_endpoints}
use tinkerbell_hegel.StaticRoute
use tinkerbell_hegel.Ec2.Routes.{DataRoute, data_routes}
use tinkerbell_hegel.Ec2.Frontend.{
  Handler, Frontend, group_prefix, data_handler, static_handler, bind_data, bind_static, configure,
}

-- An endpoint with and without its trailing slash, both below the version's prefix.
abbrev pub pair : Str → Handler → List (Registration Handler)
pair endpoint handler =
    record { group = codes "/2009-04-04"; path = endpoint; handler = handler }
    ∷ record { group = codes "/2009-04-04"; path = alternate_endpoint endpoint; handler = handler }
    ∷ []

slash_get-pair :
    (endpoint : Str) (handler : Handler) (calls : List (Registration Handler))
    → slash_get group_prefix endpoint handler calls ≡ calls ++ pair endpoint handler
unfolding slash_get
slash_get-pair endpoint handler calls = append_assoc calls _ _

unfoldable pub data_pairs : Frontend → List DataRoute → List (Registration Handler)
data_pairs f [] = []
data_pairs f (r ∷ rs) = pair r.endpoint (data_handler f r.filter) ++ data_pairs f rs

unfoldable pub static_pairs : List Route → List (Registration Handler)
static_pairs [] = []
static_pairs (r ∷ rs) = pair r.endpoint (static_handler r.children) ++ static_pairs rs

abbrev pub endpoints_of : List DataRoute → List Str
endpoints_of [] = []
endpoints_of (r ∷ rs) = r.endpoint ∷ endpoints_of rs

bind_data-pairs :
    (f : Frontend) (rs : List DataRoute) (calls : List (Registration Handler)) (b : Builder)
    → bind_data f rs (calls, b) ≡ (calls ++ data_pairs f rs, from_endpoints (endpoints_of rs) b)
unfolding bind_data data_pairs from_endpoints
bind_data-pairs f [] calls b = ap (λ l. (l, b)) (sym (append-nil calls))
bind_data-pairs f (r ∷ rs) calls b =
    rw (slash_get-pair r.endpoint (data_handler f r.filter) calls) (
      bind_data-pairs f rs _ _
      ∙ ap (λ l. (l, from_endpoints (endpoints_of rs) (StaticRoute.from_endpoint b r.endpoint)))
          (append_assoc calls (pair r.endpoint (data_handler f r.filter)) (data_pairs f rs)))

bind_static-pairs :
    (rs : List Route) (calls : List (Registration Handler))
    → bind_static rs calls ≡ calls ++ static_pairs rs
unfolding bind_static static_pairs
bind_static-pairs [] calls = sym (append-nil calls)
bind_static-pairs (r ∷ rs) calls =
    rw (slash_get-pair r.endpoint (static_handler r.children) calls) (
      bind_static-pairs rs _
      ∙ append_assoc calls (pair r.endpoint (static_handler r.children)) (static_pairs rs))

-- `Configure` adds, after what was registered before, each data endpoint with the handler of its own
-- filter and then each route of their index with the listing of its children, each with and
-- without a trailing slash.
pub configure-pairs :
    (f : Frontend) (router : List (Registration Handler))
    → configure f router
      ≡ router
        ++ (data_pairs f data_routes
            ++ static_pairs (build (from_endpoints (endpoints_of data_routes) new_builder)))
unfolding configure
configure-pairs f router =
    rw (bind_data-pairs f data_routes router new_builder)
      (bind_static-pairs _ _ ∙ append_assoc router (data_pairs f data_routes) _)

-- The paths of registrations, without their group.
abbrev pub paths : List (Registration Handler) → List Str
paths [] = []
paths (r ∷ rs) = r.path ∷ paths rs

pairs_distinct :
    (f : Frontend)
    → distinct_test (
        paths (
          data_pairs f data_routes
          ++ static_pairs (build (from_endpoints (endpoints_of data_routes) new_builder))))
      ≡ true
unfolding data_pairs data_routes static_pairs build from_endpoints new_builder str_eq str_less
    contains alternate_endpoint Strings.has_suffix
pairs_distinct f = refl

-- No path is registered twice, which a gin router would refuse.
pub configure-IsDistinct : (f : Frontend) → IsDistinct (paths (configure f []))
configure-IsDistinct f = rw (configure-pairs f []) (distinct_test-IsDistinct _ (pairs_distinct f))
