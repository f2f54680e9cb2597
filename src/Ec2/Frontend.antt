-- ===== src/Ec2/Frontend.antt =====
-- internal/frontend/ec2/frontend.go. A handler maps a request to the calls that it makes on its
-- context; `Configure` returns the registrations that it adds to those made before.
use tinkerbell_hegel.Prelude.{ℕ, List, [], ◌∷◌, none, some, if◌then◌else◌}
use tinkerbell_hegel.Strings.{Str, codes}
use tinkerbell_hegel.Errors.{
  GoError, Result, ok, err, instance_not_found, is_error, as_http, http_new, http_wrap,
}
use tinkerbell_hegel.Net.{remote_addr_ip}
use tinkerbell_hegel.GinUtil.{Call, abort_with_error, string, Registration, slash_get}
use tinkerbell_hegel.StaticRoute
use tinkerbell_hegel.StaticRoute.{Builder, Route}
use tinkerbell_hegel.Ec2.{Instance}
use tinkerbell_hegel.Ec2.Routes.{FilterFunc, DataRoute, data_routes, join}

-- the part of `http.Request` that the frontend reads
pub record Request : Type 0 where
  pub remote_addr : Str

-- the frontend answers with text only
pub data NoJson : Type 0 where

abbrev pub Handler : Type 0
Handler = Request → List (Call NoJson)

-- `Client`: the backend, by its method `GetEC2Instance`
pub record Client : Type 0 where
  pub get_ec2_instance : Str → Result Instance

pub record Frontend : Type 0 where
  pub client : Client

unfoldable pub new : Client → Frontend
new client = record { client = client }

-- how `getInstance` answers a failure of the backend
abbrev pub client_error : GoError → GoError
client_error e =
    if is_error e instance_not_found
    then http_new 404 (codes "no hardware found for source ip")
    else http_wrap 500 e

unfoldable pub get_instance : Frontend → Request → Result Instance
unfolding http_new http_wrap
get_instance f r = elim (remote_addr_ip r.remote_addr) [
  | err _ ↦ err (http_new 400 (codes "invalid remote addr"))
  | ok ip ↦ elim (f.client.get_ec2_instance ip) [
    | err e ↦ err (client_error e)
    | ok found ↦ ok found
  ]
]

abbrev pub error_status : GoError → ℕ
error_status e = elim (as_http e) [ some code ↦ code | none ↦ 500 ]

-- the handler that `dataEndpointBinder` registers
unfoldable pub data_handler : Frontend → FilterFunc → Handler
unfolding get_instance as_http
data_handler f filter r = elim (get_instance f r) [
  | err e ↦ abort_with_error (error_status e) e ∷ []
  | ok found ↦ string 200 (filter found) ∷ []
]

-- the handler that `staticEndpointBinder` registers
unfoldable pub static_handler : List Str → Handler
unfolding join
static_handler child_endpoints r = string 200 (join child_endpoints) ∷ []

abbrev pub group_prefix : Str
group_prefix = codes "/2009-04-04"

-- the loop over `dataRoutes`, which adds to the router and to the builder of static routes
unfoldable pub bind_data :
    Frontend
    → List DataRoute
    → List (Registration Handler) × Builder
    → List (Registration Handler) × Builder
unfolding data_handler slash_get StaticRoute.from_endpoint
bind_data f [] st = st
bind_data f (r ∷ rs) (calls, static_routes) = bind_data f rs (
  slash_get group_prefix r.endpoint (data_handler f r.filter) calls,
  StaticRoute.from_endpoint static_routes r.endpoint,
)

-- the loop over the static routes
unfoldable pub bind_static : List Route → List (Registration Handler) → List (Registration Handler)
unfolding static_handler slash_get
bind_static [] calls = calls
bind_static (r ∷ rs) calls =
    bind_static rs (slash_get group_prefix r.endpoint (static_handler r.children) calls)

unfoldable pub configure : Frontend → List (Registration Handler) → List (Registration Handler)
configure f router =
    let (calls, static_routes) = bind_data f data_routes (router, StaticRoute.new_builder) in
    bind_static (StaticRoute.build static_routes) calls
