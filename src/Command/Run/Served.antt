-- ===== src/Command/Run/Served.antt =====
-- What a server that `Run` starts answers at the data endpoints.
use tinkerbell_hegel.Prelude.{
  true, false, List, [], ◌∷◌, ◌++◌, Option, none, some, ◌≡◌, refl, sym, subst, ◌∙◌, All, All-map,
  if◌then◌else◌,
}
use tinkerbell_hegel.Strings
use tinkerbell_hegel.Strings.{Str, codes, str_eq, str_less}
use tinkerbell_hegel.Strings.Members.{contains}
use tinkerbell_hegel.Errors.{Result}
use tinkerbell_hegel.Net.{remote_addr_ip}
use tinkerbell_hegel.Contexts.{Context}
use tinkerbell_hegel.GinUtil.{Registration, alternate_endpoint}
use tinkerbell_hegel.StaticRoute.{build, from_endpoints, new_builder}
use tinkerbell_hegel.Ec2.Routes.{DataRoute, data_routes}
use tinkerbell_hegel.Ec2.Frontend
use tinkerbell_hegel.Ec2.Frontend.{
  Request, Frontend, Client, group_prefix, data_handler, configure, bind_data, bind_static,
}
use tinkerbell_hegel.Healthcheck.{BuildSetting}
use tinkerbell_hegel.Kubernetes
use tinkerbell_hegel.Kubernetes.{Hardware}
use tinkerbell_hegel.Kubernetes.Retrieve.{ListsByIndex}
use tinkerbell_hegel.Kubernetes.Connected.{IndexesObjects, ok-ListsByIndex}
use tinkerbell_hegel.Strings.Order.{eq_of_str_eq}
use tinkerbell_hegel.Serving.{kubernetes_frontend, serve_cluster, data_handler-kubernetes}
use tinkerbell_hegel.Backend.{RootCommandOptions, kubernetes}
use tinkerbell_hegel.Backend.Choice.{new-to_backend_options, new_kubernetes-ok}
use tinkerbell_hegel.Command.Run.{Outside, Running, serves, run, ec2_client, hack_client}
use tinkerbell_hegel.Command.Run.Started.{run-IsStarted}
use tinkerbell_hegel.Command.{Handler, ec2, configure_router}

-- The handler of the first registration with a path.
abbrev pub handler_at {ℓ} : {H : Type ℓ} → Str → List (Registration H) → Option H
handler_at path [] = none
handler_at path (r ∷ rs) =
    if str_eq (r.group ++ r.path) path then some r.handler else handler_at path rs

-- A data endpoint has one handler, with and without a trailing slash.
abbrev pub HandledBy :
    {I Reading : Type 0}
    → List (Registration (Handler I Reading))
    → DataRoute
    → Frontend.Handler
    → Type 0
HandledBy router r h =
    (handler_at (group_prefix ++ r.endpoint) router ≡ some (ec2 h))
    × (handler_at (group_prefix ++ r.endpoint ++ codes "/") router ≡ some (ec2 h))

configure_router-data_routes :
    {I : Type 0} (Reading : Type 0) (settings : List BuildSetting) (be : Client)
    (get_hack_instance : Str → Result I)
    → All
        (λ r.
          HandledBy
            (configure_router {Reading = Reading} settings be get_hack_instance)
            r
            (data_handler (Frontend.new be) r.filter))
        data_routes
unfolding configure_router configure bind_data bind_static data_routes build from_endpoints
    new_builder str_eq str_less contains alternate_endpoint Strings.has_suffix Frontend.new
configure_router-data_routes Reading settings be get_hack_instance = (
  (refl, refl),
  (
    (refl, refl),
    (
      (refl, refl),
      (
        (refl, refl),
        (
          (refl, refl),
          (
            (refl, refl),
            (
              (refl, refl),
              (
                (refl, refl),
                (
                  (refl, refl),
                  (
                    (refl, refl),
                    (
                      (refl, refl),
                      (
                        (refl, refl),
                        (
                          (refl, refl),
                          ((refl, refl), ((refl, refl), ((refl, refl), ((refl, refl), tt)))),
                        ),
                      ),
                    ),
                  ),
                ),
              ),
            ),
          ),
        ),
      ),
    ),
  ),
)

module _ {Request_ : Type 0} (Reading : Type 0) (o : Outside Request_) where
  pub started_routes :
      (ctx : Context) (opts : RootCommandOptions) (d : o.prometheus.Registry)
      (s : Running o Reading)
      → run o Reading ctx opts d ≡ serves s
      → All
          (λ r. HandledBy s.router r (data_handler (Frontend.new (ec2_client s.backend)) r.filter))
          data_routes
  started_routes ctx opts d s h =
      let i = run-IsStarted o ctx opts d s h in
      subst
        (λ router.
          All
            (λ r. HandledBy router r (data_handler (Frontend.new (ec2_client s.backend)) r.filter))
            data_routes)
        (sym i.router)
        (configure_router-data_routes Reading o.settings (ec2_client s.backend)
          (hack_client o s.backend))

  -- A server that is started over a cluster, which indexes objects as documented, has a backend
  -- that lists the cluster's hardware by the program's index.
  pub started_kubernetes :
      (ctx : Context) (opts : RootCommandOptions) (d : o.prometheus.Registry)
      (s : Running o Reading) (items : List Hardware)
      → run o Reading ctx opts d ≡ serves s
      → str_eq opts.backend (codes "kubernetes") ≡ true
      → IndexesObjects o.world.api items
      → (b : Kubernetes.Backend) × (s.backend ≡ kubernetes b) × ListsByIndex b items
  unfolding str_eq
  started_kubernetes ctx opts d s items h named indexes =
      let i = run-IsStarted o ctx opts d s h in
      let name = eq_of_str_eq opts.backend (codes "kubernetes") named in
      let other : str_eq opts.backend (codes "flatfile") ≡ false = rw name refl in
      let chosen =
        sym (new-to_backend_options o.world (o.init_open_telemetry ctx) opts) ∙ i.backend in
      let (b, same, made) = new_kubernetes-ok o.world _ _ s.backend (rw (other, named) at chosen) in
      (b, same, ok-ListsByIndex o.world.api items indexes _ _ b made)

  -- A server that is started over a cluster, which indexes objects as documented, has a handler at the
  -- path of every data endpoint, with and without a trailing slash. It answers 400 to a request whose
  -- remote address has no host, 404 where no hardware of the cluster has the host as an address, with
  -- the endpoint's data of the only hardware that has it, and 500 where more than one has it.
  pub run-kubernetes :
      (ctx : Context) (opts : RootCommandOptions) (d : o.prometheus.Registry)
      (s : Running o Reading) (items : List Hardware)
      → run o Reading ctx opts d ≡ serves s
      → str_eq opts.backend (codes "kubernetes") ≡ true
      → IndexesObjects o.world.api items
      → All
          (λ r.
            (h : Frontend.Handler) × HandledBy s.router r h
            × ((req : Request)
                → h req ≡ serve_cluster r.filter items (remote_addr_ip req.remote_addr) ∷ []))
          data_routes
  unfolding kubernetes_frontend
  run-kubernetes ctx opts d s items h named indexes =
      let (b, same, lists) = started_kubernetes ctx opts d s items h named indexes in
      All-map _ _
        (λ r handled. (
          data_handler (Frontend.new (ec2_client s.backend)) r.filter,
          handled,
          λ req. rw same (data_handler-kubernetes r.filter b items req lists),
        ))
        data_routes (started_routes ctx opts d s h)
