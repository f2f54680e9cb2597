-- ===== src/Command/Run/Others.antt =====
-- What a server that `Run` starts answers to the health check and to the hack frontend's clients.
use tinkerbell_hegel.Prelude.{
  ℕ, Bool, true, Bool-cases, inl, inr, List, [], ◌∷◌, some, ◌≡◌, refl, ap, ◌∙◌, arith,
  if◌then◌else◌,
}
use tinkerbell_hegel.Strings
use tinkerbell_hegel.Strings.{Str, codes, str_eq, str_less}
use tinkerbell_hegel.Strings.Members.{contains}
use tinkerbell_hegel.Errors.{
  GoError, Result-cases, text, sentinel, no_hardware_found, Result, ok, err,
}
use tinkerbell_hegel.Net.{remote_addr_ip}
use tinkerbell_hegel.Contexts.{Signal, Context}
use tinkerbell_hegel.GinUtil.{Call, json, abort_with_error, alternate_endpoint}
use tinkerbell_hegel.StaticRoute.{build, from_endpoints, new_builder}
use tinkerbell_hegel.Ec2.Routes.{data_routes}
use tinkerbell_hegel.Ec2.Frontend.{Client, configure, bind_data, bind_static}
use tinkerbell_hegel.Healthcheck.{BuildSetting, Health, git_revision, new_handler}
use tinkerbell_hegel.Hack.{metadata_handler, respond}
use tinkerbell_hegel.Hack.Model
use tinkerbell_hegel.Flatfile
use tinkerbell_hegel.Kubernetes
use tinkerbell_hegel.Kubernetes.{Hardware, to_hack_instance}
use tinkerbell_hegel.Kubernetes.Retrieve.{
  ListsByIndex, with_address, with_address-empty, matching-with_address,
}
use tinkerbell_hegel.Kubernetes.Connected.{IndexesObjects}
use tinkerbell_hegel.Backend
use tinkerbell_hegel.Backend.{RootCommandOptions, flatfile, kubernetes}
use tinkerbell_hegel.Command.{health, hack, configure_router}
use tinkerbell_hegel.Command.Run.{
  Outside, Running, serves, run, ec2_client, hack_client, is_healthy,
}
use tinkerbell_hegel.Command.Run.Started.{run-IsStarted}
use tinkerbell_hegel.Command.Run.Served.{handler_at, started_kubernetes}

configure_router-others :
    {I : Type 0} (Reading : Type 0) (settings : List BuildSetting) (be : Client)
    (get_hack_instance : Str → Result I)
    → (handler_at
          (codes "/healthz")
          (configure_router {Reading = Reading} settings be get_hack_instance)
        ≡ some (health (new_handler settings)))
      × (handler_at
            (codes "/metadata")
            (configure_router {Reading = Reading} settings be get_hack_instance)
          ≡ some (hack (metadata_handler get_hack_instance)))
unfolding configure_router configure bind_data bind_static data_routes build from_endpoints
    new_builder str_eq str_less contains alternate_endpoint Strings.has_suffix
configure_router-others Reading settings be get_hack_instance = (refl, refl)

-- The status of the health check in a process that has received some signals: 500 just for a cluster
-- whose context is done.
abbrev pub health_status : List Signal → Backend.Client → ℕ
health_status received (flatfile b) = 200
health_status received (kubernetes b) = if b.closer received then 500 else 200

module _ {Request : Type 0} (Reading : Type 0) (o : Outside Request) where
  started_others :
      (ctx : Context) (opts : RootCommandOptions) (d : o.prometheus.Registry)
      (s : Running o Reading)
      → run o Reading ctx opts d ≡ serves s
      → (handler_at (codes "/healthz") s.router ≡ some (health (new_handler o.settings)))
        × (handler_at (codes "/metadata") s.router
            ≡ some (hack (metadata_handler (hack_client o s.backend))))
  started_others ctx opts d s h =
      let i = run-IsStarted o ctx opts d s h in
      rw i.router (
        configure_router-others Reading o.settings (ec2_client s.backend) (hack_client o s.backend))

  new_handler-health_status :
      (received : List Signal) (be : Backend.Client) (since : Reading) (goroutines : ℕ)
      → new_handler o.settings (is_healthy received be) since goroutines
        ≡ json (health_status received be) (record {
          git_rev = git_revision o.settings;
          uptime = since;
          goroutines = goroutines;
          hardware_client_available = is_healthy received be;
        })
          ∷ []
  unfolding new_handler Flatfile.is_healthy Kubernetes.is_healthy
  new_handler-health_status received (flatfile b) since goroutines = refl
  new_handler-health_status received (kubernetes b) since goroutines =
      elim (Bool-cases (b.closer received)) [
        | inl done ↦ ground (arith, done)
        | inr running ↦ ground (arith, running)
      ]

  -- A server that is started answers its health check once, with the build's revision, and with 500 if
  -- it is over a cluster whose context is done, 200 otherwise.
  pub run-healthz :
      (ctx : Context) (opts : RootCommandOptions) (d : o.prometheus.Registry)
      (s : Running o Reading)
      → run o Reading ctx opts d ≡ serves s
      → (h : Bool → Reading → ℕ → List (Call (Health Reading))) × (handler_at
            (codes "/healthz")
            s.router
          ≡ some (health h))
        × ((received : List Signal) (since : Reading) (goroutines : ℕ)
            → h (is_healthy received s.backend) since goroutines
              ≡ json (health_status received s.backend) (record {
                git_rev = git_revision o.settings;
                uptime = since;
                goroutines = goroutines;
                hardware_client_available = is_healthy received s.backend;
              })
                ∷ [])
  run-healthz ctx opts d s h = (
    new_handler o.settings,
    (started_others ctx opts d s h).0,
    λ received. new_handler-health_status received s.backend,
  )

  abbrev instance_answer : Result Model.Instance → Call Model.Instance
  instance_answer (ok found) = json 200 found
  instance_answer (err e) = abort_with_error 500 e

  -- What the hack frontend serves of the hardware that has the client's address.
  abbrev pub serve_hack : List Hardware → Call Model.Instance
  serve_hack [] = abort_with_error 500 (sentinel no_hardware_found)
  serve_hack (hw ∷ []) = instance_answer (to_hack_instance o.marshal o.unmarshal hw)
  serve_hack (hw ∷ hw' ∷ hws) = abort_with_error 500 (text (codes "multiple hardware found"))

  respond-instance_answer :
      (get : Str → Result Model.Instance) (ip : Str) (r : Result Model.Instance)
      → get ip ≡ r
      → respond get ip ≡ instance_answer r ∷ []
  unfolding respond
  respond-instance_answer get ip (ok found) h = rw (h, respond) refl
  respond-instance_answer get ip (err e) h = rw (h, respond) refl

  -- What the hack frontend answers of the address that is read from a request.
  abbrev pub serve_hack_all : List Hardware → Result Str → List (Call Model.Instance)
  serve_hack_all items (err e) =
      abort_with_error 400 (text (codes "invalid remote address"))
      ∷ abort_with_error 500 (sentinel no_hardware_found)
      ∷ []
  serve_hack_all items (ok ip) = serve_hack (with_address ip items) ∷ []

  metadata_handler-respond :
      (get : Str → Result Model.Instance) (remote_addr ip : Str)
      → remote_addr_ip remote_addr ≡ ok ip
      → metadata_handler get remote_addr ≡ respond get ip
  unfolding metadata_handler
  metadata_handler-respond get remote_addr ip h = rw (h, metadata_handler) refl

  metadata_handler-respond_bad :
      (get : Str → Result Model.Instance) (remote_addr : Str) (e : GoError)
      → remote_addr_ip remote_addr ≡ err e
      → metadata_handler get remote_addr
        ≡ abort_with_error 400 (text (codes "invalid remote address")) ∷ respond get []
  unfolding metadata_handler
  metadata_handler-respond_bad get remote_addr e h = rw (h, metadata_handler) refl

  respond-serve_hack :
      (b : Kubernetes.Backend) (ip : Str) (listed : List Hardware)
      → b.list ip ≡ ok listed
      → respond (Kubernetes.get_hack_instance o.marshal o.unmarshal b) ip ≡ serve_hack listed ∷ []
  unfolding Kubernetes.get_hack_instance
  respond-serve_hack b ip [] h =
      respond-instance_answer _ ip (err (sentinel no_hardware_found)) (rw h refl)
  respond-serve_hack b ip (hw ∷ []) h =
      respond-instance_answer _ ip (to_hack_instance o.marshal o.unmarshal hw) (rw h refl)
  respond-serve_hack b ip (hw ∷ hw' ∷ hws) h =
      respond-instance_answer _ ip (err (text (codes "multiple hardware found"))) (rw h refl)

  metadata_handler-serve_hack_all :
      (b : Kubernetes.Backend) (items : List Hardware) (remote_addr : Str)
      → ListsByIndex b items
      → metadata_handler (Kubernetes.get_hack_instance o.marshal o.unmarshal b) remote_addr
        ≡ serve_hack_all items (remote_addr_ip remote_addr)
  metadata_handler-serve_hack_all b items remote_addr lists =
      let listed : (ip : Str)
          → respond (Kubernetes.get_hack_instance o.marshal o.unmarshal b) ip
            ≡ serve_hack (with_address ip items) ∷ [] =
        λ ip.
          respond-serve_hack b ip (with_address ip items)
            (lists ip ∙ ap ok (matching-with_address ip items)) in
      elim (Result-cases (remote_addr_ip remote_addr)) [
        | inl (e, bad) ↦ rw bad (
            metadata_handler-respond_bad _ remote_addr e bad
            ∙ ap (λ cs. abort_with_error 400 (text (codes "invalid remote address")) ∷ cs)
                (listed [] ∙ rw (with_address-empty items) refl))
        | inr (ip, good) ↦ rw good (metadata_handler-respond _ remote_addr ip good ∙ listed ip)
      ]

  -- A server that is started over a cluster, which indexes objects as documented, answers the hack
  -- frontend's clients once: with the instance in the only hardware that has the client's address,
  -- and with 500 where that has none, where no hardware has the address, or where more than one has
  -- it. A client whose remote address has no host is answered twice, with 400 and then with 500.
  pub run-metadata :
      (ctx : Context) (opts : RootCommandOptions) (d : o.prometheus.Registry)
      (s : Running o Reading) (items : List Hardware)
      → run o Reading ctx opts d ≡ serves s
      → str_eq opts.backend (codes "kubernetes") ≡ true
      → IndexesObjects o.world.api items
      → (h : Str → List (Call Model.Instance)) × (handler_at (codes "/metadata") s.router
          ≡ some (hack h))
        × ((remote_addr : Str) → h remote_addr ≡ serve_hack_all items (remote_addr_ip remote_addr))
  run-metadata ctx opts d s items h named indexes =
      let (b, same, lists) = started_kubernetes Reading o ctx opts d s items h named indexes in
      (
        metadata_handler (hack_client o s.backend),
        (started_others ctx opts d s h).1,
        λ remote_addr.
            ap (λ be. metadata_handler (hack_client o be) remote_addr) same
            ∙ metadata_handler-serve_hack_all b items remote_addr lists,
      )
