-- ===== src/Command/Run.antt =====
-- `Run` of internal/cmd/root.go until it calls `Serve`, which `Server` has.
pub mod Started
pub mod Served
pub mod OverFlatfile
pub mod Others
pub mod Listings
pub mod Untrusted
use tinkerbell_hegel.Prelude.{Bool, not, List, [], ◌∷◌, Option, none, some}
use tinkerbell_hegel.Strings.{Str, codes}
use tinkerbell_hegel.Errors.{GoError, Result, ok, err}
use tinkerbell_hegel.Contexts.{Signal, sigint, sigterm, sighup, Context, notify_context}
use tinkerbell_hegel.GinUtil.{Registration}
use tinkerbell_hegel.Xff.{XffLibrary, middleware_from_unparsed}
use tinkerbell_hegel.Metrics.{
  Prometheus, Registries, instrument_request_count, instrument_request_duration,
}
use tinkerbell_hegel.Ec2.Frontend.{Client}
use tinkerbell_hegel.Flatfile
use tinkerbell_hegel.Kubernetes
use tinkerbell_hegel.Kubernetes.{Hardware}
use tinkerbell_hegel.Kubernetes.Connect.{prefixed}
use tinkerbell_hegel.Backend
use tinkerbell_hegel.Backend.{World, RootCommandOptions, to_backend_options, flatfile, kubernetes}
use tinkerbell_hegel.Hack.Model
use tinkerbell_hegel.Healthcheck.{BuildSetting}
use tinkerbell_hegel.Command.{Handler, configure_router}

-- What `Run` uses and the repository does not hold: that of the backends, the context that
-- OpenTelemetry makes of another, the JSON encoding between hardware and instances of the hack
-- frontend, the xff library, Prometheus, and the settings of the build.
pub record Outside (Request : Type 0) : Type 1 where
  pub world : World
  pub init_open_telemetry : Context → Context
  pub marshal : Hardware → Result Str
  pub unmarshal : Str → Result Model.Instance
  pub xff : XffLibrary Request
  pub prometheus : Prometheus
  pub settings : List BuildSetting

-- `be` as the client of the EC2 frontend and as the client of the hack frontend
abbrev pub ec2_client : Backend.Client → Client
ec2_client (flatfile b) = record { get_ec2_instance = Flatfile.get_ec2_instance b }
ec2_client (kubernetes b) = record { get_ec2_instance = Kubernetes.get_ec2_instance b }

-- what `be` answers the health check in a process that has received some signals
abbrev pub is_healthy : List Signal → Backend.Client → Bool
is_healthy received (flatfile b) = Flatfile.is_healthy b
is_healthy received (kubernetes b) = Kubernetes.is_healthy received b

abbrev pub shutdown_signals : List Signal
shutdown_signals = sigint ∷ sigterm ∷ sighup ∷ []

-- the context that `Serve` gets
abbrev pub shutdown_context : Context → Context
shutdown_context ctx = notify_context ctx shutdown_signals

module _ {Request : Type 0} (o : Outside Request) where
  abbrev pub hack_client : Backend.Client → Str → Result Model.Instance
  hack_client (flatfile b) = Flatfile.get_hack_instance b
  hack_client (kubernetes b) = Kubernetes.get_hack_instance o.marshal o.unmarshal b

  -- What `Serve` is called with. The vectors are those of the metrics, and `forwarded` is what the xff
  -- middleware makes of a request; `release_mode` is whether gin's mode was set.
  pub record Running (Reading : Type 0) : Type 0 where
    pub context : Context
    pub address : Str
    pub release_mode : Bool
    pub backend : Backend.Client
    pub forwarded : Request → Request
    pub counted : o.prometheus.Vector
    pub timed : o.prometheus.Vector
    pub registries : Registries o.prometheus
    pub router : List (Registration (Handler Model.Instance Reading))

  -- An error that is returned before `Serve` is called, a panic, or the call of `Serve`.
  pub data Outcome (Reading : Type 0) : Type 0 where
    fails : GoError → Outcome Reading
    panics : Outcome Reading
    serves : Running Reading → Outcome Reading

  -- from the new registry on, with the context that `InitOpenTelemetry` returned
  unfoldable pub serve_router :
      (Reading : Type 0)
      → Context
      → RootCommandOptions
      → o.prometheus.Registry
      → Backend.Client
      → (Request → Request)
      → Outcome Reading
  unfolding instrument_request_count instrument_request_duration configure_router
  serve_router Reading ctx opts default_registry be forwarded =
      let registries : Registries o.prometheus = record {
        default_registry = default_registry;
        registrar = o.prometheus.new_registry;
      } in
      elim (instrument_request_count o.prometheus registries) [
        | none ↦ panics
        | some (counted, with_counts) ↦
            elim (instrument_request_duration o.prometheus with_counts) [
              | none ↦ panics
              | some (timed, with_both) ↦ serves (record {
                context = shutdown_context ctx;
                address = opts.http_addr;
                release_mode = not opts.debug;
                backend = be;
                forwarded = forwarded;
                counted = counted;
                timed = timed;
                registries = with_both;
                router =
                    configure_router {Reading = Reading} o.settings (ec2_client be)
                      (hack_client be);
              })
            ]
      ]

  -- `Run` of a command whose context is given, in a process whose default registry of Prometheus is
  -- given. What `defer` runs is after `Serve`.
  unfoldable pub run :
      (Reading : Type 0) → Context → RootCommandOptions → o.prometheus.Registry → Outcome Reading
  unfolding Backend.new to_backend_options middleware_from_unparsed serve_router
  run Reading cmd_context opts default_registry =
      let ctx = o.init_open_telemetry cmd_context in
      elim (prefixed (codes "initialize backend: ")
        (Backend.new o.world ctx (to_backend_options opts))) [
          | err e ↦ fails e
          | ok be ↦ elim (middleware_from_unparsed o.xff opts.trusted_proxies) [
            | err e ↦ fails e
            | ok forwarded ↦ serve_router Reading ctx opts default_registry be forwarded
          ]
        ]
