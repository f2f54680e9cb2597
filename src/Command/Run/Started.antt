-- ===== src/Command/Run/Started.antt =====
-- What is true of a server that `Run` starts, and when it starts none.
use tinkerbell_hegel.Prelude.{not, List, some, ◌≡◌, ◌≢◌, inl, inr, refl, subst, All, Option-cases}
use tinkerbell_hegel.Strings.{Str}
use tinkerbell_hegel.Strings.Members.{IsDistinct}
use tinkerbell_hegel.Errors.{ok, Result-cases}
use tinkerbell_hegel.Contexts.{Context}
use tinkerbell_hegel.GinUtil.{full_paths}
use tinkerbell_hegel.Xff.{XffLibrary, parse, middleware, middleware_from_unparsed}
use tinkerbell_hegel.Xff.Entries.{IsNetwork}
use tinkerbell_hegel.Xff.Parsed.{parse-IsNetwork}
use tinkerbell_hegel.Metrics.{
  requests_total, request_duration, instrument_request_count, instrument_request_duration,
}
use tinkerbell_hegel.Metrics.Counted.{IsRefusing}
use tinkerbell_hegel.Backend
use tinkerbell_hegel.Backend.{RootCommandOptions, to_backend_options}
use tinkerbell_hegel.Command.{configure_router}
use tinkerbell_hegel.Command.Endpoints.{configure_router-IsDistinct}
use tinkerbell_hegel.Command.Run.{
  Outside, ec2_client, hack_client, Running, Outcome, serves, serve_router, run, shutdown_context,
}

module _ {Request : Type 0} (library : XffLibrary Request) where
  middleware_from_unparsed-networks :
      (trusted_proxies : Str) (forwarded : Request → Request)
      → middleware_from_unparsed library trusted_proxies ≡ ok forwarded
      → (parsed : List Str) × (parse trusted_proxies ≡ ok parsed)
        × All IsNetwork parsed
        × (middleware library parsed ≡ ok forwarded)
  unfolding middleware_from_unparsed
  middleware_from_unparsed-networks trusted_proxies forwarded h =
      elim (Result-cases (parse trusted_proxies)) [
        | inl (e, failed) ↦ cc (rw (failed, middleware_from_unparsed) at h)
        | inr (parsed, read) ↦ (
          parsed,
          read,
          parse-IsNetwork trusted_proxies parsed read,
          rw (read, middleware_from_unparsed) at h,
        )
      ]

module _ {Request Reading : Type 0} (o : Outside Request) where
  -- A server that is started: its backend is the one that the options choose, its proxies are
  -- networks that the xff library took, its endpoints are those of `Run` over its backend, and no
  -- two of its endpoints have one path.
  pub record IsStarted (ctx : Context) (opts : RootCommandOptions) (s : Running o Reading)
      : Type 0 where
    pub context : s.context ≡ shutdown_context (o.init_open_telemetry ctx)
    pub address : s.address ≡ opts.http_addr
    pub release_mode : s.release_mode ≡ not opts.debug
    pub backend :
        Backend.new o.world (o.init_open_telemetry ctx) (to_backend_options opts) ≡ ok s.backend
    pub networks :
        (parsed : List Str) × (parse opts.trusted_proxies ≡ ok parsed)
        × All IsNetwork parsed
        × (middleware o.xff parsed ≡ ok s.forwarded)
    pub router :
        s.router ≡ configure_router o.settings (ec2_client s.backend) (hack_client o s.backend)
    pub distinct : IsDistinct (full_paths s.router)

  -- What the metrics leave of a server that is started.
  record IsServed (ctx : Context) (opts : RootCommandOptions) (d : o.prometheus.Registry)
      (be : Backend.Client) (forwarded : Request → Request) (s : Running o Reading) : Type 0 where
    served_context : s.context ≡ shutdown_context ctx
    served_address : s.address ≡ opts.http_addr
    served_mode : s.release_mode ≡ not opts.debug
    served_backend : s.backend ≡ be
    served_forwarded : s.forwarded ≡ forwarded
    served_router : s.router ≡ configure_router o.settings (ec2_client be) (hack_client o be)
    registered : o.prometheus.register d requests_total ≡ some s.registries.default_registry

  serve_router-IsServed :
      (ctx : Context) (opts : RootCommandOptions) (d : o.prometheus.Registry) (be : Backend.Client)
      (forwarded : Request → Request) (s : Running o Reading)
      → serve_router o Reading ctx opts d be forwarded ≡ serves s
      → IsServed ctx opts d be forwarded s
  unfolding serve_router instrument_request_count instrument_request_duration
  serve_router-IsServed ctx opts d be forwarded s h =
      elim (Option-cases (o.prometheus.register d requests_total)) [
        | inl refused ↦ cc (rw (refused, serve_router) at h)
        | inr (d', first) ↦
            elim (Option-cases (o.prometheus.register o.prometheus.new_registry requests_total)) [
              | inl refused ↦ cc (rw (first, refused, serve_router) at h)
              | inr (r, second) ↦ elim (Option-cases (o.prometheus.register r request_duration)) [
                | inl refused ↦ cc (rw (first, second, refused, serve_router) at h)
                | inr (r', third) ↦
                    subst (IsServed ctx opts d be forwarded)
                      (serves_injective _ s (rw (first, second, third, serve_router) at h))
                      (record {
                        served_context = refl;
                        served_address = refl;
                        served_mode = refl;
                        served_backend = refl;
                        served_forwarded = refl;
                        served_router = refl;
                        registered = first;
                      })
              ]
            ]
      ]
    where
      serves_injective :
          (x y : Running o Reading) → ◌≡◌ {A = Outcome o Reading} (serves x) (serves y) → x ≡ y
      serves_injective x y e = cc

  -- A server that is started has a backend and an xff middleware.
  run-serve_router :
      (ctx : Context) (opts : RootCommandOptions) (d : o.prometheus.Registry)
      (s : Running o Reading)
      → run o Reading ctx opts d ≡ serves s
      → (be : Backend.Client) × (forwarded : Request → Request) × (Backend.new o.world
            (o.init_open_telemetry ctx)
            (to_backend_options opts)
          ≡ ok be)
        × (middleware_from_unparsed o.xff opts.trusted_proxies ≡ ok forwarded)
        × (serve_router o Reading (o.init_open_telemetry ctx) opts d be forwarded ≡ serves s)
  unfolding run
  run-serve_router ctx opts d s h =
      elim (Result-cases
        (Backend.new o.world (o.init_open_telemetry ctx) (to_backend_options opts))) [
          | inl (e, failed) ↦ cc (rw (failed, run) at h)
          | inr (be, chosen) ↦
              elim (Result-cases (middleware_from_unparsed o.xff opts.trusted_proxies)) [
                | inl (e, failed) ↦ cc (rw (chosen, failed, run) at h)
                | inr (forwarded, taken) ↦
                    (be, forwarded, chosen, taken, rw (chosen, taken, run) at h)
              ]
        ]

  -- Where `Run` comes to serve, it does so on the address of the options, with the backend that
  -- they choose, behind an xff middleware of valid networks, and with endpoints that a router
  -- takes.
  pub run-IsStarted :
      (ctx : Context) (opts : RootCommandOptions) (d : o.prometheus.Registry)
      (s : Running o Reading)
      → run o Reading ctx opts d ≡ serves s
      → IsStarted ctx opts s
  run-IsStarted ctx opts d s h =
      let (be, forwarded, chosen, taken, served) = run-serve_router ctx opts d s h in
      let i = serve_router-IsServed (o.init_open_telemetry ctx) opts d be forwarded s served in
      let (parsed, read, networks, allowed) =
        middleware_from_unparsed-networks o.xff opts.trusted_proxies forwarded taken in
      record {
        context = i.served_context;
        address = i.served_address;
        release_mode = i.served_mode;
        backend = rw i.served_backend chosen;
        networks = (parsed, read, networks, rw i.served_forwarded allowed);
        router = rw i.served_backend i.served_router;
        distinct =
            rw i.served_router
              (configure_router-IsDistinct Reading o.settings (ec2_client be) (hack_client o be));
      }

  -- A process serves once, if a registry refuses a description that it was given before: where
  -- `Run` has come to serve, no later `Run` of the process does, whatever its options, since the
  -- counter is still in Prometheus's default registry.
  pub run-once :
      (refusing : IsRefusing o.prometheus) (ctx ctx' : Context) (opts opts' : RootCommandOptions)
      (d : o.prometheus.Registry) (s s' : Running o Reading)
      → run o Reading ctx opts d ≡ serves s
      → run o Reading ctx' opts' s.registries.default_registry ≢ serves s'
  run-once refusing ctx ctx' opts opts' d s s' h again =
      let (be, forwarded, _, _, served) = run-serve_router ctx opts d s h in
      let (be', forwarded', _, _, served') =
        run-serve_router ctx' opts' s.registries.default_registry s' again in
      let first =
        (serve_router-IsServed (o.init_open_telemetry ctx) opts d be forwarded s
          served).registered in
      let second =
        (serve_router-IsServed (o.init_open_telemetry ctx') opts' _ be' forwarded' s'
          served').registered in
      let refused = refusing d s.registries.default_registry requests_total first in cc
