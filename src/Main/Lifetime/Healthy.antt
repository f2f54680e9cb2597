-- ===== src/Main/Lifetime/Healthy.antt =====
-- What the health check of a process that serves answers while it lives.
use tinkerbell_hegel.Prelude.{ℕ, Bool, true, false, List, [], ◌∷◌, some, ◌≡◌, refl, ap, ◌∙◌}
use tinkerbell_hegel.Contexts.{Signal, Context, background, done}
use tinkerbell_hegel.Strings.{codes}
use tinkerbell_hegel.GinUtil.{Call, json}
use tinkerbell_hegel.Healthcheck.{Health, git_revision}
use tinkerbell_hegel.Flatfile
use tinkerbell_hegel.Kubernetes
use tinkerbell_hegel.Backend
use tinkerbell_hegel.Backend.{flatfile, kubernetes}
use tinkerbell_hegel.Backend.Choice.{IsClosedBy, new-IsClosedBy}
use tinkerbell_hegel.Command.{health}
use tinkerbell_hegel.Command.Flags.{RootCommand, Library}
use tinkerbell_hegel.Command.Run.{Outside, Running, is_healthy}
use tinkerbell_hegel.Command.Run.Started.{run-IsStarted}
use tinkerbell_hegel.Command.Run.Served.{handler_at}
use tinkerbell_hegel.Command.Run.Others.{health_status, run-healthz}
use tinkerbell_hegel.Main.{Arguments, serving, main}
use tinkerbell_hegel.Main.Exit.{main-runs}
use tinkerbell_hegel.Main.Lifetime.Lawful.{AddsValues, done_background}

is_healthy-IsClosedBy :
    (ctx : Context) (be : Backend.Client) (received : List Signal)
    → IsClosedBy ctx be
    → done ctx received ≡ false
    → (is_healthy received be ≡ true) × (health_status received be ≡ 200)
unfolding Flatfile.is_healthy Kubernetes.is_healthy
is_healthy-IsClosedBy ctx (flatfile b) received closed h = (refl, refl)
is_healthy-IsClosedBy ctx (kubernetes b) received closed h =
    let open_ : b.closer received ≡ false = ap (λ f. f received) closed ∙ h in
    (rw (open_, Kubernetes.is_healthy) refl, rw open_ refl)

-- The health check of a process that has come to serve answers 200 and that its client is
-- available, whatever signals the process has received, SIGTERM included, where the context that
-- OpenTelemetry makes is done only if its parent is.
pub main-always_healthy :
    {Request Reading : Type 0} (o : Outside Request) (library : Library)
    (arguments : RootCommand → Arguments) (d : o.prometheus.Registry) (s : Running o Reading)
    → AddsValues o.init_open_telemetry
    → main o Reading library arguments d ≡ serving s
    → (h : Bool → Reading → ℕ → List (Call (Health Reading))) × (handler_at
          (codes "/healthz")
          s.router
        ≡ some (health h))
      × ((received : List Signal) (since : Reading) (goroutines : ℕ)
          → h (is_healthy received s.backend) since goroutines
            ≡ json 200 (record {
              git_rev = git_revision o.settings;
              uptime = since;
              goroutines = goroutines;
              hardware_client_available = true;
            })
              ∷ [])
main-always_healthy {Reading = Reading} o library arguments d s adds h =
    let (opts, runs) = main-runs o library arguments d s h in
    let i = run-IsStarted o background opts d s runs in
    let closed =
      new-IsClosedBy o.world (o.init_open_telemetry background) opts s.backend i.backend in
    let (handler, registered, answers) = run-healthz Reading o background opts d s runs in
    (
      handler,
      registered,
      λ received since goroutines.
          let (available, status) =
            is_healthy-IsClosedBy (o.init_open_telemetry background) s.backend received closed
              (done_background o.init_open_telemetry adds received) in
          answers received since goroutines ∙ rw (available, status) refl,
    )
