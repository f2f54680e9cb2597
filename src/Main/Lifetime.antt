-- ===== src/Main/Lifetime.antt =====
-- The process of cmd/hegel/main.go once it has called `Serve`, as steps of `Serve`, of the goroutine of
-- internal/backend/kubernetes/backend.go that starts the cluster, and of the signals that it is sent.
pub mod Lawful
pub mod Healthy
pub mod Ends
use tinkerbell_hegel.Prelude.{ℕ, Bool, true, false, List, [], ◌∷◌, Option, ◌≡◌}
use tinkerbell_hegel.Contexts.{Signal, Context, done}
use tinkerbell_hegel.Errors.{GoError}
use tinkerbell_hegel.Kubernetes.Connect.{GoroutineEnd, finishes, panics, start_cluster}
use tinkerbell_hegel.Backend
use tinkerbell_hegel.Backend.{flatfile, kubernetes}
use tinkerbell_hegel.Command.Run.{Outside, Running}
use tinkerbell_hegel.Server.{State, start, returned, Step, moves_of}
use tinkerbell_hegel.Main.{exit_code}

-- How far `Run` is: `Serve` has its deferred calls before it, or `cancel` has given the signals
-- their default action back, or OpenTelemetry's shutdown has returned too.
pub data Deferred : Type 0 where
  in_serve : Deferred
  notify_stopped : Deferred
  telemetry_stopped : Deferred

-- Whether a signal that arrives is caught, and does not have its default action.
abbrev pub catches : Deferred → Context → Signal → Bool
catches in_serve ctx sg = done ctx (sg ∷ [])
catches notify_stopped ctx sg = false
catches telemetry_stopped ctx sg = false

-- The signals that were received while `Run` listened, the last one first, the call of `Serve`, how far
-- the deferred calls are, and whether the goroutine that starts the cluster runs.
pub record Alive : Type 0 where
  pub received : List Signal
  pub server : State
  pub deferred : Deferred
  pub starting : Bool

-- A process runs, has exited with a code, has crashed on a panic of the goroutine, or was killed by a
-- signal that it does not catch.
pub data Life : Type 0 where
  alive : Alive → Life
  exited : ℕ → Alive → Life
  crashed : GoError → Life
  killed : Signal → Alive → Life

-- only `NewBackend` of the cluster's package starts a goroutine
abbrev pub starts_cluster : Backend.Client → Bool
starts_cluster (flatfile b) = false
starts_cluster (kubernetes b) = true

-- the process after the goroutine
abbrev pub ended : GoroutineEnd → Alive → Life
ended finishes a = alive (record a { starting = false })
ended (panics e) a = crashed e

module _ {Request Reading : Type 0} {o : Outside Request} (s : Running o Reading) where
  -- A step of the server is one of its goroutines; `Serve` has its context cancelled by the signals
  -- only. The deferred calls run in turn once `Serve` has returned. A signal that arrives after the
  -- first of them kills the process, or has no effect and is no step.
  pub data Lives : Life → Life → Type 0 where
    receive :
        {a : Alive} (sg : Signal)
        → a.deferred ≡ in_serve
        → Lives (alive a) (alive (record a { received = sg ∷ a.received }))
    kill :
        {a : Alive} (sg : Signal)
        → catches a.deferred s.context sg ≡ false
        → Lives (alive a) (killed sg a)
    cancel :
        {a : Alive}
        → a.server.cancelled ≡ false
        → done s.context a.received ≡ true
        → Lives (alive a) (alive (record a { server = record a.server { cancelled = true } }))
    serve :
        {a : Alive} {t : State}
        → (st : Step a.server t) → moves_of st ≡ 1
        → Lives (alive a) (alive (record a { server = t }))
    cluster_ends :
        {a : Alive} (result : Option GoError)
        → a.starting ≡ true
        → Lives (alive a) (ended (start_cluster result) a)
    stop_notify :
        {a : Alive} {result : Option GoError}
        → a.server.phase ≡ returned result
        → a.deferred ≡ in_serve
        → Lives (alive a) (alive (record a { deferred = notify_stopped }))
    stop_telemetry :
        {a : Alive}
        → a.deferred ≡ notify_stopped
        → Lives (alive a) (alive (record a { deferred = telemetry_stopped }))
    exit :
        {a : Alive} {result : Option GoError}
        → a.server.phase ≡ returned result
        → a.deferred ≡ telemetry_stopped
        → Lives (alive a) (exited (exit_code result) a)

  -- What a process comes to from its call of `Serve` on.
  pub data LivesTo : Life → Type 0 where
    serving_starts : LivesTo (
        alive (record {
          received = [];
          server = start (done s.context []);
          deferred = in_serve;
          starting = starts_cluster s.backend;
        }))
    then_lives : {l m : Life} → LivesTo l → Lives l m → LivesTo m
