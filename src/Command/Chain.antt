-- ===== src/Command/Chain.antt =====
-- The middleware that `Run` of internal/cmd/root.go gives its router, in their order, with what
-- those of internal/metrics, internal/logger and internal/xff do around the handlers behind them.
pub mod Answered
pub mod Logged
use tinkerbell_hegel.Prelude.{ℕ, ◌-◌, List, [], ◌∷◌, ◌++◌}
use tinkerbell_hegel.Strings.{Str}
use tinkerbell_hegel.Logger
use tinkerbell_hegel.Logger.{Url, Handled, Event}
use tinkerbell_hegel.Metrics.{Prometheus, Served, count_request, observe_request}

-- The state that the handlers of a request change: its context, and the collectors and the log of the
-- server. The clock is in milliseconds, and is the monotonic one that `time.Since` reads.
pub record Exchange (Request : Type 0) (Vector : Type 0) : Type 0 where
  pub request : Request
  pub full_path : Str
  pub status : ℕ
  pub errors : List Str
  pub clock : ℕ
  pub counted : Vector
  pub timed : Vector
  pub logged : List (Event ℕ)

-- How a handler ends, with the state it leaves behind.
pub data Ended (X : Type 0) : Type 0 where
  returned : X → Ended X
  panicked : X → Ended X

abbrev pub Handler : Type 0 → Type 0 → Type 0
Handler Request Vector = Exchange Request Vector → Ended (Exchange Request Vector)

-- what follows `ctx.Next()`, which a panic skips
abbrev pub afterwards : {X : Type 0} → Ended X → (X → X) → Ended X
afterwards (returned x) f = returned (f x)
afterwards (panicked x) f = panicked x

-- What gin has: `Recovery`, and how a router runs its middleware around a handler.
pub record Gin (Request : Type 0) (Vector : Type 0) : Type 0 where
  pub recovery : Handler Request Vector → Handler Request Vector
  pub run :
      List (Handler Request Vector → Handler Request Vector)
      → Handler Request Vector
      → Handler Request Vector

-- What the middleware read of a request: `Method`, `URL` and gin's `ClientIP`.
pub record Readings (Request : Type 0) : Type 0 where
  pub method : Request → Str
  pub url : Request → Url
  pub client_ip : Request → Str

module _ {Request : Type 0} (p : Prometheus) (read : Readings Request) where
  abbrev pub served : Exchange Request p.Vector → Served
  served x = record { full_path = x.full_path; method = read.method x.request; status = x.status }

  abbrev pub handled : ℕ → Exchange Request p.Vector → Handled ℕ
  handled start x = record {
    url = read.url x.request;
    client_ip = read.client_ip x.request;
    method = read.method x.request;
    status = x.status;
    errors = x.errors;
    latency = x.clock - start;
  }

  -- the states that the three leave, given when they were called
  unfoldable pub count : Exchange Request p.Vector → Exchange Request p.Vector
  unfolding count_request
  count x = record x { counted = count_request p x.counted (served x) }

  unfoldable pub observe : ℕ → Exchange Request p.Vector → Exchange Request p.Vector
  unfolding observe_request
  observe start x = record x { timed = observe_request p x.timed (served x) (x.clock - start) }

  unfoldable pub log : ℕ → Exchange Request p.Vector → Exchange Request p.Vector
  unfolding Logger.middleware
  log start x = record x { logged = x.logged ++ Logger.middleware (handled start x) ∷ [] }

  unfoldable pub count_middleware : Handler Request p.Vector → Handler Request p.Vector
  unfolding count
  count_middleware next x = afterwards (next x) count

  unfoldable pub duration_middleware : Handler Request p.Vector → Handler Request p.Vector
  unfolding observe
  duration_middleware next x = afterwards (next x) (observe x.clock)

  unfoldable pub log_middleware : Handler Request p.Vector → Handler Request p.Vector
  unfolding log
  log_middleware next x = afterwards (next x) (log x.clock)

  -- the middleware of internal/xff, by what it makes of the request
  unfoldable pub xff_middleware :
      (Request → Request) → Handler Request p.Vector → Handler Request p.Vector
  xff_middleware forwarded next x = next (record x { request = forwarded x.request })

  -- `router.Use`
  unfoldable pub middlewares :
      Gin Request p.Vector
      → (Request → Request)
      → List (Handler Request p.Vector → Handler Request p.Vector)
  unfolding count_middleware duration_middleware log_middleware xff_middleware
  middlewares gin forwarded =
      count_middleware
      ∷ duration_middleware
      ∷ gin.recovery
      ∷ log_middleware
      ∷ xff_middleware forwarded
      ∷ []
