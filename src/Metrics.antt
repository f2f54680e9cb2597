-- ===== src/Metrics.antt =====
-- internal/metrics/metrics.go, over the Prometheus library.
pub mod Counted
use tinkerbell_hegel.Prelude.{ℕ, ◌-◌, List, [], ◌∷◌, Option, none, some}
use tinkerbell_hegel.Strings.{Str, codes}
use tinkerbell_hegel.Strconv.{itoa}

-- The Prometheus library: vectors of counters and of histograms, whose values change, and registries,
-- which refuse a collector that has the description of one they hold. A collector is registered
-- by its description: its name, its help and its labels. A limit of a bucket is in milliseconds.
pub record Description : Type 0 where
  pub name : Str
  pub help : Str
  pub buckets : List ℕ
  pub labels : List Str

pub record Prometheus : Type 1 where
  pub Registry : Type 0
  pub Vector : Type 0
  pub new_registry : Registry
  pub new_vector : Description → Vector
  pub register : Registry → Description → Option Registry
  pub inc : Vector → List Str → Vector
  pub observe : Vector → List Str → ℕ → Vector

abbrev pub route_label : Str
route_label = codes "route"

abbrev pub method_label : Str
method_label = codes "method"

abbrev pub status_code_label : Str
status_code_label = codes "status_code"

abbrev pub requests_total : Description
requests_total = record {
  name = codes "http_server_requests_total";
  help = codes "Count of HTTP requests";
  buckets = [];
  labels = method_label ∷ status_code_label ∷ [];
}

abbrev pub request_duration : Description
request_duration = record {
  name = codes "http_server_request_duration_seconds";
  help = codes "Histogram of response time for HTTP requests in seconds";
  buckets = 5 ∷ 10 ∷ 25 ∷ 50 ∷ 100 ∷ 250 ∷ 500 ∷ 1000 ∷ 2500 ∷ 5000 ∷ 10000 ∷ [];
  labels = route_label ∷ method_label ∷ status_code_label ∷ [];
}

-- What the middleware read of a context once the handlers have run.
pub record Served : Type 0 where
  pub full_path : Str
  pub method : Str
  pub status : ℕ

module _ (p : Prometheus) where
  -- The default registry, in which promauto registers what it makes, and the one that is given.
  pub record Registries : Type 0 where
    pub default_registry : p.Registry
    pub registrar : p.Registry

  -- `InstrumentRequestCount` until it returns its handler; `none` where it panics.
  unfoldable pub instrument_request_count : Registries → Option (p.Vector × Registries)
  instrument_request_count r = elim (p.register r.default_registry requests_total) [
    | none ↦ none
    | some default_registry ↦ elim (p.register r.registrar requests_total) [
      | none ↦ none
      | some registrar ↦ some (
        p.new_vector requests_total,
        record { default_registry = default_registry; registrar = registrar },
      )
    ]
  ]

  -- `InstrumentRequestDuration` until it returns its handler
  unfoldable pub instrument_request_duration : Registries → Option (p.Vector × Registries)
  instrument_request_duration r = elim (p.register r.registrar request_duration) [
    | none ↦ none
    | some registrar ↦ some (p.new_vector request_duration, record r { registrar = registrar })
  ]

  -- what the first handler does behind `ctx.Next()`
  unfoldable pub count_request : p.Vector → Served → p.Vector
  unfolding itoa
  count_request m ctx = p.inc m (ctx.method ∷ itoa ctx.status ∷ [])

  -- what the second handler does behind `ctx.Next()`, given the milliseconds since `start`
  unfoldable pub observe_request : p.Vector → Served → ℕ → p.Vector
  unfolding itoa
  observe_request m ctx since =
      p.observe m (ctx.full_path ∷ ctx.method ∷ itoa ctx.status ∷ []) since
