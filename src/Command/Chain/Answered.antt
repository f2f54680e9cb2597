-- ===== src/Command/Chain/Answered.antt =====
-- What the server does around a handler.
use tinkerbell_hegel.Prelude.{ℕ, ◌+◌, List, [], ◌∷◌, ◌≡◌, refl, ap, ◌∙◌}
use tinkerbell_hegel.Strings.{Str}
use tinkerbell_hegel.Strconv.{itoa}
use tinkerbell_hegel.Metrics.{Prometheus, count_request}
use tinkerbell_hegel.Metrics.Counted.{IsCounting}
use tinkerbell_hegel.Command.Chain.{
  Exchange, Ended, returned, panicked, afterwards, Gin, Readings, count, observe, log,
  count_middleware, duration_middleware, log_middleware, xff_middleware, middlewares, Handler,
}

-- What gin documents: the middleware of a router run in their order, each around those behind it, and
-- `Recovery` makes a panic a response of status 500.
pub record IsGin {Request Vector : Type 0} (gin : Gin Request Vector) : Type 0 where
  pub run-nil : (h : Handler Request Vector) (x : Exchange Request Vector) → gin.run [] h x ≡ h x
  pub run-cons :
      (m : Handler Request Vector → Handler Request Vector)
      (ms : List (Handler Request Vector → Handler Request Vector)) (h : Handler Request Vector)
      (x : Exchange Request Vector)
      → gin.run (m ∷ ms) h x ≡ m (gin.run ms h) x
  pub passed_on :
      (next : Handler Request Vector) (x y : Exchange Request Vector)
      → next x ≡ returned y
      → gin.recovery next x ≡ returned y
  pub recovered :
      (next : Handler Request Vector) (x y : Exchange Request Vector)
      → next x ≡ panicked y
      → gin.recovery next x ≡ returned (record y { status = 500 })

abbrev left_by : {X : Type 0} → Ended X → X
left_by (returned x) = x
left_by (panicked x) = x

module _ {Request : Type 0} (p : Prometheus) (read : Readings Request) (gin : Gin Request p.Vector)
    (is_gin : IsGin gin) (forwarded : Request → Request) where
  -- The request as the endpoint's handler is given it.
  abbrev pub given : Exchange Request p.Vector → Exchange Request p.Vector
  given x = record x { request = forwarded x.request }

  -- What is left once the recovery is passed: an answer that is logged, or one of status 500.
  abbrev pub settled : ℕ → Ended (Exchange Request p.Vector) → Exchange Request p.Vector
  settled start (returned y) = log p read start y
  settled start (panicked y) = record y { status = 500 }

  inner : List (Handler Request p.Vector → Handler Request p.Vector)
  inner = log_middleware p read ∷ xff_middleware p read forwarded ∷ []

  run_inner :
      (h : Handler Request p.Vector) (x : Exchange Request p.Vector)
      → gin.run inner h x ≡ afterwards (h (given x)) (log p read x.clock)
  unfolding inner log_middleware xff_middleware
  run_inner h x =
      is_gin.run-cons _ _ h x
      ∙ ap (λ e. afterwards e (log p read x.clock))
          (is_gin.run-cons _ _ h x ∙ is_gin.run-nil h (given x))

  run_recovery :
      (h : Handler Request p.Vector) (x : Exchange Request p.Vector)
      (e : Ended (Exchange Request p.Vector))
      → h (given x) ≡ e
      → gin.run (gin.recovery ∷ inner) h x ≡ returned (settled x.clock e)
  run_recovery h x (returned y) ends =
      is_gin.run-cons _ _ h x
      ∙ is_gin.passed_on _ x (log p read x.clock y)
          (run_inner h x ∙ ap (λ e. afterwards e (log p read x.clock)) ends)
  run_recovery h x (panicked y) ends =
      is_gin.run-cons _ _ h x
      ∙ is_gin.recovered _ x y (run_inner h x ∙ ap (λ e. afterwards e (log p read x.clock)) ends)

  -- With gin as documented, every request is answered, counted and timed, whether its handler returns
  -- or panics: it is counted by the status that is sent, which is 500 after a panic. It is logged
  -- just if its handler returns, and the handler is given the request as the xff middleware makes it.
  pub middlewares-settled :
      (h : Handler Request p.Vector) (x : Exchange Request p.Vector)
      → gin.run (middlewares p read gin forwarded) h x
        ≡ returned (count p read (observe p read x.clock (settled x.clock (h (given x)))))
  unfolding middlewares inner count_middleware duration_middleware
  middlewares-settled h x =
      is_gin.run-cons _ _ h x
      ∙ ap (λ e. afterwards e (count p read))
          (is_gin.run-cons _ _ h x
            ∙ ap (λ e. afterwards e (observe p read x.clock)) (run_recovery h x (h (given x)) refl))

  -- A handler that leaves the counters to the server.
  abbrev pub Uncounting : Handler Request p.Vector → Type 0
  Uncounting h = (x : Exchange Request p.Vector) → (left_by (h x)).counted ≡ x.counted

  settled-counted :
      (start : ℕ) (e : Ended (Exchange Request p.Vector))
      → (settled start e).counted ≡ (left_by e).counted
  unfolding log
  settled-counted start (returned y) = refl
  settled-counted start (panicked y) = refl

  -- With gin and counters as documented, and a handler that leaves the counters alone, every request is
  -- answered and counted once, even where its handler panics: the counter of its method and of the
  -- status that is sent goes up by one.
  pub middlewares-counted :
      (value : p.Vector → List Str → ℕ) (counting : IsCounting p value)
      (h : Handler Request p.Vector) (uncounting : Uncounting h) (x : Exchange Request p.Vector)
      → (y : Exchange Request p.Vector) × (gin.run (middlewares p read gin forwarded) h x
          ≡ returned y)
        × (value y.counted (read.method y.request ∷ itoa y.status ∷ [])
            ≡ value x.counted (read.method y.request ∷ itoa y.status ∷ []) + 1)
  unfolding count observe count_request
  middlewares-counted value counting h uncounting x =
      let z = settled x.clock (h (given x)) in
      let labels = read.method z.request ∷ itoa z.status ∷ [] in
      (
        count p read (observe p read x.clock z),
        middlewares-settled h x,
        counting.same z.counted labels
            ∙ ap (λ v. value v labels + 1)
                (settled-counted x.clock (h (given x)) ∙ uncounting (given x)),
      )
