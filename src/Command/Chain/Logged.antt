-- ===== src/Command/Chain/Logged.antt =====
-- What the server logs and counts of a request that a data endpoint of the EC2 frontend answers.
use tinkerbell_hegel.Prelude.{
  ℕ, ◌-◌, ◌+◌, List, [], ◌∷◌, ◌++◌, ◌≡◌, refl, ap, ap₂, ◌∙◌, ltb, if◌then◌else◌,
}
use tinkerbell_hegel.Strings.{Str, codes}
use tinkerbell_hegel.Strconv.{itoa}
use tinkerbell_hegel.Errors.{error_text}
use tinkerbell_hegel.GinUtil.{Call, abort_with_error, string, json, indented_json, header}
use tinkerbell_hegel.Logger
use tinkerbell_hegel.Logger.{Values, Event, info, error, path_of, join_errors}
use tinkerbell_hegel.Metrics.{Prometheus, count_request}
use tinkerbell_hegel.Metrics.Counted.{IsCounting}
use tinkerbell_hegel.Ec2.Routes.{FilterFunc}
use tinkerbell_hegel.Ec2.Frontend
use tinkerbell_hegel.Ec2.Frontend.{NoJson, Frontend, data_handler}
use tinkerbell_hegel.Ec2.Answers.{Answers, data_handler-Answers}
use tinkerbell_hegel.Command.Chain.{
  Exchange, returned, Gin, Readings, count, observe, log, served, handled, middlewares, Handler,
}
use tinkerbell_hegel.Command.Chain.Answered.{IsGin, given, settled, middlewares-settled}

-- The status that a call sends, and the errors that it leaves on the context.
abbrev pub status_of : Call NoJson → ℕ → ℕ
status_of (abort_with_error status e) before = status
status_of (string status s) before = status
status_of (json status body) before = status
status_of (indented_json status body) before = status
status_of (header name value) before = before

abbrev pub errors_of : Call NoJson → List Str
errors_of (abort_with_error status e) = error_text e ∷ []
errors_of _ = []

-- What gin documents of the calls on a context: they set the status, and an abort attaches its error.
-- They touch neither the request nor the server's counters and log.
pub record IsContext {Request Vector : Type 0}
    (perform : Call NoJson → Exchange Request Vector → Exchange Request Vector) : Type 0 where
  pub status :
      (c : Call NoJson) (x : Exchange Request Vector) → (perform c x).status ≡ status_of c x.status
  pub errors :
      (c : Call NoJson) (x : Exchange Request Vector)
      → (perform c x).errors ≡ x.errors ++ errors_of c
  pub request : (c : Call NoJson) (x : Exchange Request Vector) → (perform c x).request ≡ x.request
  pub counted : (c : Call NoJson) (x : Exchange Request Vector) → (perform c x).counted ≡ x.counted
  pub logged : (c : Call NoJson) (x : Exchange Request Vector) → (perform c x).logged ≡ x.logged

abbrev pub perform_all : {X : Type 0} → (Call NoJson → X → X) → List (Call NoJson) → X → X
perform_all perform [] x = x
perform_all perform (c ∷ cs) x = perform_all perform cs (perform c x)

-- The event of a request that one call answers: an error just for a server error, with the text of the
-- call's error.
abbrev pub event_of : {D : Type 0} → Call NoJson → Values D → Event D
event_of (abort_with_error status e) values =
    if ltb values.status_code 500 then info values else error values (error_text e) (error_text e)
event_of c values =
    if ltb values.status_code 500
    then info values
    else error values (codes "No error message specified") []

module _ {Request : Type 0} (p : Prometheus) (read : Readings Request) (remote_addr : Request → Str)
    (perform : Call NoJson → Exchange Request p.Vector → Exchange Request p.Vector) where
  -- A handler of the EC2 frontend as the router runs it.
  abbrev pub performing : Frontend.Handler → Handler Request p.Vector
  performing h x =
      returned (perform_all perform (h (record { remote_addr = remote_addr x.request })) x)

  abbrev pub values_of : Exchange Request p.Vector → ℕ → Values ℕ
  values_of y start = record {
    client_ip = read.client_ip y.request;
    method = read.method y.request;
    status_code = y.status;
    path = path_of (read.url y.request);
    latency = y.clock - start;
  }

  middleware-event_of :
      (c : Call NoJson) (start : ℕ) (z : Exchange Request p.Vector)
      → z.errors ≡ errors_of c
      → Logger.middleware (handled p read start z) ≡ event_of c (values_of z start)
  unfolding Logger.middleware join_errors
  middleware-event_of (abort_with_error status e) start z errors = rw errors refl
  middleware-event_of (string status t) start z errors = rw errors refl
  middleware-event_of (json status body) start z errors = rw errors refl
  middleware-event_of (indented_json status body) start z errors = rw errors refl
  middleware-event_of (header name t) start z errors = rw errors refl

  module _ (gin : Gin Request p.Vector) (is_gin : IsGin gin) (is_context : IsContext perform)
      (value : p.Vector → List Str → ℕ) (counting : IsCounting p value)
      (forwarded : Request → Request) (f : Frontend) (filter : FilterFunc) where
    count-method :
        (z : Exchange Request p.Vector) (before : p.Vector) (given_request : Request)
        → z.request ≡ given_request
        → z.counted ≡ before
        → value
            (count_request p z.counted (served p read z))
            (read.method given_request ∷ itoa z.status ∷ [])
          ≡ value before (read.method given_request ∷ itoa z.status ∷ []) + 1
    unfolding count_request
    count-method z before given_request same kept = rw (← same, ← kept) (counting.same z.counted _)

    -- With gin and counters as documented, a request for a data endpoint is answered once, as the
    -- endpoint's contract says of the request that the xff middleware makes of it; the status is
    -- that of the answer, the counter of its method and status goes up by one, and one event is
    -- logged, as an error with the text of the answer's error if the status is 500 or more, and
    -- else as an information. The context had no errors before.
    pub data_handler-logged :
        (x : Exchange Request p.Vector)
        → x.errors ≡ []
        → (c : Call NoJson) × Answers f filter
            (record { remote_addr = remote_addr (forwarded x.request) })
            c
          × (y : Exchange Request p.Vector) × (gin.run
                (middlewares p read gin forwarded)
                (performing (data_handler f filter))
                x
              ≡ returned y)
          × (y.status ≡ status_of c x.status)
          × (y.logged ≡ x.logged ++ event_of c (values_of y x.clock) ∷ [])
          × (value y.counted (read.method (forwarded x.request) ∷ itoa y.status ∷ [])
              ≡ value x.counted (read.method (forwarded x.request) ∷ itoa y.status ∷ []) + 1)
    unfolding count observe log count_request
    data_handler-logged x fresh =
        let r : Frontend.Request = record { remote_addr = remote_addr (forwarded x.request) } in
        let (c, once, answers) = data_handler-Answers f filter r in
        let z = perform c (given p read gin is_gin forwarded x) in
        (
          c,
          answers,
          count p read (observe p read x.clock (log p read x.clock z)),
          middlewares-settled p read gin is_gin forwarded (performing (data_handler f filter)) x
              ∙ ap
                  (λ cs. returned (
                    count p read (
                      observe p read x.clock (
                        settled p read gin is_gin forwarded x.clock (
                          returned
                            (perform_all perform cs (given p read gin is_gin forwarded x)))))))
                  once,
          is_context.status c _,
          ap₂ (λ before event. before ++ event ∷ []) (is_context.logged c _)
              (middleware-event_of c x.clock z
                (is_context.errors c _ ∙ ap (λ es. es ++ errors_of c) fresh)),
          count-method z x.counted (forwarded x.request) (is_context.request c _)
              (is_context.counted c _),
        )
