-- ===== src/Witnesses/Logged.antt =====
-- A request for a data endpoint, through the middleware of the server.
use tinkerbell_hegel.Prelude.{◌+◌, [], ◌∷◌, ◌++◌, ◌≡◌, refl}
use tinkerbell_hegel.Strings.{Str, codes}
use tinkerbell_hegel.Strconv.{itoa}
use tinkerbell_hegel.GinUtil.{Call}
use tinkerbell_hegel.Flatfile
use tinkerbell_hegel.Serving.{flatfile_frontend}
use tinkerbell_hegel.Ec2.Routes.{FilterFunc}
use tinkerbell_hegel.Ec2.Frontend.{NoJson, Frontend, data_handler}
use tinkerbell_hegel.Ec2.Answers.{Answers}
use tinkerbell_hegel.Command.Chain.{Exchange, returned, middlewares}
use tinkerbell_hegel.Command.Chain.Logged.{
  status_of, errors_of, IsContext, event_of, performing, values_of, data_handler-logged,
}
use tinkerbell_hegel.Witnesses.Samples.{flat_instances}
use tinkerbell_hegel.Witnesses.Running.{
  Vector, prometheus, read, gin, is_gin, value, counting, exchange,
}

abbrev perform : Call NoJson → Exchange Str Vector → Exchange Str Vector
perform c x = record x { status = status_of c x.status; errors = x.errors ++ errors_of c }

is_context : IsContext perform
is_context = record {
  status = λ c x. refl;
  errors = λ c x. refl;
  request = λ c x. refl;
  counted = λ c x. refl;
  logged = λ c x. refl;
}

-- from a machine that the flatfile does not have
abbrev unknown_exchange : Exchange Str Vector
unknown_exchange = record exchange { request = codes "10.0.0.9:80" }

abbrev hostname : FilterFunc
hostname = λ i. i.metadata.hostname

abbrev frontend : Frontend
frontend = flatfile_frontend (Flatfile.new_backend flat_instances)

data_handler-logged_example :
    (c : Call NoJson) × Answers frontend hostname (record { remote_addr = codes "10.0.0.9:80" }) c
    × (y : Exchange Str Vector) × (gin.run
          (middlewares prometheus read gin (λ r. r))
          (performing prometheus read (λ r. r) perform (data_handler frontend hostname))
          unknown_exchange
        ≡ returned y)
    × (y.status ≡ status_of c 200)
    × (y.logged ≡ event_of c (values_of prometheus read (λ r. r) perform y 7) ∷ [])
    × (value y.counted (codes "GET" ∷ itoa y.status ∷ []) ≡ 0 + 1)
data_handler-logged_example =
    data_handler-logged prometheus read (λ r. r) perform gin is_gin is_context value counting
      (λ r. r) frontend hostname unknown_exchange refl
