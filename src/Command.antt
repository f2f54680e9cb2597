-- ===== src/Command.antt =====
-- The endpoints that `Run` of internal/cmd/root.go registers with its router, and
-- internal/metrics/http.go.
pub mod Endpoints
pub mod Chain
pub mod Run
pub mod Flags
use tinkerbell_hegel.Prelude.{ℕ, Bool, List, [], ◌∷◌, ◌++◌}
use tinkerbell_hegel.Strings.{Str, codes}
use tinkerbell_hegel.Errors.{Result}
use tinkerbell_hegel.GinUtil.{Call, Registration, router_get}
use tinkerbell_hegel.Ec2.Frontend
use tinkerbell_hegel.Hack
use tinkerbell_hegel.Healthcheck
use tinkerbell_hegel.Healthcheck.{BuildSetting, Health}

-- The handlers of one router: that of the metrics registry, which is Prometheus's own, and those of the
-- program's packages. `I` is the hack frontend's instance, `Reading` the runtime's readings.
pub data Handler (I : Type 0) (Reading : Type 0) : Type 0 where
  metrics : Handler I Reading
  health : (Bool → Reading → ℕ → List (Call (Health Reading))) → Handler I Reading
  ec2 : Frontend.Handler → Handler I Reading
  hack : (Str → List (Call I)) → Handler I Reading

-- A package's registrations, among those of the router.
unfoldable pub among {ℓ κ} :
    {A : Type ℓ} {B : Type κ} → (A → B) → List (Registration A) → List (Registration B)
among f [] = []
among f (r ∷ rs) = record { group = r.group; path = r.path; handler = f r.handler } ∷ among f rs

module _ {I : Type 0} {Reading : Type 0} where
  -- `Configure` of internal/metrics
  unfoldable pub configure_metrics :
      List (Registration (Handler I Reading)) → List (Registration (Handler I Reading))
  unfolding router_get
  configure_metrics router = router_get [] (codes "/metrics") metrics router

  -- the calls of `Configure`, in the order of `Run`
  unfoldable pub configure_router :
      List BuildSetting
      → Frontend.Client
      → (Str → Result I)
      → List (Registration (Handler I Reading))
  unfolding configure_metrics among Healthcheck.configure Hack.configure Frontend.new
  configure_router settings be get_hack_instance =
      let with_metrics = configure_metrics [] in
      let with_health = with_metrics ++ among health (Healthcheck.configure [] settings) in
      let fe = Frontend.new be in
      let with_ec2 = with_health ++ among ec2 (Frontend.configure fe []) in
      with_ec2 ++ among hack (Hack.configure [] get_hack_instance)
