-- ===== src/Command/Endpoints.antt =====
-- The endpoints of the whole server.
use tinkerbell_hegel.Prelude.{List, ◌≡◌, true, refl}
use tinkerbell_hegel.Strings
use tinkerbell_hegel.Strings.{Str, codes, str_eq, str_less}
use tinkerbell_hegel.Strings.Members.{contains, IsDistinct, distinct_test, distinct_test-IsDistinct}
use tinkerbell_hegel.Errors.{Result}
use tinkerbell_hegel.GinUtil.{alternate_endpoint, full_paths}
use tinkerbell_hegel.StaticRoute.{build, from_endpoints, new_builder}
use tinkerbell_hegel.Ec2.Routes.{data_routes}
use tinkerbell_hegel.Ec2.Frontend.{Client, configure, bind_data, bind_static}
use tinkerbell_hegel.Healthcheck.{BuildSetting}
use tinkerbell_hegel.Command.{configure_router}

router_distinct :
    {I : Type 0} (Reading : Type 0) (settings : List BuildSetting) (be : Client)
    (get_hack_instance : Str → Result I)
    → distinct_test
        (full_paths (configure_router {Reading = Reading} settings be get_hack_instance))
      ≡ true
unfolding configure_router configure bind_data bind_static data_routes build from_endpoints
    new_builder str_eq str_less contains alternate_endpoint Strings.has_suffix
router_distinct Reading settings be get_hack_instance = refl

-- No two endpoints of the server have one path, which a gin router would refuse.
pub configure_router-IsDistinct :
    {I : Type 0} (Reading : Type 0) (settings : List BuildSetting) (be : Client)
    (get_hack_instance : Str → Result I)
    → IsDistinct (full_paths (configure_router {Reading = Reading} settings be get_hack_instance))
configure_router-IsDistinct Reading settings be get_hack_instance =
    distinct_test-IsDistinct _ (router_distinct Reading settings be get_hack_instance)
