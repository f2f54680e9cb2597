-- ===== src/Command/Run/Listings.antt =====
-- What a server that `Run` starts lists.
use tinkerbell_hegel.Prelude.{List, ◌++◌, some, ◌≡◌}
use tinkerbell_hegel.Strings
use tinkerbell_hegel.Strings.{codes}
use tinkerbell_hegel.GinUtil.{Registration}
use tinkerbell_hegel.StaticRoute.{Route, build, from_endpoints, new_builder}
use tinkerbell_hegel.Ec2.Routes.{data_routes}
use tinkerbell_hegel.Ec2.Registered.{endpoints_of}
use tinkerbell_hegel.Ec2.Frontend.{group_prefix, static_handler}
use tinkerbell_hegel.Command.{Handler, ec2}
use tinkerbell_hegel.Command.Run.Served.{handler_at}

-- A route of the index is served, with and without a trailing slash, by the listing of its children.
abbrev pub Lists : {I Reading : Type 0} → List (Registration (Handler I Reading)) → Route → Type 0
Lists router r =
    (handler_at (group_prefix ++ r.endpoint) router ≡ some (ec2 (static_handler r.children)))
    × (handler_at (group_prefix ++ r.endpoint ++ codes "/") router
        ≡ some (ec2 (static_handler r.children)))

abbrev index : List Route
index = build (from_endpoints (endpoints_of data_routes) new_builder)
