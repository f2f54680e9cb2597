-- ===== src/StaticRoute/Tests.antt =====
-- The cases of staticroute_test.go.
use tinkerbell_hegel.Prelude.{List, [], ◌∷◌, ◌≡◌, refl}
use tinkerbell_hegel.Strings.{Str, codes, str_eq, str_less}
use tinkerbell_hegel.StaticRoute.{Route, new_builder, from_endpoints, build}

abbrev route : Str → List Str → Route
route e cs = record { endpoint = e; children = cs }

missing_leading_slash :
    build (from_endpoints (codes "foo/bar" ∷ []) new_builder)
    ≡ route [] (codes "foo/" ∷ []) ∷ route (codes "/foo") (codes "bar" ∷ []) ∷ []
unfolding build from_endpoints new_builder str_eq str_less
missing_leading_slash = refl

nested_endpoints :
    build (from_endpoints (codes "/foo/bar" ∷ codes "/foo/bar/baz" ∷ codes "/a" ∷ []) new_builder)
    ≡ route [] (codes "a" ∷ codes "foo/" ∷ [])
      ∷ route (codes "/foo") (codes "bar/" ∷ [])
      ∷ route (codes "/foo/bar") (codes "baz" ∷ [])
      ∷ []
unfolding build from_endpoints new_builder str_eq str_less
nested_endpoints = refl
