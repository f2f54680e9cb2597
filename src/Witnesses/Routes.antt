-- ===== src/Witnesses/Routes.antt =====
-- The static routes.
use tinkerbell_hegel.Prelude.{List, [], ◌∷◌, ◌≡◌, ◌↔◌, arith}
use tinkerbell_hegel.Strings.{Str, codes}
use tinkerbell_hegel.Strings.Members.{contains}
use tinkerbell_hegel.StaticRoute.{Route, new_builder, from_endpoints, build}
use tinkerbell_hegel.StaticRoute.Contents.{has, has-from_endpoints}
use tinkerbell_hegel.StaticRoute.WellFormed.{
  IsWellFormed, from_endpoints-IsWellFormed, new_builder-IsWellFormed,
}
use tinkerbell_hegel.StaticRoute.Index.{IsIndex}
use tinkerbell_hegel.StaticRoute.Unique.{IsIndex-build, build-eq_of_contains}
use tinkerbell_hegel.StaticRoute.Order.{build-eq}

abbrev forward : List Str
forward = codes "/a/b" ∷ codes "/c" ∷ []

abbrev backward : List Str
backward = codes "/c" ∷ codes "/a/b" ∷ []

abbrev forward_index : List Route
forward_index =
    record { endpoint = codes "/"; children = codes "a/" ∷ codes "c" ∷ [] }
    ∷ record { endpoint = codes "/a"; children = codes "b" ∷ [] }
    ∷ []

IsIndex-build_example :
    IsIndex forward forward_index ↔ (forward_index ≡ build (from_endpoints forward new_builder))
IsIndex-build_example = IsIndex-build forward forward_index

IsWellFormed-built : (es : List Str) → IsWellFormed (from_endpoints es new_builder)
IsWellFormed-built es = from_endpoints-IsWellFormed es new_builder new_builder-IsWellFormed

same_contents :
    (p c : Str)
    → has (from_endpoints forward new_builder) p c ≡ has (from_endpoints backward new_builder) p c
same_contents p c =
    ground (
      arith,
      has-from_endpoints forward new_builder p c,
      has-from_endpoints backward new_builder p c,
    )

build-eq_example :
    build (from_endpoints forward new_builder) ≡ build (from_endpoints backward new_builder)
build-eq_example =
    build-eq (from_endpoints forward new_builder) (from_endpoints backward new_builder)
      (IsWellFormed-built forward) (IsWellFormed-built backward) same_contents

twice_backward :
    (e : Str) → contains e forward ≡ contains e (codes "/c" ∷ codes "/a/b" ∷ codes "/c" ∷ [])
unfolding contains
twice_backward e = ground arith

build-eq_of_contains_example :
    build (from_endpoints forward new_builder)
    ≡ build (from_endpoints (codes "/c" ∷ codes "/a/b" ∷ codes "/c" ∷ []) new_builder)
build-eq_of_contains_example =
    build-eq_of_contains forward (codes "/c" ∷ codes "/a/b" ∷ codes "/c" ∷ []) twice_backward
