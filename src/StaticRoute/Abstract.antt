-- ===== src/StaticRoute/Abstract.antt =====
-- A builder by what it holds: which children are under which parents, and not how its maps and sets are
-- ordered.
use mathlib.Core.Quot
use mathlib.Core.Quot.{Quot, Quot-set}
use tinkerbell_hegel.Prelude.{◌||◌, List, [], ◌∷◌, ◌≡◌, refl, ◌∙◌, arith}
use tinkerbell_hegel.Strings.{Str}
use tinkerbell_hegel.StaticRoute.{Builder, Route, build, from_endpoints, new_builder}
use tinkerbell_hegel.StaticRoute.Contents.{has, endpoint_test, has-from_endpoints}
use tinkerbell_hegel.StaticRoute.WellFormed.{
  IsWellFormed, from_endpoints-IsWellFormed, new_builder-IsWellFormed,
}
use tinkerbell_hegel.StaticRoute.Order.{build-eq}

abbrev pub WellFormed : Type 0
WellFormed = (b : Builder) × IsWellFormed b

abbrev pub SameContents : WellFormed → WellFormed → Type 0
SameContents b b' = (p c : Str) → has b.0 p c ≡ has b'.0 p c

abbrev pub Contents : Type 0
Contents = Quot SameContents

abbrev pub empty : Contents
empty = Quot.mk (new_builder, new_builder-IsWellFormed)

abbrev pub add_to : Str → WellFormed → WellFormed
add_to e b = (from_endpoints (e ∷ []) b.0, from_endpoints-IsWellFormed (e ∷ []) b.0 b.1)

pub has-add_to :
    (e : Str) (b : WellFormed) (p c : Str)
    → has (add_to e b).0 p c ≡ (endpoint_test e p c || has b.0 p c)
has-add_to e b p c = has-from_endpoints (e ∷ []) b.0 p c ∙ ground arith

pub add_to-SameContents :
    (e : Str) (b b' : WellFormed) → SameContents b b' → SameContents (add_to e b) (add_to e b')
add_to-SameContents e b b' same p c =
    ground (arith, has-add_to e b p c, has-add_to e b' p c, same p c)

-- `FromEndpoint` on what a builder holds
unfoldable pub add : Str → Contents → Contents
add e =
    Quot.lift Quot-set (λ b. Quot.mk (add_to e b))
      (λ b b' same. Quot.sound (add_to-SameContents e b b' same))

pub Route-set : IsSet (List Route)
Route-set = hlevel

-- `Build` on what a builder holds
unfoldable pub routes : Contents → List Route
routes = Quot.lift Route-set (λ b. build b.0) (λ b b' same. build-eq b.0 b'.0 b.1 b'.1 same)

-- The endpoints are added one after the other.
abbrev pub add_all : List Str → Contents → Contents
add_all [] b = b
add_all (e ∷ es) b = add_all es (add e b)

-- The order and the repetition of `FromEndpoint` are forgotten: two endpoints may be added in either
-- order, and one may be added twice, without a change of what the builder holds.
pub add_comm :
    (e f : Str) (b : Contents) → (add e (add f b) ≡ add f (add e b)) × (add e (add e b) ≡ add e b)
unfolding add
add_comm e f =
    Quot.ind (λ b. hlevel (Quot-set {r = SameContents}))
      (λ b. (
        Quot.sound (λ p c. ground (
          arith,
          has-add_to e (add_to f b) p c,
          has-add_to f b p c,
          has-add_to f (add_to e b) p c,
          has-add_to e b p c,
        )),
        Quot.sound (λ p c. ground (arith, has-add_to e (add_to e b) p c, has-add_to e b p c)),
      ))

-- `Build` after `FromEndpoint` on each of the endpoints depends on nothing but what the builder
-- holds: it is the function of that, after the endpoints are added to it.
pub routes-add_all :
    (es : List Str) (b : WellFormed)
    → routes (add_all es (Quot.mk b)) ≡ build (from_endpoints es b.0)
unfolding routes add from_endpoints
routes-add_all [] b = refl
routes-add_all (e ∷ es) b = routes-add_all es (add_to e b)
