-- ===== src/StaticRoute.antt =====
-- internal/frontend/ec2/internal/staticroute: the routes that list what lies below each level of
-- the data endpoints. The set and the builder are Go maps; a set's elements are the keys.
pub mod Contents
pub mod Levels
pub mod Listing
pub mod Index
pub mod Order
pub mod Abstract
pub mod Routes
pub mod Tests
pub mod Unique
pub mod WellFormed
use tinkerbell_hegel.Prelude.{
  ℕ, zero, suc, ◌-◌, Bool, true, false, List, [], ◌∷◌, ◌++◌, Option, none, some, length, get_or,
  take, if◌then◌else◌,
}
use tinkerbell_hegel.Strings.{Str, codes, has_prefix, split, join}
use tinkerbell_hegel.Strings.Members.{contains}
use tinkerbell_hegel.GoMap.{GoMap, lookup, put, has_key}
use tinkerbell_hegel.Sort.{sort_by, sort_strings}

-- `unorderedSet`: the keys of a `map[string]struct{}`, in the order of an iteration
abbrev pub UnorderedSet : Type 0
UnorderedSet = List Str

unfoldable pub new_unordered_set : UnorderedSet
new_unordered_set = []

unfoldable pub set_insert : Str → UnorderedSet → UnorderedSet
unfolding contains
set_insert v s = if contains v s then s else s ++ v ∷ []

-- `Range`: the callback's captured variable is the state
unfoldable pub set_range {ℓ} : {S : Type ℓ} → UnorderedSet → (Str → S → S) → S → S
set_range [] fn st = st
set_range (k ∷ s) fn st = set_range s fn (fn k st)

abbrev pub Builder : Type 0
Builder = GoMap UnorderedSet

pub record Route : Type 0 where
  pub endpoint : Str
  pub children : List Str

unfoldable pub new_builder : Builder
new_builder = []

-- the set of a key, which the loop has put there if it was absent
abbrev pub or_empty : Option UnorderedSet → UnorderedSet
or_empty none = []
or_empty (some s) = s

abbrev pub set_at : Str → Builder → UnorderedSet
set_at k b = or_empty (lookup k b)

-- `if _, ok := b[concat]; !ok { b[concat] = newUnorderedSet() }`
unfoldable pub ensure_key : Builder → Str → Builder
unfolding put has_key new_unordered_set
ensure_key b concat = if has_key concat b then b else put concat new_unordered_set b

-- the body of the loop of `FromEndpoint`
unfoldable pub add_child : Builder → Str → Str → Builder
unfolding lookup put set_insert ensure_key
add_child b concat child =
    let b' = ensure_key b concat in put concat (set_insert child (set_at concat b')) b'

-- the loop of `FromEndpoint`, from index `i` down to 1
unfoldable pub add_levels : List Str → ℕ → Builder → Builder
unfolding add_child join
add_levels parts zero b = b
add_levels parts (suc i) b =
    add_levels parts i (add_child b (join (take (suc i) parts) b'/') (get_or parts (suc i) []))

-- the endpoint with a leading slash, split at the slashes
unfoldable pub parts_of : Str → List Str
unfolding has_prefix split
parts_of endpoint =
    let rooted = if has_prefix endpoint b'/' then endpoint else b'/' ∷ endpoint in split rooted b'/'

unfoldable pub from_endpoint : Builder → Str → Builder
unfolding add_levels parts_of
from_endpoint b endpoint = let parts = parts_of endpoint in add_levels parts (length parts - 1) b

-- the callback of `Build`
unfoldable pub append_child : Builder → Str → Str → List Str → List Str
unfolding join has_key
append_child b parent child children =
    let as_parent = join (parent ∷ child ∷ []) b'/' in
    children ++ (if has_key as_parent b then child ++ codes "/" else child) ∷ []

unfoldable pub route_of : Builder → Str → UnorderedSet → Route
unfolding append_child set_range sort_strings
route_of b parent children = record {
  endpoint = parent;
  children = sort_strings (set_range children (append_child b parent) []);
}

-- the loop of `Build`
unfoldable pub build_routes : Builder → Builder → List Route → List Route
unfolding route_of
build_routes b [] routes = routes
build_routes b ((parent, children) ∷ more) routes =
    build_routes b more (routes ++ route_of b parent children ∷ [])

unfoldable pub build : Builder → List Route
unfolding build_routes sort_by
build b = sort_by (λ r. r.endpoint) (build_routes b b [])

-- `FromEndpoint` called on each endpoint in turn
unfoldable pub from_endpoints : List Str → Builder → Builder
unfolding from_endpoint
from_endpoints [] b = b
from_endpoints (e ∷ es) b = from_endpoints es (from_endpoint b e)
