-- ===== src/GinUtil.antt =====
-- internal/ginutil/router.go. What a handler does to its gin context, and what the program
-- registers with a router, are lists of the calls made, in order.
pub mod Alternate
pub mod Fake
use tinkerbell_hegel.Prelude.{ℕ, List, [], ◌∷◌, ◌++◌, if◌then◌else◌}
use tinkerbell_hegel.Strings.{Str, codes, has_suffix, trim_suffix}
use tinkerbell_hegel.Errors.{GoError}

-- `ctx.AbortWithError`, `ctx.String`, `ctx.JSON` and `ctx.IndentedJSON`, `ctx.Header`
pub data Call (J : Type 0) : Type 0 where
  abort_with_error : ℕ → GoError → Call J
  string : ℕ → Str → Call J
  json : ℕ → J → Call J
  indented_json : ℕ → J → Call J
  header : Str → Str → Call J

-- a `GET` on a router or on a group of it; the group is the prefix that `Group` was given
pub record Registration {ℓ} (H : Type ℓ) : Type ℓ where
  pub group : Str
  pub path : Str
  pub handler : H

-- the paths of the registrations, each behind its group's prefix
abbrev pub full_paths {ℓ} : {H : Type ℓ} → List (Registration H) → List Str
full_paths [] = []
full_paths (r ∷ rs) = (r.group ++ r.path) ∷ full_paths rs

unfoldable pub alternate_endpoint : Str → Str
alternate_endpoint endpoint =
    if has_suffix endpoint b'/' then trim_suffix endpoint b'/' else endpoint ++ codes "/"

module _ {ℓ} {H : Type ℓ} where
  -- `IRouter.GET` on a group, which returns the same router
  unfoldable pub router_get : Str → Str → H → List (Registration H) → List (Registration H)
  router_get group path handler calls =
      calls ++ record { group = group; path = path; handler = handler } ∷ []

  -- `TrailingSlashRouteHelper.GET`
  unfoldable pub slash_get : Str → Str → H → List (Registration H) → List (Registration H)
  unfolding router_get alternate_endpoint
  slash_get group endpoint handler calls =
      router_get group (alternate_endpoint endpoint) handler
        (router_get group endpoint handler calls)
