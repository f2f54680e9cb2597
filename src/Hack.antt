-- ===== src/Hack.antt =====
-- internal/frontend/hack/hack.go. `I` is its `Instance`, a tree of JSON fields that the program does
-- not look into.
pub mod Model
use tinkerbell_hegel.Prelude.{List, [], ◌∷◌, ◌++◌}
use tinkerbell_hegel.Strings.{Str, codes}
use tinkerbell_hegel.Errors.{GoError, text, Result, ok, err}
use tinkerbell_hegel.Net.{remote_addr_ip}
use tinkerbell_hegel.GinUtil.{Call, abort_with_error, json, Registration, router_get}

module _ {I : Type 0} where
  -- the handler's code after the address is known, or is the empty string
  unfoldable pub respond : (Str → Result I) → Str → List (Call I)
  respond get_hack_instance ip = elim (get_hack_instance ip) [
    | err e ↦ abort_with_error 500 e ∷ []
    | ok found ↦ json 200 found ∷ []
  ]

  -- the handler that `Configure` registers; the branch of a bad address does not return
  unfoldable pub metadata_handler : (Str → Result I) → Str → List (Call I)
  unfolding respond
  metadata_handler get_hack_instance remote_addr = elim (remote_addr_ip remote_addr) [
    | err e ↦
        abort_with_error 400 (text (codes "invalid remote address")) ∷ respond get_hack_instance []
    | ok ip ↦ respond get_hack_instance ip
  ]

  unfoldable pub configure :
      List (Registration (Str → List (Call I)))
      → (Str → Result I)
      → List (Registration (Str → List (Call I)))
  unfolding metadata_handler router_get
  configure router get_hack_instance =
      router_get [] (codes "/metadata") (metadata_handler get_hack_instance) router
