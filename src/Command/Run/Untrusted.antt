-- ===== src/Command/Run/Untrusted.antt =====
-- Whose requests the xff middleware of internal/xff/xff.go changes in a server that `Run` starts.
use tinkerbell_hegel.Prelude.{Bool, false, List, [], ◌∷◌, ◌≡◌, inl, inr, ap, ◌∙◌, arith, All}
use tinkerbell_hegel.Strings.{Str}
use tinkerbell_hegel.Errors.{ok, Result-cases}
use tinkerbell_hegel.Contexts.{Context}
use tinkerbell_hegel.Xff.{XffLibrary, parse, middleware}
use tinkerbell_hegel.Xff.Entries.{IsNetwork}
use tinkerbell_hegel.Backend.{RootCommandOptions}
use tinkerbell_hegel.Command.Run.{Outside, Running, serves, run}
use tinkerbell_hegel.Command.Run.Started.{run-IsStarted}

-- What the xff library documents: given allowed networks, it leaves the request of a peer that is in
-- none of them as it is. Given none, it takes every peer for allowed, so that nothing is asked of it
-- there. Which peers are in a network is the library's to say.
abbrev pub LeavesOthers : {Request : Type 0} → XffLibrary Request → (Str → Request → Bool) → Type 0
LeavesOthers {Request = Request} library in_network =
    (network : Str) (networks : List Str) (f : Request → Request)
    → library.new (network ∷ networks) ≡ ok f
    → (r : Request) → All (λ n. in_network n r ≡ false) (network ∷ networks)
    → f r ≡ r

middleware-LeavesOthers :
    {Request : Type 0} (library : XffLibrary Request) (in_network : Str → Request → Bool)
    (leaves : LeavesOthers library in_network) (proxies : List Str) (f : Request → Request)
    → middleware library proxies ≡ ok f
    → (r : Request) → All (λ n. in_network n r ≡ false) proxies
    → f r ≡ r
unfolding middleware
middleware-LeavesOthers library in_network leaves [] f h r others =
    let same : f ≡ (λ x. x) = cc in ap (λ g. g r) same
middleware-LeavesOthers library in_network leaves (p ∷ proxies) f h r others =
    elim (Result-cases (library.new (p ∷ proxies))) [
      | inl (e, failed) ↦ cc (rw (failed, middleware) at h)
      | inr (g, made) ↦
          let same : g ≡ f = ground (arith, rw (made, middleware) at h) in
          leaves p proxies f (made ∙ ap ok same) r others
    ]

-- Where the xff library, given allowed networks, leaves the request of a peer in none of them as it
-- is, so does a server that is started, with the networks that `Parse` reads from its options: the
-- handlers are given such a request unchanged, whatever it says that it is forwarded for. With no
-- trusted proxies that is every request, whatever the library makes of no allowed networks.
pub run-LeavesOthers :
    {Request Reading : Type 0} (o : Outside Request) (in_network : Str → Request → Bool)
    (leaves : LeavesOthers o.xff in_network) (ctx : Context) (opts : RootCommandOptions)
    (d : o.prometheus.Registry) (s : Running o Reading)
    → run o Reading ctx opts d ≡ serves s
    → (parsed : List Str) × (parse opts.trusted_proxies ≡ ok parsed)
      × All IsNetwork parsed
      × ((r : Request) → All (λ n. in_network n r ≡ false) parsed → s.forwarded r ≡ r)
run-LeavesOthers o in_network leaves ctx opts d s h =
    let (parsed, read, networks, made) = (run-IsStarted o ctx opts d s h).networks in
    (
      parsed,
      read,
      networks,
      middleware-LeavesOthers o.xff in_network leaves parsed s.forwarded made,
    )
