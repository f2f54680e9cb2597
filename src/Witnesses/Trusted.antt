-- ===== src/Witnesses/Trusted.antt =====
-- A server with trusted proxies.
use tinkerbell_hegel.Prelude.{
  ℕ, Bool, false, List, [], ◌∷◌, ◌++◌, ◌≡◌, refl, ap, ◌∙◌, arith, any, All, if◌then◌else◌,
}
use tinkerbell_hegel.Strings.{Str, codes, str_eq, has_byte}
use tinkerbell_hegel.Strings.Members.{contains}
use tinkerbell_hegel.Contexts.{background, with_value}
use tinkerbell_hegel.Errors.{ok}
use tinkerbell_hegel.Xff.{XffLibrary, parse, middleware, middleware_from_unparsed}
use tinkerbell_hegel.Xff.Entries.{IsNetwork}
use tinkerbell_hegel.Metrics.{instrument_request_count, instrument_request_duration}
use tinkerbell_hegel.Command.Run.{Outside, Running, serves, serve_router, run}
use tinkerbell_hegel.Command.Run.Untrusted.{LeavesOthers, run-LeavesOthers}
use tinkerbell_hegel.Witnesses.Started.{outside, flat_options, started, flat_chosen}

abbrev in_network : Str → Str → Bool
in_network network r = str_eq network (r ++ codes "/32")

-- without allowed networks, every peer is allowed
abbrev forward : List Str → Str → Str
forward [] r = codes "203.0.113.7"
forward (n ∷ ns) r = if any (λ n. in_network n r) (n ∷ ns) then codes "203.0.113.7" else r

abbrev trusting : XffLibrary Str
trusting = record { new = λ allowed. ok (forward allowed) }

any-none :
    (allowed : List Str) (r : Str)
    → All (λ n. in_network n r ≡ false) allowed
    → any (λ n. in_network n r) allowed ≡ false
any-none [] r h = refl
any-none (n ∷ ns) r (h, hs) = ground (arith, h, any-none ns r hs)

trusting-LeavesOthers : LeavesOthers trusting in_network
trusting-LeavesOthers n ns f h r others =
    let same : f ≡ forward (n ∷ ns) = cc in
    ap (λ g. g r) same ∙ rw (any-none (n ∷ ns) r others) refl

abbrev proxied : Outside Str
proxied = record outside { xff = trusting }

abbrev proxies : List Str
proxies = codes "10.0.0.1/32" ∷ codes "10.0.1.0/24" ∷ []

abbrev proxied_server : Running proxied ℕ
proxied_server = record {
  context = started.context;
  address = started.address;
  release_mode = started.release_mode;
  backend = started.backend;
  forwarded = forward proxies;
  counted = started.counted;
  timed = started.timed;
  registries = started.registries;
  router = started.router;
}

proxied_taken :
    middleware_from_unparsed proxied.xff flat_options.trusted_proxies ≡ ok (forward proxies)
unfolding middleware_from_unparsed middleware parse str_eq has_byte
proxied_taken = refl

proxied_served :
    serve_router proxied ℕ (with_value background) flat_options [] started.backend (forward proxies)
    ≡ serves proxied_server
unfolding serve_router instrument_request_count instrument_request_duration contains str_eq
proxied_served = refl

proxied_runs : run proxied ℕ background flat_options [] ≡ serves proxied_server
unfolding run
proxied_runs = rw (flat_chosen, proxied_taken, run) proxied_served

run-LeavesOthers_example :
    (parsed : List Str) × (parse flat_options.trusted_proxies ≡ ok parsed)
    × All IsNetwork parsed
    × ((r : Str) → All (λ n. in_network n r ≡ false) parsed → proxied_server.forwarded r ≡ r)
run-LeavesOthers_example =
    run-LeavesOthers proxied in_network trusting-LeavesOthers background flat_options []
      proxied_server proxied_runs
