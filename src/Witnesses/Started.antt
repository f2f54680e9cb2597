-- ===== src/Witnesses/Started.antt =====
-- A server that is started.
use tinkerbell_hegel.Prelude.{ℕ, true, [], ◌∷◌, ◌≡◌, ◌≢◌, refl}
use tinkerbell_hegel.Strings.{Str, codes, str_eq, has_byte}
use tinkerbell_hegel.Strings.Members.{contains}
use tinkerbell_hegel.Contexts.{background, with_value}
use tinkerbell_hegel.Errors.{text, ok, err}
use tinkerbell_hegel.Xff.{parse, middleware, middleware_from_unparsed}
use tinkerbell_hegel.Flatfile
use tinkerbell_hegel.Backend
use tinkerbell_hegel.Backend.{RootCommandOptions, to_backend_options, flatfile}
use tinkerbell_hegel.Command.{configure_router}
use tinkerbell_hegel.Metrics.{
  requests_total, request_duration, instrument_request_count, instrument_request_duration,
}
use tinkerbell_hegel.Command.Run.{
  Outside, Running, serves, serve_router, ec2_client, hack_client, shutdown_context, run,
}
use tinkerbell_hegel.Command.Run.Started.{run-once}
use tinkerbell_hegel.Witnesses.Samples.{world, command_options, flat_instances}
use tinkerbell_hegel.Witnesses.Running.{prometheus, forwarded, refusing}

abbrev pub outside : Outside Str
outside = record {
  world = world;
  init_open_telemetry = with_value;
  marshal = λ hw. ok [];
  unmarshal = λ s. err (text (codes "unexpected end of JSON input"));
  xff = record { new = λ allowed. ok forwarded };
  prometheus = prometheus;
  settings = [];
}

abbrev pub flat_options : RootCommandOptions
flat_options = record command_options {
  backend = codes "flatfile";
  flatfile_path = codes "/hegel.yaml";
  trusted_proxies = codes "10.0.0.1, 10.0.1.0/24";
}

abbrev pub started : Running outside ℕ
started = record {
  context = shutdown_context (with_value background);
  address = codes ":50061";
  release_mode = true;
  backend = flatfile (Flatfile.new_backend flat_instances);
  forwarded = forwarded;
  counted = prometheus.new_vector requests_total;
  timed = prometheus.new_vector request_duration;
  registries = record {
    default_registry = requests_total.name ∷ [];
    registrar = request_duration.name ∷ requests_total.name ∷ [];
  };
  router =
      configure_router [] (ec2_client (flatfile (Flatfile.new_backend flat_instances)))
        (hack_client outside (flatfile (Flatfile.new_backend flat_instances)));
}

pub flat_chosen :
    Backend.new world (with_value background) (to_backend_options flat_options) ≡ ok started.backend
unfolding Backend.new Backend.validate to_backend_options Flatfile.from_yaml_file Flatfile.from_yaml
    str_eq
flat_chosen = refl

pub flat_taken : middleware_from_unparsed outside.xff flat_options.trusted_proxies ≡ ok forwarded
unfolding middleware_from_unparsed middleware parse str_eq has_byte
flat_taken = refl

flat_served :
    serve_router outside ℕ (with_value background) flat_options [] started.backend forwarded
    ≡ serves started
unfolding serve_router instrument_request_count instrument_request_duration contains str_eq
flat_served = refl

pub flat_runs : run outside ℕ background flat_options [] ≡ serves started
unfolding run
flat_runs = rw (flat_chosen, flat_taken, run) flat_served

run-once_example :
    run outside ℕ background command_options (requests_total.name ∷ []) ≢ serves started
run-once_example =
    run-once outside refusing background background flat_options command_options [] started started
      flat_runs
