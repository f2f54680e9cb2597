-- ===== src/Witnesses/Process.antt =====
-- The process, and what its server answers besides the data endpoints.
use tinkerbell_hegel.Prelude.{ℕ, true, false, List, [], Option, none, some, ◌≡◌, refl, ◌∙◌}
use tinkerbell_hegel.Strings.{Str, codes, str_eq}
use tinkerbell_hegel.Strings.Members.{contains}
use tinkerbell_hegel.Contexts.{background, with_value}
use tinkerbell_hegel.Errors.{GoError, ok}
use tinkerbell_hegel.Net.{remote_addr_ip}
use tinkerbell_hegel.GinUtil.{Call}
use tinkerbell_hegel.Xff.{parse, middleware, middleware_from_unparsed}
use tinkerbell_hegel.Metrics.{instrument_request_count, instrument_request_duration}
use tinkerbell_hegel.Hack.Model
use tinkerbell_hegel.Flatfile
use tinkerbell_hegel.Backend
use tinkerbell_hegel.Backend.{RootCommandOptions, to_backend_options}
use tinkerbell_hegel.Command.{hack}
use tinkerbell_hegel.Command.Flags.{RootCommand, Library, new_root_command, pre_run}
use tinkerbell_hegel.Command.Flags.Configured.{AreGiven}
use tinkerbell_hegel.Command.Run.{Outside, Running, serves, serve_router, run}
use tinkerbell_hegel.Command.Run.Started.{IsStarted}
use tinkerbell_hegel.Command.Run.Served.{handler_at}
use tinkerbell_hegel.Command.Run.Others.{serve_hack_all, run-metadata}
use tinkerbell_hegel.Server.{
  State, start, returned, Reaches, begin, next, cancel, stop_listening, take_done, take_error,
  shut_down, shutdown_result, sent,
}
use tinkerbell_hegel.Server.Bounded.{IsStuck, IsStuck-returned}
use tinkerbell_hegel.Main.{Arguments, accepted, serving, execute, main}
use tinkerbell_hegel.Main.Exit.{main-IsStarted}
use tinkerbell_hegel.Witnesses.Samples.{world, cluster_items}
use tinkerbell_hegel.Witnesses.Started.{outside, started}
use tinkerbell_hegel.Witnesses.Settings.{
  given, library, library-IsViper, made, options, made-new_root_command, made-pre_run,
}
use tinkerbell_hegel.Witnesses.Served.{
  cluster_options, clustered, cluster_runs, cluster_named, indexes,
}

abbrev main_server : Running outside ℕ
main_server = record started { address = codes ":8080"; forwarded = λ r. r }

options_chosen :
    Backend.new world (with_value background) (to_backend_options options) ≡ ok main_server.backend
unfolding Backend.new Backend.validate to_backend_options Flatfile.from_yaml_file Flatfile.from_yaml
    str_eq
options_chosen = refl

options_taken : middleware_from_unparsed outside.xff options.trusted_proxies ≡ ok (λ r. r)
unfolding middleware_from_unparsed middleware parse str_eq
options_taken = refl

options_served :
    serve_router outside ℕ (with_value background) options [] main_server.backend (λ r. r)
    ≡ serves main_server
unfolding serve_router instrument_request_count instrument_request_duration contains str_eq
options_served = refl

options_run : run outside ℕ background options [] ≡ serves main_server
unfolding run
options_run = rw (options_chosen, options_taken, run) options_served

abbrev pub all_accepted : RootCommand → Arguments
all_accepted root = accepted

pub execute_accepted :
    (o : Outside Str) (l : Library) (arguments : RootCommand → Arguments)
    (d : o.prometheus.Registry) (root : RootCommand) (opts : RootCommandOptions) (s : Running o ℕ)
    → arguments root ≡ accepted
    → pre_run l root ≡ ok opts
    → run o ℕ background opts d ≡ serves s
    → execute o ℕ l arguments d root ≡ serving s
unfolding execute
execute_accepted o l arguments d root opts s a read runs = rw (a, read, runs, execute) refl

pub main-execute :
    (o : Outside Str) (l : Library) (arguments : RootCommand → Arguments)
    (d : o.prometheus.Registry) (root : RootCommand)
    → new_root_command l ≡ ok root
    → main o ℕ l arguments d ≡ execute o ℕ l arguments d root
unfolding main
main-execute o l arguments d root h = rw (h, main) refl

main_serves : main outside ℕ library all_accepted [] ≡ serving main_server
main_serves =
    main-execute outside library all_accepted [] made (made-new_root_command (codes "flatfile"))
    ∙ execute_accepted outside library all_accepted [] made options main_server refl
        (made-pre_run (codes "flatfile")) options_run

main-IsStarted_example :
    (opts : RootCommandOptions) × AreGiven given opts
    × IsStarted outside background opts main_server
main-IsStarted_example =
    main-IsStarted outside library all_accepted [] main_server given
      (library-IsViper (codes "flatfile")) main_serves

run-metadata_example :
    (h : Str → List (Call Model.Instance)) × (handler_at (codes "/metadata") clustered.router
      ≡ some (hack h))
    × ((remote_addr : Str)
        → h remote_addr ≡ serve_hack_all ℕ outside cluster_items (remote_addr_ip remote_addr))
run-metadata_example =
    run-metadata ℕ outside background cluster_options [] clustered cluster_items cluster_runs
      cluster_named indexes

-- a server that was told to stop, and has stopped
abbrev stopped : State
stopped = record {
  phase = returned none;
  listened = some none;
  err_chan = none;
  cancelled = true;
  shutdown = some none;
  closed = false;
}

stopped-Reaches : Reaches false stopped
unfolding start shutdown_result sent
stopped-Reaches =
    next (next (next (next begin cancel) (take_done refl refl)) (shut_down none refl))
      (stop_listening none refl)

stopped-IsStuck : IsStuck stopped
stopped-IsStuck t cancel = refl
stopped-IsStuck t (stop_listening result h) = cc
stopped-IsStuck t (take_done h c) = cc
stopped-IsStuck t (take_error h c) = cc
stopped-IsStuck t (shut_down result h) = cc

IsStuck-returned_example : (result : Option GoError) × (stopped.phase ≡ returned result)
IsStuck-returned_example = IsStuck-returned stopped refl stopped-IsStuck
