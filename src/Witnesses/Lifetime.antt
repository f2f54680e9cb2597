-- ===== src/Witnesses/Lifetime.antt =====
-- A process over a cluster, from its start to its exit.
use tinkerbell_hegel.Prelude.{ℕ, Bool, true, false, List, [], ◌∷◌, none, some, ◌≡◌, ◌≤◌, refl, ◌∙◌}
use tinkerbell_hegel.Strings.{codes, str_eq}
use tinkerbell_hegel.Strings.Members.{contains}
use tinkerbell_hegel.Contexts.{Signal, sigterm, background, with_value}
use tinkerbell_hegel.Errors.{ok}
use tinkerbell_hegel.GinUtil.{Call, json}
use tinkerbell_hegel.Healthcheck.{Health, git_revision}
use tinkerbell_hegel.Xff.{parse, middleware, middleware_from_unparsed}
use tinkerbell_hegel.Metrics.{instrument_request_count, instrument_request_duration}
use tinkerbell_hegel.Kubernetes.Connect
use tinkerbell_hegel.Backend
use tinkerbell_hegel.Backend.{to_backend_options}
use tinkerbell_hegel.Command.{health}
use tinkerbell_hegel.Command.Run.{Running, serves, serve_router, run, is_healthy}
use tinkerbell_hegel.Command.Run.Served.{handler_at}
use tinkerbell_hegel.Server.{start, returned, shutdown_result, take_done, shut_down}
use tinkerbell_hegel.Main.{serving, main}
use tinkerbell_hegel.Main.Lifetime.{
  in_serve, telemetry_stopped, Alive, alive, exited, LivesTo, serving_starts, then_lives, receive,
  cancel, serve, stop_notify, stop_telemetry, exit,
}
use tinkerbell_hegel.Main.Lifetime.Ends.{
  rests, goes_on, LivesOn, moves_on, IsSettled, HasEnded, main-HasEnded,
}
use tinkerbell_hegel.Main.Lifetime.Lawful.{ExitsLawfully, main-IsLawful}
use tinkerbell_hegel.Main.Lifetime.Healthy.{main-always_healthy}
use tinkerbell_hegel.Witnesses.Samples.{world}
use tinkerbell_hegel.Witnesses.Started.{outside}
use tinkerbell_hegel.Witnesses.Settings.{
  library_for, made, options_for, made-new_root_command, made-pre_run,
}
use tinkerbell_hegel.Witnesses.Served.{clustered}
use tinkerbell_hegel.Witnesses.Process.{all_accepted, execute_accepted, main-execute}

abbrev cluster_server : Running outside ℕ
cluster_server = record clustered { address = codes ":8080"; forwarded = λ r. r }

cluster_chosen :
    Backend.new world
      (with_value background)
      (to_backend_options (options_for (codes "kubernetes")))
    ≡ ok cluster_server.backend
unfolding Backend.new Backend.validate Backend.new_kubernetes Connect.new_backend
    Connect.load_config to_backend_options str_eq
cluster_chosen = refl

cluster_taken : middleware_from_unparsed outside.xff [] ≡ ok (λ r. r)
unfolding middleware_from_unparsed middleware parse str_eq
cluster_taken = refl

cluster_served :
    serve_router outside ℕ
      (with_value background)
      (options_for (codes "kubernetes"))
      []
      cluster_server.backend
      (λ r. r)
    ≡ serves cluster_server
unfolding serve_router instrument_request_count instrument_request_duration contains str_eq
cluster_served = refl

cluster_run : run outside ℕ background (options_for (codes "kubernetes")) [] ≡ serves cluster_server
unfolding run
cluster_run = rw (cluster_chosen, cluster_taken, run) cluster_served

cluster_main :
    main outside ℕ (library_for (codes "kubernetes")) all_accepted [] ≡ serving cluster_server
cluster_main =
    main-execute outside (library_for (codes "kubernetes")) all_accepted [] made
      (made-new_root_command (codes "kubernetes"))
    ∙ execute_accepted outside (library_for (codes "kubernetes")) all_accepted [] made
        (options_for (codes "kubernetes")) cluster_server refl (made-pre_run (codes "kubernetes"))
        cluster_run

-- after a SIGTERM, with the goroutine that starts the cluster still running
abbrev last_alive : Alive
last_alive = record {
  received = sigterm ∷ [];
  server = record {
    phase = returned none;
    listened = none;
    err_chan = none;
    cancelled = true;
    shutdown = some none;
    closed = false;
  };
  deferred = telemetry_stopped;
  starting = true;
}

stopped-LivesTo : LivesTo cluster_server (exited 0 last_alive)
unfolding start shutdown_result
stopped-LivesTo =
    then_lives
      (then_lives
        (then_lives
          (then_lives
            (then_lives
              (then_lives (then_lives serving_starts (receive sigterm refl)) (cancel refl refl))
              (serve (take_done refl refl) refl))
            (serve (shut_down none refl) refl))
          (stop_notify refl refl))
        (stop_telemetry refl))
      (exit refl refl)

main-IsLawful_example : ExitsLawfully 0 last_alive
main-IsLawful_example =
    main-IsLawful outside (library_for (codes "kubernetes")) all_accepted [] cluster_server
      (exited 0 last_alive) (λ ctx received h. h) cluster_main stopped-LivesTo

main-always_healthy_example :
    (h : Bool → ℕ → ℕ → List (Call (Health ℕ))) × (handler_at (codes "/healthz") clustered.router
      ≡ some (health h))
    × ((received : List Signal) (since : ℕ) (goroutines : ℕ)
        → h (is_healthy received clustered.backend) since goroutines
          ≡ json 200 (record {
            git_rev = git_revision [];
            uptime = since;
            goroutines = goroutines;
            hardware_client_available = true;
          })
            ∷ [])
main-always_healthy_example =
    main-always_healthy outside (library_for (codes "kubernetes")) all_accepted [] cluster_server
      (λ ctx received h. h) cluster_main

-- before the signal reaches `Serve`
abbrev told_alive : Alive
told_alive = record last_alive { server = start false; deferred = in_serve }

told_run : LivesOn cluster_server (alive told_alive) (exited 0 last_alive)
unfolding start shutdown_result
told_run = goes_on (cancel refl refl) (
    goes_on (serve (take_done refl refl) refl) (
      goes_on (serve (shut_down none refl) refl) (
        goes_on (stop_notify refl refl)
          (goes_on (stop_telemetry refl) (goes_on (exit refl refl) rests)))))

main-HasEnded_example :
    (moves_on cluster_server told_run ≤ 8)
    × (IsSettled cluster_server (exited 0 last_alive) → HasEnded (exited 0 last_alive))
main-HasEnded_example =
    main-HasEnded outside (library_for (codes "kubernetes")) all_accepted [] cluster_server
      told_alive (exited 0 last_alive) cluster_main refl told_run
