-- ===== src/Witnesses/Served.antt =====
-- The answers of a server that is started.
use tinkerbell_hegel.Prelude.{ℕ, true, [], ◌∷◌, ◌≡◌, refl, All, List}
use tinkerbell_hegel.Strings.{codes, str_eq}
use tinkerbell_hegel.Strings.Members.{contains}
use tinkerbell_hegel.Contexts.{background, with_value, done}
use tinkerbell_hegel.Errors.{ok}
use tinkerbell_hegel.Net.{remote_addr_ip}
use tinkerbell_hegel.Metrics.{instrument_request_count, instrument_request_duration}
use tinkerbell_hegel.Ec2.Frontend
use tinkerbell_hegel.Ec2.Frontend.{Request}
use tinkerbell_hegel.Ec2.Routes.{data_routes}
use tinkerbell_hegel.Flatfile
use tinkerbell_hegel.Kubernetes
use tinkerbell_hegel.Kubernetes.{hardware_ip_index_func}
use tinkerbell_hegel.Kubernetes.Connect
use tinkerbell_hegel.Kubernetes.Connect.{hardware_ip_addr_index}
use tinkerbell_hegel.Kubernetes.Connected.{IndexesObjects, indexed_under}
use tinkerbell_hegel.Serving.{serve_cluster, serve_flatfile}
use tinkerbell_hegel.Backend
use tinkerbell_hegel.Backend.{RootCommandOptions, to_backend_options, flatfile, kubernetes}
use tinkerbell_hegel.Command.{configure_router}
use tinkerbell_hegel.Command.Run.{Running, serves, serve_router, ec2_client, hack_client, run}
use tinkerbell_hegel.Command.Run.Served.{HandledBy, run-kubernetes}
use tinkerbell_hegel.Command.Run.OverFlatfile.{Decodes, run-flatfile}
use tinkerbell_hegel.Witnesses.Samples.{cluster_items, world, remote_addr, remote_ip}
use tinkerbell_hegel.Witnesses.Running.{forwarded}
use tinkerbell_hegel.Witnesses.Started.{outside, flat_options, started, flat_runs, flat_taken}

flat_named : str_eq flat_options.backend (codes "flatfile") ≡ true
unfolding str_eq
flat_named = refl

pub addressed : remote_addr_ip remote_addr ≡ ok remote_ip
unfolding remote_addr_ip
addressed = refl

abbrev pub cluster_options : RootCommandOptions
cluster_options = record flat_options { backend = codes "kubernetes" }

abbrev pub listing : Kubernetes.Backend
listing = record {
  list = λ ip. ok (indexed_under hardware_ip_index_func ip cluster_items);
  closer = done (with_value background);
  wait_for_cache_sync = λ ctx. true;
}

abbrev pub clustered : Running outside ℕ
clustered = record started {
  backend = kubernetes listing;
  router =
      configure_router [] (ec2_client (kubernetes listing))
        (hack_client outside (kubernetes listing));
}

cluster_chosen :
    Backend.new world (with_value background) (to_backend_options cluster_options)
    ≡ ok clustered.backend
unfolding Backend.new Backend.validate Backend.new_kubernetes Connect.new_backend
    Connect.load_config to_backend_options str_eq
cluster_chosen = refl

cluster_served :
    serve_router outside ℕ (with_value background) cluster_options [] clustered.backend forwarded
    ≡ serves clustered
unfolding serve_router instrument_request_count instrument_request_duration contains str_eq
cluster_served = refl

pub cluster_runs : run outside ℕ background cluster_options [] ≡ serves clustered
unfolding run
cluster_runs = rw (cluster_chosen, flat_taken, run) cluster_served

pub cluster_named : str_eq cluster_options.backend (codes "kubernetes") ≡ true
unfolding str_eq
cluster_named = refl

pub indexes : IndexesObjects world.api cluster_items
indexes ctx clstr name index = (index, refl, λ ip. refl)

run-kubernetes_example :
    All
      (λ r.
        (h : Frontend.Handler) × HandledBy clustered.router r h
        × ((req : Request)
            → h req ≡ serve_cluster r.filter cluster_items (remote_addr_ip req.remote_addr) ∷ []))
      data_routes
run-kubernetes_example =
    run-kubernetes ℕ outside background cluster_options [] clustered cluster_items cluster_runs
      cluster_named indexes

run-flatfile_example :
    (is : List Flatfile.Instance) × Decodes world.files (codes "/hegel.yaml") is
    × All
        (λ r.
          (h : Frontend.Handler) × HandledBy started.router r h
          × ((req : Request)
              → h req ≡ serve_flatfile r.filter is (remote_addr_ip req.remote_addr) ∷ []))
        data_routes
run-flatfile_example =
    run-flatfile ℕ outside background flat_options [] started flat_runs flat_named
