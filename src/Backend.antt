-- ===== src/Backend.antt =====
-- internal/backend/backend.go, and `toBackendOptions` of internal/cmd/root.go, which makes its input.
pub mod Choice
use tinkerbell_hegel.Prelude.{
  ℕ, suc, ◌+◌, Bool, true, false, Option, none, some, ◌++◌, ltb, if◌then◌else◌,
}
use tinkerbell_hegel.Strings.{Str, codes, str_eq}
use tinkerbell_hegel.Errors.{
  GoError, sentinel, text, error_text, Result, ok, err, missing_backend_config, multiple_backends,
  ◌>>=◌,
}
use tinkerbell_hegel.Contexts.{Context}
use tinkerbell_hegel.Flatfile
use tinkerbell_hegel.Kubernetes
use tinkerbell_hegel.Kubernetes.Connect
use tinkerbell_hegel.Kubernetes.Connect.{Config, ClusterApi}

-- `Flatfile`, the options of the flatfile backend
pub record FlatfileOptions : Type 0 where
  pub path : Str

-- `R` is the type of a cluster's client configuration, `rest.Config`.
pub record Options (R : Type 0) : Type 0 where
  pub flatfile : Option FlatfileOptions
  pub kubernetes : Option (Config R)

abbrev count_some {ℓ} : {A : Type ℓ} → Option A → ℕ → ℕ
count_some none count = count
count_some (some a) count = count + 1

-- `validate`, with `none` for the nil error
unfoldable pub validate : {R : Type 0} → Options R → Option GoError
validate o =
    let count = count_some o.kubernetes (count_some o.flatfile 0) in
    if ltb 1 count then some (sentinel multiple_backends) else none

-- What `New` calls and the repository does not hold: the files, and the libraries for a cluster.
pub record World : Type 1 where
  pub files : Flatfile.Files
  pub api : ClusterApi

-- `Client`: one of the two backends
pub data Client : Type 0 where
  flatfile : Flatfile.Backend → Client
  kubernetes : Kubernetes.Backend → Client

module _ (w : World) where
  -- the branch of a Kubernetes configuration
  unfoldable pub new_kubernetes : Context → Config w.api.RestConfig → Result Client
  new_kubernetes ctx cfg =
      let own : Config w.api.RestConfig = record {
        kubeconfig = cfg.kubeconfig;
        api_server_address = cfg.api_server_address;
        namespace = cfg.namespace;
        client_config = none;
      } in
      elim (Connect.new_backend w.api ctx own) [
        | err e ↦ err (text (codes "kubernetes client: " ++ error_text e))
        | ok kubeclient ↦
            if kubeclient.wait_for_cache_sync ctx
            then ok (kubernetes kubeclient)
            else err (text (codes "failed to sync kubernetes cache"))
      ]

  -- the `switch`
  abbrev choose :
      Context → Option FlatfileOptions → Option (Config w.api.RestConfig) → Result Client
  choose ctx (some f) k = do b ← Flatfile.from_yaml_file w.files f.path; ok (flatfile b)
  choose ctx none (some k) = new_kubernetes ctx k
  choose ctx none none = err (sentinel missing_backend_config)

  unfoldable pub new : Context → Options w.api.RestConfig → Result Client
  unfolding validate new_kubernetes
  new ctx opts = elim (validate opts) [
    | some e ↦ err e
    | none ↦ choose ctx opts.flatfile opts.kubernetes
  ]

-- `RootCommandOptions`
pub record RootCommandOptions : Type 0 where
  pub trusted_proxies : Str
  pub http_addr : Str
  pub backend : Str
  pub kubernetes_api_server : Str
  pub kubernetes_kubeconfig : Str
  pub kubernetes_namespace : Str
  pub flatfile_path : Str
  pub debug : Bool
  pub hegel_api : Bool

unfoldable pub to_backend_options : {R : Type 0} → RootCommandOptions → Options R
to_backend_options opts =
    if str_eq opts.backend (codes "flatfile")
    then record { flatfile = some (record { path = opts.flatfile_path }); kubernetes = none }
    else if str_eq opts.backend (codes "kubernetes")
    then record {
      flatfile = none;
      kubernetes = some (record {
        kubeconfig = opts.kubernetes_kubeconfig;
        api_server_address = opts.kubernetes_api_server;
        namespace = opts.kubernetes_namespace;
        client_config = none;
      });
    }
    else record { flatfile = none; kubernetes = none }
