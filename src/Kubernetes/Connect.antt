-- ===== src/Kubernetes/Connect.antt =====
-- internal/backend/kubernetes: how a backend is made, over the libraries for a cluster's client.
use tinkerbell_hegel.Prelude.{Bool, List, [], ◌++◌, Option, none, some, if◌then◌else◌}
use tinkerbell_hegel.Strings.{Str, codes, str_eq}
use tinkerbell_hegel.Errors.{GoError, text, error_text, Result, ok, err, ◌>>=◌}
use tinkerbell_hegel.Contexts.{Context, done}
use tinkerbell_hegel.Kubernetes.{Object, Hardware, Backend, hardware_ip_index_func}

-- The libraries for a cluster: `clientcmd`, which loads a client's configuration from a kubeconfig
-- file with the server and namespace that override it, and `cluster`. A cluster with an index added
-- is a new value.
pub record ClusterApi : Type 1 where
  pub RestConfig : Type 0
  pub Cluster : Type 0
  pub client_config : Str → Str → Str → Result RestConfig
  pub new_cluster : Option RestConfig → Option Str → Result Cluster
  pub index_field : Context → Cluster → Str → (Object → List Str) → Result Cluster
  pub list : Cluster → Str → Str → Result (List Hardware)
  pub wait_for_cache_sync : Cluster → Context → Bool

-- `Config`
pub record Config (RestConfig : Type 0) : Type 0 where
  pub kubeconfig : Str
  pub api_server_address : Str
  pub namespace : Str
  pub client_config : Option RestConfig

abbrev pub hardware_ip_addr_index : Str
hardware_ip_addr_index = codes ".Spec.Interfaces.DHCP.IP"

-- the error with the text of another behind a prefix, which `%v` gives
abbrev pub prefixed {ℓ} : {A : Type ℓ} → Str → Result A → Result A
prefixed prefix (ok a) = ok a
prefixed prefix (err e) = err (text (prefix ++ error_text e))

-- how the goroutine that starts the cluster ends, by the error of `Start`
pub data GoroutineEnd : Type 0 where
  finishes : GoroutineEnd
  panics : GoError → GoroutineEnd

unfoldable pub start_cluster : Option GoError → GoroutineEnd
start_cluster none = finishes
start_cluster (some e) = panics e

module _ (api : ClusterApi) where
  unfoldable pub load_config : Config api.RestConfig → Result (Config api.RestConfig)
  load_config cfg = do
    config ← api.client_config cfg.kubeconfig cfg.api_server_address cfg.namespace
    ok (record cfg { client_config = some config })

  -- `if cfg.ClientConfig == nil`
  abbrev pub ensure_loaded :
      Config api.RestConfig → Option api.RestConfig → Result (Config api.RestConfig)
  ensure_loaded cfg (some config) = ok cfg
  ensure_loaded cfg none = load_config cfg

  -- the cluster's namespaces: the one of the configuration, or all
  abbrev pub default_namespace : Str → Option Str
  default_namespace namespace = if str_eq namespace [] then none else some namespace

  -- The goroutine that starts the cluster, `start_cluster`, is not part of the result.
  unfoldable pub new_backend : Context → Config api.RestConfig → Result Backend
  unfolding load_config
  new_backend ctx cfg = do
    loaded ← ensure_loaded cfg cfg.client_config
    clstr ←
        prefixed (codes "create cluster: ")
          (api.new_cluster loaded.client_config (default_namespace loaded.namespace))
    indexed ←
        prefixed (codes "register index: ")
          (api.index_field ctx clstr hardware_ip_addr_index hardware_ip_index_func)
    ok (record {
      list = api.list indexed hardware_ip_addr_index;
      closer = done ctx;
      wait_for_cache_sync = api.wait_for_cache_sync indexed;
    })
