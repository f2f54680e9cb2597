-- ===== src/Backend/Choice.antt =====
-- Which backend the options choose.
use tinkerbell_hegel.Prelude.{
  Bool-cases, inl, inr, Option, none, some, ◌≡◌, sym, ◌∙◌, arith, if◌then◌else◌,
}
use tinkerbell_hegel.Strings.{codes, str_eq}
use tinkerbell_hegel.Errors.{
  sentinel, Result, ok, err, missing_backend_config, multiple_backends, Result-cases, ◌>>=◌,
}
use tinkerbell_hegel.Contexts.{Context, done}
use tinkerbell_hegel.Flatfile
use tinkerbell_hegel.Kubernetes
use tinkerbell_hegel.Kubernetes.Connect
use tinkerbell_hegel.Kubernetes.Connect.{Config}
use tinkerbell_hegel.Kubernetes.Connected.{new_backend-closer}
use tinkerbell_hegel.Backend.{
  FlatfileOptions, validate, World, Client, flatfile, kubernetes, new, new_kubernetes,
  RootCommandOptions, to_backend_options,
}

-- The backend that each pair of options stands for.
abbrev outcome :
    (w : World)
    → Context
    → Option FlatfileOptions
    → Option (Config w.api.RestConfig)
    → Result Client
outcome w ctx (some f) (some k) = err (sentinel multiple_backends)
outcome w ctx (some f) none = Flatfile.from_yaml_file w.files f.path >>= λ b. ok (flatfile b)
outcome w ctx none (some k) = new_kubernetes w ctx k
outcome w ctx none none = err (sentinel missing_backend_config)

-- One configuration gives its backend, two are refused before anything is opened, and none is
-- refused as missing.
pub new-outcome :
    (w : World) (ctx : Context) (flat : Option FlatfileOptions)
    (kube : Option (Config w.api.RestConfig))
    → new w ctx (record { flatfile = flat; kubernetes = kube }) ≡ outcome w ctx flat kube
unfolding new
new-outcome w ctx none none = ground arith
new-outcome w ctx none (some k) = ground arith
new-outcome w ctx (some f) none = ground arith
new-outcome w ctx (some f) (some k) = ground arith

-- The command's options never hold two configurations.
pub to_backend_options-validate :
    (R : Type 0) (opts : RootCommandOptions) → validate (to_backend_options {R = R} opts) ≡ none
unfolding validate to_backend_options
to_backend_options-validate R opts = ground arith

-- A backend name chooses its backend, with the options of that backend, and any other name is
-- refused as a missing configuration.
pub new-to_backend_options :
    (w : World) (ctx : Context) (opts : RootCommandOptions)
    → new w ctx (to_backend_options opts) ≡ (
        if str_eq opts.backend (codes "flatfile")
        then (Flatfile.from_yaml_file w.files opts.flatfile_path >>= λ b. ok (flatfile b))
        else if str_eq opts.backend (codes "kubernetes")
        then new_kubernetes w ctx (record {
          kubeconfig = opts.kubernetes_kubeconfig;
          api_server_address = opts.kubernetes_api_server;
          namespace = opts.kubernetes_namespace;
          client_config = none;
        })
        else err (sentinel missing_backend_config))
unfolding new to_backend_options
new-to_backend_options w ctx opts = ground arith

-- A Kubernetes backend that is chosen is one that its package makes.
pub new_kubernetes-ok :
    (w : World) (ctx : Context) (cfg : Config w.api.RestConfig) (be : Client)
    → new_kubernetes w ctx cfg ≡ ok be
    → (b : Kubernetes.Backend) × (be ≡ kubernetes b)
      × (Connect.new_backend w.api ctx (record cfg { client_config = none }) ≡ ok b)
unfolding new_kubernetes
new_kubernetes-ok w ctx cfg be h =
    elim (Result-cases (Connect.new_backend w.api ctx (record cfg { client_config = none }))) [
      | inl (e, failed) ↦ cc (rw (failed, new_kubernetes) at h)
      | inr (b, made) ↦ elim (Bool-cases (b.wait_for_cache_sync ctx)) [
        | inr unsynced ↦ cc (rw (made, unsynced, new_kubernetes) at h)
        | inl synced ↦ (b, ground (arith, rw (made, new_kubernetes) at h, synced), made)
      ]
    ]

-- The channel of a backend over a cluster is the one of a context.
abbrev pub IsClosedBy : Context → Client → Type 0
IsClosedBy ctx (flatfile b) = Unit
IsClosedBy ctx (kubernetes b) = b.closer ≡ done ctx

-- A backend that the command's options choose is closed by the context that `New` is given.
pub new-IsClosedBy :
    (w : World) (ctx : Context) (opts : RootCommandOptions) (be : Client)
    → new w ctx (to_backend_options opts) ≡ ok be
    → IsClosedBy ctx be
new-IsClosedBy w ctx opts (flatfile b) h = tt
new-IsClosedBy w ctx opts (kubernetes b) h =
    let chosen = sym (new-to_backend_options w ctx opts) ∙ h in
    elim (Bool-cases (str_eq opts.backend (codes "flatfile"))) [
      | inl named ↦ elim (Result-cases (Flatfile.from_yaml_file w.files opts.flatfile_path)) [
        | inl (e, failed) ↦ cc (rw (named, failed) at chosen)
        | inr (f, read) ↦ cc (rw (named, read) at chosen)
      ]
      | inr other ↦ elim (Bool-cases (str_eq opts.backend (codes "kubernetes"))) [
        | inr unknown ↦ cc (rw (other, unknown) at chosen)
        | inl named ↦
            let (b', same, made) = new_kubernetes-ok w ctx _ _ (rw (other, named) at chosen) in
            let one : b ≡ b' = cc in rw one (new_backend-closer w.api ctx _ b' made)
      ]
    ]
