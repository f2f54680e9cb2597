-- ===== src/Kubernetes/Connected.antt =====
-- What a backend that `NewBackend` makes lists.
use tinkerbell_hegel.Prelude.{List, [], ◌∷◌, ◌≡◌, inl, inr, refl, subst, ap, ◌∙◌, if◌then◌else◌}
use tinkerbell_hegel.Strings.{Str}
use tinkerbell_hegel.Strings.Members.{contains}
use tinkerbell_hegel.Errors.{Result, ok, Result-cases}
use tinkerbell_hegel.Contexts.{Context, done}
use tinkerbell_hegel.Kubernetes.{Object, Hardware, hardware, hardware_ip_index_func, Backend}
use tinkerbell_hegel.Kubernetes.Connect.{
  ClusterApi, Config, ensure_loaded, default_namespace, hardware_ip_addr_index, new_backend,
}
use tinkerbell_hegel.Kubernetes.Retrieve.{matching, ListsByIndex}

-- The hardware that a function indexes under a key.
abbrev pub indexed_under : (Object → List Str) → Str → List Hardware → List Hardware
indexed_under index key [] = []
indexed_under index key (hw ∷ hws) =
    let rest = indexed_under index key hws in
    if contains key (index (hardware hw)) then hw ∷ rest else rest

-- A cluster takes an index, and lists by it the hardware of the cluster that the index function
-- gives the key.
abbrev pub IndexesObjects : ClusterApi → List Hardware → Type 0
IndexesObjects api items =
    (ctx : Context) (clstr : api.Cluster) (name : Str) (index : Object → List Str)
    → (indexed : api.Cluster) × (api.index_field ctx clstr name index ≡ ok indexed)
      × ((key : Str) → api.list indexed name key ≡ ok (indexed_under index key items))

indexed_under-matching :
    (ip : Str) (items : List Hardware)
    → indexed_under hardware_ip_index_func ip items ≡ matching ip items
indexed_under-matching ip [] = refl
indexed_under-matching ip (hw ∷ hws) = rw (indexed_under-matching ip hws) refl

-- Where the configuration loads, the cluster is made, and it indexes objects as documented,
-- `NewBackend` gives a backend, which lists the cluster's hardware by the program's own index.
pub new_backend-ListsByIndex :
    (api : ClusterApi) (items : List Hardware)
    → IndexesObjects api items
    → (ctx : Context) (cfg loaded : Config api.RestConfig) (clstr : api.Cluster)
    → ensure_loaded api cfg cfg.client_config ≡ ok loaded
    → api.new_cluster loaded.client_config (default_namespace api loaded.namespace) ≡ ok clstr
    → (b : Backend) × (new_backend api ctx cfg ≡ ok b) × ListsByIndex b items
unfolding new_backend
new_backend-ListsByIndex api items indexes ctx cfg loaded clstr loads makes =
    let (indexed, adds, lists) = indexes ctx clstr hardware_ip_addr_index hardware_ip_index_func in
    (
      record {
        list = api.list indexed hardware_ip_addr_index;
        closer = done ctx;
        wait_for_cache_sync = api.wait_for_cache_sync indexed;
      },
      rw (loads, makes, adds) refl,
      λ ip. lists ip ∙ ap ok (indexed_under-matching ip items),
    )

-- Every backend that `NewBackend` makes over such a cluster does.
pub ok-ListsByIndex :
    (api : ClusterApi) (items : List Hardware)
    → IndexesObjects api items
    → (ctx : Context) (cfg : Config api.RestConfig) (b : Backend) → new_backend api ctx cfg ≡ ok b
    → ListsByIndex b items
unfolding new_backend
ok-ListsByIndex api items indexes ctx cfg b h =
    elim (Result-cases (ensure_loaded api cfg cfg.client_config)) [
      | inl (e, failed) ↦ cc (rw (failed, new_backend) at h)
      | inr (loaded, loads) ↦
          elim (Result-cases
            (api.new_cluster loaded.client_config (default_namespace api loaded.namespace))) [
              | inl (e, failed) ↦ cc (rw (loads, failed, new_backend) at h)
              | inr (clstr, makes) ↦
                  let (b', made, lists) =
                    new_backend-ListsByIndex api items indexes ctx cfg loaded clstr loads makes in
                  let same : b' ≡ b = cc in subst (λ x. ListsByIndex x items) same lists
            ]
    ]

ok-closer : (b b' : Backend) → ◌≡◌ {A = Result Backend} (ok b) (ok b') → b'.closer ≡ b.closer
ok-closer b b' e = let same : b' ≡ b = cc in ap (λ x. x.closer) same

-- A backend that `NewBackend` makes has the channel of the context that it is given.
pub new_backend-closer :
    (api : ClusterApi) (ctx : Context) (cfg : Config api.RestConfig) (b : Backend)
    → new_backend api ctx cfg ≡ ok b
    → b.closer ≡ done ctx
unfolding new_backend
new_backend-closer api ctx cfg b h = elim (Result-cases (ensure_loaded api cfg cfg.client_config)) [
  | inl (e, failed) ↦ cc (rw (failed, new_backend) at h)
  | inr (loaded, loads) ↦
      elim (Result-cases
        (api.new_cluster loaded.client_config (default_namespace api loaded.namespace))) [
          | inl (e, failed) ↦ cc (rw (loads, failed, new_backend) at h)
          | inr (clstr, makes) ↦
              elim (Result-cases
                (api.index_field ctx clstr hardware_ip_addr_index hardware_ip_index_func)) [
                  | inl (e, failed) ↦ cc (rw (loads, makes, failed, new_backend) at h)
                  | inr (indexed, adds) ↦ ok-closer _ b (rw (loads, makes, adds, new_backend) at h)
                ]
        ]
]
