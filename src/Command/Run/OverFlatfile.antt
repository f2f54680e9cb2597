-- ===== src/Command/Run/OverFlatfile.antt =====
-- What a server that `Run` starts over a flatfile answers at the data endpoints.
use tinkerbell_hegel.Prelude.{
  true, List, [], ◌∷◌, ◌≡◌, sym, ap, arith, inl, inr, Bool-cases, ◌∙◌, All, All-map,
}
use tinkerbell_hegel.Strings.{Str, codes, str_eq}
use tinkerbell_hegel.Errors.{ok, Result-cases}
use tinkerbell_hegel.Net.{remote_addr_ip}
use tinkerbell_hegel.Contexts.{Context}
use tinkerbell_hegel.Ec2.Routes.{data_routes}
use tinkerbell_hegel.Ec2.Frontend
use tinkerbell_hegel.Ec2.Frontend.{
  Request, Frontend, Client, group_prefix, data_handler, configure, bind_data, bind_static,
}
use tinkerbell_hegel.Flatfile
use tinkerbell_hegel.Serving.{flatfile_frontend, serve_flatfile, data_handler-flatfile}
use tinkerbell_hegel.Backend.{RootCommandOptions, flatfile}
use tinkerbell_hegel.Backend.Choice.{new-to_backend_options}
use tinkerbell_hegel.Command.Run.{Outside, Running, serves, run, ec2_client}
use tinkerbell_hegel.Command.Run.Started.{run-IsStarted}
use tinkerbell_hegel.Command.Run.Served.{HandledBy, started_routes}

-- The file at a path opens, and its data decodes to the instances.
abbrev pub Decodes : Flatfile.Files → Str → List Flatfile.Instance → Type 0
Decodes files path is =
    (reader : files.Reader) × (files.open_file path ≡ ok reader) × (files.decode reader ≡ ok is)

from_yaml-decodes :
    (files : Flatfile.Files) (reader : files.Reader) (b : Flatfile.Backend)
    → Flatfile.from_yaml files reader ≡ ok b
    → (is : List Flatfile.Instance) × (files.decode reader ≡ ok is) × (b ≡ Flatfile.new_backend is)
unfolding Flatfile.from_yaml
from_yaml-decodes files reader b h = elim (Result-cases (files.decode reader)) [
  | inl (e, failed) ↦ cc (rw (failed, Flatfile.from_yaml) at h)
  | inr (is, decodes) ↦ (is, decodes, ground (arith, rw (decodes, Flatfile.from_yaml) at h))
]

from_yaml_file-Decodes :
    (files : Flatfile.Files) (path : Str) (b : Flatfile.Backend)
    → Flatfile.from_yaml_file files path ≡ ok b
    → (is : List Flatfile.Instance) × Decodes files path is × (b ≡ Flatfile.new_backend is)
unfolding Flatfile.from_yaml_file
from_yaml_file-Decodes files path b h = elim (Bool-cases (str_eq path [])) [
  | inl empty ↦ cc (rw (empty, Flatfile.from_yaml_file) at h)
  | inr named ↦ elim (Result-cases (files.open_file path)) [
    | inl (e, failed) ↦ cc (rw (named, failed, Flatfile.from_yaml_file) at h)
    | inr (reader, opens) ↦
        let (is, decodes, made) =
          from_yaml-decodes files reader b (rw (named, opens, Flatfile.from_yaml_file) at h) in
        (is, (reader, opens, decodes), made)
  ]
]

module _ {Request_ : Type 0} (Reading : Type 0) (o : Outside Request_) where
  started_flatfile :
      (ctx : Context) (opts : RootCommandOptions) (d : o.prometheus.Registry)
      (s : Running o Reading)
      → run o Reading ctx opts d ≡ serves s
      → str_eq opts.backend (codes "flatfile") ≡ true
      → (b : Flatfile.Backend) × (s.backend ≡ flatfile b)
        × (Flatfile.from_yaml_file o.world.files opts.flatfile_path ≡ ok b)
  started_flatfile ctx opts d s h named =
      let i = run-IsStarted o ctx opts d s h in
      let chosen =
        rw named at
          (sym (new-to_backend_options o.world (o.init_open_telemetry ctx) opts) ∙ i.backend) in
      elim (Result-cases (Flatfile.from_yaml_file o.world.files opts.flatfile_path)) [
        | inl (e, failed) ↦ cc (rw failed at chosen)
        | inr (b, read) ↦
            let same : flatfile b ≡ s.backend = ground (arith, rw read at chosen) in
            (b, sym same, read)
      ]

  -- A server that is started over a flatfile has read instances from the file of its options, and has a
  -- handler at the path of every data endpoint, with and without a trailing slash. It answers 400 to a
  -- request whose remote address has no host, 404 where no instance has the host as its public IPv4
  -- address, and else with the endpoint's data of the last instance of the file that has it.
  pub run-flatfile :
      (ctx : Context) (opts : RootCommandOptions) (d : o.prometheus.Registry)
      (s : Running o Reading)
      → run o Reading ctx opts d ≡ serves s
      → str_eq opts.backend (codes "flatfile") ≡ true
      → (is : List Flatfile.Instance) × Decodes o.world.files opts.flatfile_path is
        × All
            (λ r.
              (h : Frontend.Handler) × HandledBy s.router r h
              × ((req : Request)
                  → h req ≡ serve_flatfile r.filter is (remote_addr_ip req.remote_addr) ∷ []))
            data_routes
  unfolding flatfile_frontend
  run-flatfile ctx opts d s h named =
      let (b, same, read) = started_flatfile ctx opts d s h named in
      let (is, decodes, made) = from_yaml_file-Decodes o.world.files opts.flatfile_path b read in
      (
        is,
        decodes,
        All-map _ _
            (λ r handled. (
              data_handler (Frontend.new (ec2_client s.backend)) r.filter,
              handled,
              λ req. rw (same ∙ ap flatfile made) (data_handler-flatfile r.filter is req),
            ))
            data_routes (started_routes Reading o ctx opts d s h),
      )
