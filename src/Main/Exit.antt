-- ===== src/Main/Exit.antt =====
-- What the process serves, and how it ends.
use tinkerbell_hegel.Prelude.{◌≡◌, ◌⊎◌, inl, inr, refl, ap, ◌∙◌, arith}
use tinkerbell_hegel.Contexts.{background}
use tinkerbell_hegel.Errors.{GoError, ok, Result-cases}
use tinkerbell_hegel.Backend.{RootCommandOptions}
use tinkerbell_hegel.Command.Flags.{RootCommand, Library, new_root_command, pre_run}
use tinkerbell_hegel.Command.Flags.Configured.{Given, IsViper, AreGiven, pre_run-AreGiven}
use tinkerbell_hegel.Command.Run.{Outside, Running, Outcome, fails, panics, serves, run}
use tinkerbell_hegel.Command.Run.Started.{IsStarted, run-IsStarted}
use tinkerbell_hegel.Main.{Arguments, refused, help, accepted, serving, execute, main}

pub Outcome-cases :
    {Request Reading : Type 0} (o : Outside Request) (r : Outcome o Reading)
    → ((e : GoError) × (r ≡ fails e)) ⊎ ((r ≡ panics) ⊎ ((s : Running o Reading) × (r ≡ serves s)))
Outcome-cases o (fails e) = inl (e, refl)
Outcome-cases o panics = inr (inl refl)
Outcome-cases o (serves s) = inr (inr (s, refl))

module _ {Request Reading : Type 0} (o : Outside Request) (library : Library)
    (arguments : RootCommand → Arguments) (d : o.prometheus.Registry) (s : Running o Reading) where
  execute-serving :
      (root : RootCommand) (a : Arguments)
      → arguments root ≡ a
      → execute o Reading library arguments d root ≡ serving s
      → (opts : RootCommandOptions) × (pre_run library root ≡ ok opts)
        × (run o Reading background opts d ≡ serves s)
  unfolding execute
  execute-serving root (refused e) a h = cc (rw (a, execute) at h)
  execute-serving root help a h = cc (rw (a, execute) at h)
  execute-serving root accepted a h = elim (Result-cases (pre_run library root)) [
    | inl (e, failed) ↦ cc (rw (a, failed, execute) at h)
    | inr (opts, read) ↦ elim (Outcome-cases o (run o Reading background opts d)) [
      | inl (e, ends) ↦ cc (rw (a, read, ends, execute) at h)
      | inr (inl ends) ↦ cc (rw (a, read, ends, execute) at h)
      | inr (inr (s', ends)) ↦
          let same : s' ≡ s = ground (arith, rw (a, read, ends, execute) at h) in
          (opts, read, ends ∙ ap serves same)
    ]
  ]

  main-serving :
      main o Reading library arguments d ≡ serving s
      → (root : RootCommand) × (new_root_command library ≡ ok root)
        × (execute o Reading library arguments d root ≡ serving s)
  unfolding main
  main-serving h = elim (Result-cases (new_root_command library)) [
    | inl (e, failed) ↦ cc (rw (failed, main) at h)
    | inr (root, made) ↦ (root, made, rw (made, main) at h)
  ]

  -- A process that comes to serve does so by a `Run` with the background context.
  pub main-runs :
      main o Reading library arguments d ≡ serving s
      → (opts : RootCommandOptions) × (run o Reading background opts d ≡ serves s)
  main-runs h =
      let (root, made, executed) = main-serving h in
      let (opts, read, runs) = execute-serving root (arguments root) refl executed in (opts, runs)

  -- With viper as documented, a process that comes to serve has the options that it is given, by flags,
  -- variables or defaults, and serves as they say: on their address, with the backend that they
  -- choose, behind an xff middleware of valid networks, and with endpoints that a router takes.
  pub main-IsStarted :
      (given : Given) (is : IsViper library given)
      → main o Reading library arguments d ≡ serving s
      → (opts : RootCommandOptions) × AreGiven given opts × IsStarted o background opts s
  main-IsStarted given is h =
      let (root, made, executed) = main-serving h in
      let (opts, read, runs) = execute-serving root (arguments root) refl executed in
      (
        opts,
        pre_run-AreGiven library given is root opts made read,
        run-IsStarted o background opts d s runs,
      )
