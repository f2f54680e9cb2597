-- ===== src/Main.antt =====
-- cmd/hegel/main.go: the process, from its arguments to its exit code.
pub mod Exit
pub mod Lifetime
pub mod Refused
use tinkerbell_hegel.Prelude.{ℕ, Option, none, some}
use tinkerbell_hegel.Contexts.{background}
use tinkerbell_hegel.Errors.{GoError, Result, ok, err}
use tinkerbell_hegel.Command.Flags.{RootCommand, Library, new_root_command, pre_run}
use tinkerbell_hegel.Command.Run.{Outside, Running, fails, panics, serves, run}

-- What cobra makes of the process's arguments before it calls `PreRun` and `Run`.
pub data Arguments : Type 0 where
  refused : GoError → Arguments
  help : Arguments
  accepted : Arguments

-- the exit code after `Execute`, by the error that it returns
abbrev pub exit_code : Option GoError → ℕ
exit_code none = 0
exit_code (some e) = 1

module _ {Request : Type 0} (o : Outside Request) (Reading : Type 0) where
  -- The process has exited, has crashed on a panic, or is in `Serve`, whose result is that of
  -- `Execute`.
  pub data Process : Type 0 where
    exits : ℕ → Process
    crashes : Process
    serving : Running o Reading → Process

  module _ (library : Library) (arguments : RootCommand → Arguments)
      (default_registry : o.prometheus.Registry) where
    -- `Execute`, which gives a command without a context the background one, and what `main` does with
    -- its result
    unfoldable pub execute : RootCommand → Process
    unfolding pre_run run
    execute root = elim (arguments root) [
      | refused e ↦ exits (exit_code (some e))
      | help ↦ exits (exit_code none)
      | accepted ↦ elim (pre_run library root) [
        | err e ↦ exits (exit_code (some e))
        | ok opts ↦ elim (run o Reading background opts default_registry) [
          | fails e ↦ exits (exit_code (some e))
          | panics ↦ crashes
          | serves s ↦ serving s
        ]
      ]
    ]

    unfoldable pub main : Process
    unfolding new_root_command execute
    main = elim (new_root_command library) [ err e ↦ exits 1 | ok root ↦ execute root ]
