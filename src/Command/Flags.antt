-- ===== src/Command/Flags.antt =====
-- `NewRootCommand`, `configureFlags` and `PreRun` of internal/cmd/root.go. What they call on the
-- libraries for flags and configuration is recorded; what those give back is a parameter.
pub mod Configured
use tinkerbell_hegel.Prelude.{ℕ, Bool, true, false, List, [], ◌∷◌, ◌++◌, Option, none, some}
use tinkerbell_hegel.Strings.{Str, codes}
use tinkerbell_hegel.Errors.{GoError, Result, ok, err, ◌>>=◌}
use tinkerbell_hegel.Backend.{RootCommandOptions}

-- the two types of a flag, with the value that it has if it is not set
pub data Default : Type 0 where
  text_default : Str → Default
  switch_default : Bool → Default

pub record Flag : Type 0 where
  pub name : Str
  pub default_ : Default
  pub usage : Str

-- The calls made on a `viper.Viper`: its prefix and its replacer for variables, and what is bound
-- to it.
pub record Vpr : Type 0 where
  pub env_prefix : Str
  pub replaced : ℕ
  pub replacement : ℕ
  pub bound_flags : List Flag
  pub bound_env : List Str

pub record RootCommand : Type 0 where
  pub flags : List Flag
  pub hidden : List Str
  pub vpr : Vpr

-- What `Unmarshal` gives a field of each type, by the field's tag.
pub record Decoded : Type 0 where
  pub text_of : Str → Str
  pub switch_of : Str → Bool

-- The libraries: the errors that `MarkHidden`, `BindPFlags` and `BindEnv` return, and `Unmarshal`.
pub record Library : Type 0 where
  pub mark_hidden : List Flag → Str → Option GoError
  pub bind_pflags : List Flag → Option GoError
  pub bind_env : Str → Option GoError
  pub unmarshal : Vpr → Result Decoded

abbrev pub env_name_prefix : Str
env_name_prefix = codes "HEGEL"

-- `Flags().String` and `Flags().Bool`
abbrev pub string_flag : Str → Str → Str → List Flag → List Flag
string_flag name value usage flags =
    flags ++ record { name = name; default_ = text_default value; usage = usage } ∷ []

abbrev pub bool_flag : Str → Bool → Str → List Flag → List Flag
bool_flag name value usage flags =
    flags ++ record { name = name; default_ = switch_default value; usage = usage } ∷ []

unfoldable pub define_flags : List Flag → List Flag
define_flags f0 =
    let f1 =
      string_flag (codes "trusted-proxies") []
        (codes
          "A commma separated list of allowed peer IPs and/or CIDR blocks to replace with X-Forwarded-For")
        f0 in
    let f2 =
      string_flag (codes "http-addr") (codes ":50061") (codes "Port to listen on for HTTP requests")
        f1 in
    let f3 =
      string_flag (codes "backend") (codes "kubernetes")
        (codes "Backend to use for metadata. Options: flatfile, kubernetes") f2 in
    let f4 =
      string_flag (codes "kubernetes-kubeconfig") [] (codes "Path to a kubeconfig file") f3 in
    let f5 =
      string_flag (codes "kubernetes-apiserver") [] (codes "URL of the Kubernetes API Server") f4 in
    let f6 =
      string_flag (codes "kubernetes-namespace") []
        (codes "The Kubernetes namespace to target; defaults to the service account") f5 in
    let f7 = string_flag (codes "flatfile-path") [] (codes "Path to the flatfile metadata") f6 in
    let f8 = bool_flag (codes "debug") false (codes "Enable debug logging") f7 in
    bool_flag (codes "hegel-api") false
      (codes "Toggle to true to enable Hegel's new experimental API. Default is false.") f8

-- an error that a call returns ends the function
abbrev pub returning {ℓ} : {A : Type ℓ} → Option GoError → Result A → Result A
returning (some e) rest = err e
returning none rest = rest

module _ (library : Library) where
  -- the loop of `VisitAll`, which binds nothing after an error
  unfoldable pub bind_all : List Flag → Vpr → Result Vpr
  bind_all [] vpr = ok vpr
  bind_all (f ∷ fs) vpr =
      returning (library.bind_env f.name)
        (bind_all fs (record vpr { bound_env = vpr.bound_env ++ f.name ∷ [] }))

  unfoldable pub configure_flags : RootCommand → Result RootCommand
  unfolding define_flags bind_all
  configure_flags c =
      let flags = define_flags c.flags in
      returning (library.mark_hidden flags (codes "hegel-api")) (
        returning (library.bind_pflags flags) (do
          vpr ← bind_all flags (record c.vpr { bound_flags = flags })
          ok (record { flags = flags; hidden = c.hidden ++ codes "hegel-api" ∷ []; vpr = vpr })))

  unfoldable pub new_root_command : Result RootCommand
  unfolding configure_flags
  new_root_command = configure_flags (record {
    flags = [];
    hidden = [];
    vpr = record {
      env_prefix = env_name_prefix;
      replaced = b'-';
      replacement = b'_';
      bound_flags = [];
      bound_env = [];
    };
  })

  -- the fields of the options, by their tags
  abbrev pub options_of : Decoded → RootCommandOptions
  options_of d = record {
    trusted_proxies = d.text_of (codes "trusted-proxies");
    http_addr = d.text_of (codes "http-addr");
    backend = d.text_of (codes "backend");
    kubernetes_api_server = d.text_of (codes "kubernetes-apiserver");
    kubernetes_kubeconfig = d.text_of (codes "kubernetes-kubeconfig");
    kubernetes_namespace = d.text_of (codes "kubernetes-namespace");
    flatfile_path = d.text_of (codes "flatfile-path");
    debug = d.switch_of (codes "debug");
    hegel_api = d.switch_of (codes "hegel-api");
  }

  -- the options of the command after `PreRun`
  unfoldable pub pre_run : RootCommand → Result RootCommandOptions
  pre_run c = do d ← library.unmarshal c.vpr; ok (options_of d)
