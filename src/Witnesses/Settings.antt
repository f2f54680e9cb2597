-- ===== src/Witnesses/Settings.antt =====
-- The options of the command.
use tinkerbell_hegel.Prelude.{Bool, false, [], Option, none, some, ◌≡◌, refl, ◌∷◌, if◌then◌else◌}
use tinkerbell_hegel.Strings.{Str, codes, str_eq}
use tinkerbell_hegel.Errors.{ok}
use tinkerbell_hegel.Backend.{RootCommandOptions}
use tinkerbell_hegel.Command.Flags.{
  Default, text_default, switch_default, Vpr, RootCommand, Decoded, Library, define_flags, bind_all,
  configure_flags, new_root_command, pre_run,
}
use tinkerbell_hegel.Command.Flags.Configured.{default_of, variable, setting, Given, IsViper}

-- a backend by a flag, the address and the path by variables
abbrev pub given_for : Str → Given
given_for backend = record {
  flag_text = λ name. if str_eq name (codes "backend") then some backend else none;
  flag_switch = λ name. none;
  variable_text = λ name.
      if str_eq name (codes "HEGEL_HTTP_ADDR")
      then some (codes ":8080")
      else if str_eq name (codes "HEGEL_FLATFILE_PATH")
      then some (codes "/hegel.yaml")
      else none;
  variable_switch = λ name. none;
}

abbrev pub text_setting : Str → Vpr → Str → Option Default → Str
text_setting backend v name (some (text_default value)) =
    setting ((given_for backend).flag_text name)
      ((given_for backend).variable_text (variable v name)) value
text_setting backend v name o = []

abbrev pub switch_setting : Str → Vpr → Str → Option Default → Bool
switch_setting backend v name (some (switch_default value)) =
    setting ((given_for backend).flag_switch name)
      ((given_for backend).variable_switch (variable v name)) value
switch_setting backend v name o = false

abbrev pub decoded : Str → Vpr → Decoded
decoded backend v = record {
  text_of = λ name. text_setting backend v name (default_of name v.bound_flags);
  switch_of = λ name. switch_setting backend v name (default_of name v.bound_flags);
}

abbrev pub library_for : Str → Library
library_for backend = record {
  mark_hidden = λ flags name. none;
  bind_pflags = λ flags. none;
  bind_env = λ name. none;
  unmarshal = λ v. ok (decoded backend v);
}

abbrev pub given : Given
given = given_for (codes "flatfile")

abbrev pub library : Library
library = library_for (codes "flatfile")

pub library-IsViper : (backend : Str) → IsViper (library_for backend) (given_for backend)
library-IsViper backend = record {
  text_setting = λ v d name value h bound variables.
      let same : d ≡ decoded backend v = cc in rw (same, bound) refl;
  switch_setting = λ v d name value h bound variables.
      let same : d ≡ decoded backend v = cc in rw (same, bound) refl;
}

abbrev pub made : RootCommand
made = record {
  flags = define_flags [];
  hidden = codes "hegel-api" ∷ [];
  vpr = record {
    env_prefix = codes "HEGEL";
    replaced = b'-';
    replacement = b'_';
    bound_flags = define_flags [];
    bound_env =
        codes "trusted-proxies"
        ∷ codes "http-addr"
        ∷ codes "backend"
        ∷ codes "kubernetes-kubeconfig"
        ∷ codes "kubernetes-apiserver"
        ∷ codes "kubernetes-namespace"
        ∷ codes "flatfile-path"
        ∷ codes "debug"
        ∷ codes "hegel-api"
        ∷ [];
  };
}

pub made-new_root_command : (backend : Str) → new_root_command (library_for backend) ≡ ok made
unfolding new_root_command configure_flags bind_all define_flags
made-new_root_command backend = refl

abbrev pub options_for : Str → RootCommandOptions
options_for name = record {
  trusted_proxies = [];
  http_addr = codes ":8080";
  backend = name;
  kubernetes_api_server = [];
  kubernetes_kubeconfig = [];
  kubernetes_namespace = [];
  flatfile_path = codes "/hegel.yaml";
  debug = false;
  hegel_api = false;
}

abbrev pub options : RootCommandOptions
options = options_for (codes "flatfile")

pub made-pre_run : (backend : Str) → pre_run (library_for backend) made ≡ ok (options_for backend)
unfolding pre_run define_flags str_eq
made-pre_run backend = refl
