-- ===== src/Command/Flags/Configured.antt =====
-- Where the options of the command come from.
use tinkerbell_hegel.Prelude.{
  ℕ, ◌-◌, Bool, true, false, ◌&&◌, List, [], ◌∷◌, ◌++◌, Option, none, some, ◌==◌, leb, map,
  append-nil, append_assoc, ◌≡◌, inl, inr, refl, sym, subst, ◌∙◌, arith, if◌then◌else◌,
}
use tinkerbell_hegel.Strings.{Str, codes, str_eq}
use tinkerbell_hegel.Strings.Members.{contains}
use tinkerbell_hegel.Errors.{GoError, Result, ok, Result-cases}
use tinkerbell_hegel.Backend.{RootCommandOptions}
use tinkerbell_hegel.Command.Flags.{
  Default, text_default, switch_default, Flag, Vpr, RootCommand, Decoded, Library, returning,
  define_flags, bind_all, configure_flags, new_root_command, options_of, pre_run, env_name_prefix,
}

-- the default of a flag, by its name
abbrev pub default_of : Str → List Flag → Option Default
default_of name [] = none
default_of name (f ∷ fs) = if str_eq f.name name then some f.default_ else default_of name fs

abbrev pub upper : ℕ → ℕ
upper c = if leb b'a' c && leb c b'z' then c - 32 else c

-- The variable that is read for a name: the prefix and the name in capitals, with the replacement.
abbrev pub variable_byte : Vpr → ℕ → ℕ
variable_byte v c = if upper c == v.replaced then v.replacement else upper c

abbrev pub variable : Vpr → Str → Str
variable v name = map (variable_byte v) (v.env_prefix ++ b'_' ∷ name)

-- The first of a flag that is set, a variable that is set, and the default.
abbrev pub setting {ℓ} : {A : Type ℓ} → Option A → Option A → A → A
setting (some flag) variable_ default_ = flag
setting none (some variable_) default_ = variable_
setting none none default_ = default_

-- What is given to the process: its flags and its variables, by their names, read as a text or as a
-- switch.
pub record Given : Type 0 where
  pub flag_text : Str → Option Str
  pub flag_switch : Str → Option Bool
  pub variable_text : Str → Option Str
  pub variable_switch : Str → Option Bool

-- What viper documents of `Unmarshal`: a name whose flag and whose variable are bound has its setting.
pub record IsViper (library : Library) (given : Given) : Type 0 where
  pub text_setting :
      (v : Vpr) (d : Decoded) (name value : Str)
      → library.unmarshal v ≡ ok d
      → default_of name v.bound_flags ≡ some (text_default value)
      → contains name v.bound_env ≡ true
      → d.text_of name
        ≡ setting (given.flag_text name) (given.variable_text (variable v name)) value
  pub switch_setting :
      (v : Vpr) (d : Decoded) (name : Str) (value : Bool)
      → library.unmarshal v ≡ ok d
      → default_of name v.bound_flags ≡ some (switch_default value)
      → contains name v.bound_env ≡ true
      → d.switch_of name
        ≡ setting (given.flag_switch name) (given.variable_switch (variable v name)) value

names : List Flag → List Str
names [] = []
names (f ∷ fs) = f.name ∷ names fs

returning-ok :
    {A : Type 0} (o : Option GoError) (r : Result A) (a : A) → returning o r ≡ ok a → r ≡ ok a
returning-ok none r a h = h
returning-ok (some e) r a h = cc

module _ (library : Library) where
  bind_all-names :
      (fs : List Flag) (v v' : Vpr)
      → bind_all library fs v ≡ ok v'
      → ok v' ≡ ok (record v { bound_env = v.bound_env ++ names fs })
  unfolding bind_all names
  bind_all-names [] v v' h = sym h ∙ rw (append-nil v.bound_env) refl
  bind_all-names (f ∷ fs) v v' h =
      bind_all-names fs _ v' (returning-ok (library.bind_env f.name) _ v' h)
      ∙ rw (append_assoc v.bound_env (f.name ∷ []) (names fs)) refl

  -- What is bound once the command is made.
  abbrev bound : Vpr
  unfolding define_flags
  bound = record {
    env_prefix = env_name_prefix;
    replaced = b'-';
    replacement = b'_';
    bound_flags = define_flags [];
    bound_env = names (define_flags []);
  }

  new_root_command-bound : (c : RootCommand) → new_root_command library ≡ ok c → c.vpr ≡ bound
  unfolding new_root_command configure_flags
  new_root_command-bound c h =
      let visited =
        returning-ok (library.bind_pflags (define_flags [])) _ c
          (returning-ok (library.mark_hidden (define_flags []) (codes "hegel-api")) _ c h) in
      elim (Result-cases (bind_all library (define_flags []) (record bound { bound_env = [] }))) [
        | inl (e, failed) ↦ cc (rw failed at visited)
        | inr (v, went) ↦
            let all = bind_all-names (define_flags []) (record bound { bound_env = [] }) v went in
            ground (arith, all, rw went at visited)
      ]

-- The options as they are given: for each, a flag, the variable of the name in capitals, or the
-- default.
pub record AreGiven (given : Given) (opts : RootCommandOptions) : Type 0 where
  pub proxies_given :
      opts.trusted_proxies
      ≡ setting
          (given.flag_text (codes "trusted-proxies"))
          (given.variable_text (codes "HEGEL_TRUSTED_PROXIES"))
          []
  pub addr_given :
      opts.http_addr
      ≡ setting
          (given.flag_text (codes "http-addr"))
          (given.variable_text (codes "HEGEL_HTTP_ADDR"))
          (codes ":50061")
  pub backend_given :
      opts.backend
      ≡ setting
          (given.flag_text (codes "backend"))
          (given.variable_text (codes "HEGEL_BACKEND"))
          (codes "kubernetes")
  pub api_server_given :
      opts.kubernetes_api_server
      ≡ setting
          (given.flag_text (codes "kubernetes-apiserver"))
          (given.variable_text (codes "HEGEL_KUBERNETES_APISERVER"))
          []
  pub kubeconfig_given :
      opts.kubernetes_kubeconfig
      ≡ setting
          (given.flag_text (codes "kubernetes-kubeconfig"))
          (given.variable_text (codes "HEGEL_KUBERNETES_KUBECONFIG"))
          []
  pub namespace_given :
      opts.kubernetes_namespace
      ≡ setting
          (given.flag_text (codes "kubernetes-namespace"))
          (given.variable_text (codes "HEGEL_KUBERNETES_NAMESPACE"))
          []
  pub path_given :
      opts.flatfile_path
      ≡ setting
          (given.flag_text (codes "flatfile-path"))
          (given.variable_text (codes "HEGEL_FLATFILE_PATH"))
          []
  pub debug_given :
      opts.debug
      ≡ setting
          (given.flag_switch (codes "debug"))
          (given.variable_switch (codes "HEGEL_DEBUG"))
          false
  pub hegel_api_given :
      opts.hegel_api
      ≡ setting
          (given.flag_switch (codes "hegel-api"))
          (given.variable_switch (codes "HEGEL_HEGEL_API"))
          false

module _ (library : Library) (given : Given) (is : IsViper library given) where
  options_of-AreGiven :
      (d : Decoded)
      → library.unmarshal (bound library) ≡ ok d
      → AreGiven given (options_of library d)
  unfolding bound define_flags names str_eq contains
  options_of-AreGiven d h = record {
    proxies_given = is.text_setting (bound library) d (codes "trusted-proxies") [] h refl refl;
    addr_given = is.text_setting (bound library) d (codes "http-addr") (codes ":50061") h refl refl;
    backend_given =
        is.text_setting (bound library) d (codes "backend") (codes "kubernetes") h refl refl;
    api_server_given =
        is.text_setting (bound library) d (codes "kubernetes-apiserver") [] h refl refl;
    kubeconfig_given =
        is.text_setting (bound library) d (codes "kubernetes-kubeconfig") [] h refl refl;
    namespace_given =
        is.text_setting (bound library) d (codes "kubernetes-namespace") [] h refl refl;
    path_given = is.text_setting (bound library) d (codes "flatfile-path") [] h refl refl;
    debug_given = is.switch_setting (bound library) d (codes "debug") false h refl refl;
    hegel_api_given = is.switch_setting (bound library) d (codes "hegel-api") false h refl refl;
  }

  -- With viper as documented, once the command is made and its options are read, every option is the
  -- value of the flag of its name if that is set, or else of its variable, or else its default.
  pub pre_run-AreGiven :
      (c : RootCommand) (opts : RootCommandOptions)
      → new_root_command library ≡ ok c
      → pre_run library c ≡ ok opts
      → AreGiven given opts
  unfolding pre_run
  pre_run-AreGiven c opts made h = elim (Result-cases (library.unmarshal c.vpr)) [
    | inl (e, failed) ↦ cc (rw (failed, pre_run) at h)
    | inr (d, decoded) ↦
        let same : options_of library d ≡ opts = ground (arith, rw (decoded, pre_run) at h) in
        subst (AreGiven given) same
          (options_of-AreGiven d (rw (new_root_command-bound library c made) at decoded))
  ]
