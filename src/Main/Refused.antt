-- ===== src/Main/Refused.antt =====
-- The settings that keep the process from serving.
use tinkerbell_hegel.Prelude.{true, false, [], ◌≡◌, ◌⊎◌}
use tinkerbell_hegel.Strings.{Str, codes, str_eq}
use tinkerbell_hegel.Errors.{GoError, err}
use tinkerbell_hegel.Flatfile
use tinkerbell_hegel.Backend
use tinkerbell_hegel.Xff.{parse}
use tinkerbell_hegel.Command.Flags.Configured.{setting, Given}
use tinkerbell_hegel.Command.Run.{Outside}

-- The settings of the backend's name, the flatfile's path and the trusted proxies.
abbrev pub backend_name : Given → Str
backend_name given =
    setting (given.flag_text (codes "backend")) (given.variable_text (codes "HEGEL_BACKEND"))
      (codes "kubernetes")

abbrev pub flatfile_path : Given → Str
flatfile_path given =
    setting (given.flag_text (codes "flatfile-path"))
      (given.variable_text (codes "HEGEL_FLATFILE_PATH")) []

abbrev pub trusted_proxies : Given → Str
trusted_proxies given =
    setting (given.flag_text (codes "trusted-proxies"))
      (given.variable_text (codes "HEGEL_TRUSTED_PROXIES")) []

-- No backend has the name; or it is the flatfile's, whose file is not read; or the trusted proxies are
-- not parsed.
abbrev pub IsRefused : {Request : Type 0} → Outside Request → Given → Type 0
IsRefused o given =
    ((str_eq (backend_name given) (codes "flatfile") ≡ false)
      × (str_eq (backend_name given) (codes "kubernetes") ≡ false))
    ⊎ (((str_eq (backend_name given) (codes "flatfile") ≡ true)
          × ((e : GoError) × (Flatfile.from_yaml_file o.world.files (flatfile_path given) ≡ err e)))
        ⊎ ((e : GoError) × (parse (trusted_proxies given) ≡ err e)))
