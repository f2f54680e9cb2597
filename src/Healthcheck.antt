-- ===== src/Healthcheck.antt =====
-- internal/healthcheck: the handler behind `/healthz`, and internal/build, whose revision it reports.
pub mod Status
use tinkerbell_hegel.Prelude.{
  ℕ, Bool, true, false, List, [], ◌∷◌, ◌++◌, if◌then◌else◌, Option, none, some,
}
use tinkerbell_hegel.Strings.{Str, codes, str_eq}
use tinkerbell_hegel.GinUtil.{Call, json, Registration, router_get}

-- `debug.BuildSetting`
pub record BuildSetting : Type 0 where
  pub key : Str
  pub value : Str

-- the values that `strconv.ParseBool` reads as true; it gives false for all else, with or without an
-- error
abbrev parse_bool : Str → Bool
parse_bool s =
    if str_eq s (codes "1")
    then true
    else if str_eq s (codes "t")
    then true
    else if str_eq s (codes "T")
    then true
    else if str_eq s (codes "TRUE")
    then true
    else if str_eq s (codes "true")
    then true
    else str_eq s (codes "True")

-- the loop over `info.Settings`: the revision and whether it is dirty
unfoldable pub read_settings : List BuildSetting → Str → Bool → Str × Bool
read_settings [] revision dirty = (revision, dirty)
read_settings (i ∷ settings) revision dirty =
    let is_revision = str_eq i.key (codes "vcs.revision") in
    let is_modified = str_eq i.key (codes "vcs.modified") in
    read_settings settings (if is_revision then i.value else revision)
      (if is_revision then dirty else if is_modified then parse_bool i.value else dirty)

-- `init` of the package, and the value that `GetGitRevision` returns after it
unfoldable pub git_revision : List BuildSetting → Str
unfolding read_settings
git_revision settings =
    let (revision, dirty) = read_settings settings [] false in
    if dirty then revision ++ codes "-dirty" else revision

-- The response of the health check. The runtime's readings, the uptime and the number of
-- goroutines, are values of a type that the program does not look into.
pub record Health (Reading : Type 0) : Type 0 where
  pub git_rev : Str
  pub uptime : Reading
  pub goroutines : ℕ
  pub hardware_client_available : Bool

module _ {Reading : Type 0} where
  -- the handler that `NewHandler` returns, given the client's answer and the readings
  unfoldable pub new_handler : List BuildSetting → Bool → Reading → ℕ → List (Call (Health Reading))
  unfolding git_revision
  new_handler settings is_healthy since goroutines =
      let status = if is_healthy then 200 else 500 in
      json status (record {
        git_rev = git_revision settings;
        uptime = since;
        goroutines = goroutines;
        hardware_client_available = is_healthy;
      })
      ∷ []

  -- `Configure`: the handler is made once, and the client and the readings are asked at each request
  unfoldable pub configure :
      List (Registration (Bool → Reading → ℕ → List (Call (Health Reading))))
      → List BuildSetting
      → List (Registration (Bool → Reading → ℕ → List (Call (Health Reading))))
  unfolding new_handler router_get
  configure router settings = router_get [] (codes "/healthz") (new_handler settings) router
