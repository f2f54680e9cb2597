-- ===== src/Healthcheck/Status.antt =====
-- The revision that the health check reports, by the last settings of the build.
use tinkerbell_hegel.Prelude.{
  Bool, true, false, List, [], ◌∷◌, ◌++◌, ◌≡◌, refl, Option, none, some, if◌then◌else◌, Bool-cases,
  inl, inr,
}
use tinkerbell_hegel.Strings.{Str, codes, str_eq}
use tinkerbell_hegel.Strings.Order.{str_eq_iff}
use tinkerbell_hegel.Healthcheck.{BuildSetting, parse_bool, read_settings, git_revision}

abbrev later : Option Str → Option Str → Option Str
later (some v) before = some v
later none before = before

-- The value of the last setting with a key.
unfoldable pub last_value : Str → List BuildSetting → Option Str
last_value key [] = none
last_value key (i ∷ settings) =
    later (last_value key settings) (if str_eq i.key key then some i.value else none)

abbrev pub revision_of : Option Str → Str → Str
revision_of none revision = revision
revision_of (some v) revision = v

abbrev pub dirty_of : Option Str → Bool → Bool
dirty_of none dirty = dirty
dirty_of (some v) dirty = parse_bool v

abbrev revision_key : Str
revision_key = codes "vcs.revision"

abbrev modified_key : Str
modified_key = codes "vcs.modified"

revision_of-later :
    (o before : Option Str) (revision : Str)
    → revision_of (later o before) revision ≡ revision_of o (revision_of before revision)
revision_of-later none before revision = refl
revision_of-later (some v) before revision = refl

dirty_of-later :
    (o before : Option Str) (dirty : Bool)
    → dirty_of (later o before) dirty ≡ dirty_of o (dirty_of before dirty)
dirty_of-later none before dirty = refl
dirty_of-later (some v) before dirty = refl

modified_not_revision :
    (key : Str) → str_eq key revision_key ≡ true → str_eq key modified_key ≡ false
unfolding str_eq
modified_not_revision key h = rw ((str_eq_iff key revision_key).0 h) refl

read_settings-last_value :
    (settings : List BuildSetting) (revision : Str) (dirty : Bool)
    → read_settings settings revision dirty ≡ (
      revision_of (last_value revision_key settings) revision,
      dirty_of (last_value modified_key settings) dirty,
    )
unfolding read_settings last_value
read_settings-last_value [] revision dirty = refl
read_settings-last_value (i ∷ settings) revision dirty =
    let step : (r m : Option Str)
        → read_settings settings (revision_of r revision) (dirty_of m dirty) ≡ (
          revision_of (later (last_value revision_key settings) r) revision,
          dirty_of (later (last_value modified_key settings) m) dirty,
        ) =
      λ r m.
        rw
          (
            revision_of-later (last_value revision_key settings) r revision,
            dirty_of-later (last_value modified_key settings) m dirty,
          )
          (read_settings-last_value settings (revision_of r revision) (dirty_of m dirty)) in
    elim (Bool-cases (str_eq i.key revision_key)) [
      | inl here ↦ rw (here, modified_not_revision i.key here) (step (some i.value) none)
      | inr other ↦ elim (Bool-cases (str_eq i.key modified_key)) [
        | inl here ↦ rw (other, here) (step none (some i.value))
        | inr neither ↦ rw (other, neither) (step none none)
      ]
    ]

-- The revision is the value of the last `vcs.revision` setting, with the suffix `-dirty` if the last
-- `vcs.modified` setting is true; a setting that is missing counts as empty and as false.
pub git_revision-last_value :
    (settings : List BuildSetting)
    → git_revision settings ≡ (
        if dirty_of (last_value (codes "vcs.modified") settings) false
        then revision_of (last_value (codes "vcs.revision") settings) [] ++ codes "-dirty"
        else revision_of (last_value (codes "vcs.revision") settings) [])
unfolding git_revision
git_revision-last_value settings = rw (read_settings-last_value settings [] false) refl
