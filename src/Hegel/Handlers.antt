-- ===== src/Hegel/Handlers.antt =====
-- hegel.go: the handlers that answer from the metadata of the hardware. `unmarshal` is
-- `json.Unmarshal` into a `K8sHardware`.
use tinkerbell_hegel.Prelude.{
  ℕ, suc, List, [], ◌∷◌, ◌++◌, Option, none, some, length, get_elem?, any, ltb, if◌then◌else◌,
}
use tinkerbell_hegel.Strings.{Str, codes, str_eq}
use tinkerbell_hegel.Strconv.{ℤ, pos, negsuc, atoi, itoa}
use tinkerbell_hegel.Errors.{Result, ok, err, ◌>>=◌}
use tinkerbell_hegel.GinUtil.{Call, string, json, indented_json, header}
use tinkerbell_hegel.Hegel.Model.{K8sHardware, K8sHardwareDisk, K8sNetworkInterface, Client}

pub record MetadataJson : Type 0 where
  pub interfaces : List K8sNetworkInterface
  pub disks : List K8sHardwareDisk
  pub ssh_keys : List Str
  pub hostname : Str
  pub gateway : Str

-- what is written as JSON: nil, or the metadata
pub data Body : Type 0 where
  null : Body
  metadata_json : MetadataJson → Body

-- the parts of `gin.Context` that the handlers read
pub record Context : Type 0 where
  pub client_ip : Str
  pub accept : List Str
  pub index_param : Str
  pub mac_param : Str

abbrev pub Calls : Type 0
Calls = List (Call Body)

abbrev pub line : Str → Str
line s = s ++ codes "\n"

abbrev pub not_found_reply : Calls
not_found_reply = json 404 null ∷ []

-- `fmt.Sprintln(i)` for i from `i`, one call for each element
unfoldable pub list_indices {ℓ} : {A : Type ℓ} → List A → ℕ → Calls
list_indices [] i = []
list_indices (x ∷ xs) i = string 200 (line (itoa i)) ∷ list_indices xs (suc i)

-- the element at an index that `Atoi` gave, if it is in bounds
abbrev pub at_index {ℓ} : {A : Type ℓ} → List A → ℤ → Option A
at_index xs (pos n) = if ltb n (length xs) then get_elem? xs n else none
at_index xs (negsuc n) = none

module _ (client : Client) (unmarshal : Str → Result K8sHardware) where
  unfoldable pub get_hardware : Str → Result K8sHardware
  get_hardware ip = do hw ← client.by_ip ip; ehw ← hw.export; unmarshal ehw

  -- `getHardware(c, client, c.ClientIP())`, and the reply that each handler makes if it fails
  abbrev pub with_hardware : Context → (K8sHardware → Calls) → Calls
  with_hardware c body = elim (get_hardware c.client_ip) [
    | err e ↦ not_found_reply
    | ok hw ↦ body hw
  ]

  abbrev data_reply : Option Str → Calls
  data_reply none = string 200 [] ∷ []
  data_reply (some d) = string 200 (line d) ∷ []

  unfoldable pub userdata_handler : Context → Calls
  userdata_handler c = with_hardware c λ hw. data_reply hw.metadata.userdata

  unfoldable pub vendordata_handler : Context → Calls
  vendordata_handler c = with_hardware c λ hw. data_reply hw.metadata.vendordata

  unfoldable pub metadata_handler : Context → Calls
  metadata_handler c =
      if any (λ h. str_eq h (codes "application/json")) c.accept
      then with_hardware c (λ hw.
        header (codes "Content-Type") (codes "application/json")
        ∷ indented_json 200 (
            metadata_json (record {
              interfaces = hw.metadata.interfaces;
              disks = hw.metadata.instance_.disks;
              ssh_keys = hw.metadata.instance_.ssh_keys;
              hostname = hw.metadata.instance_.hostname;
              gateway = hw.metadata.gateway;
            }))
        ∷ [])
      else string 200 (codes "disks\nssh-public-keys\ngateway\nhostname\n:mac\n") ∷ []

  unfoldable pub disk_handler : Context → Calls
  disk_handler c = with_hardware c λ hw. list_indices hw.metadata.instance_.disks 0

  abbrev disk_reply : Option K8sHardwareDisk → Calls
  disk_reply none = json 400 null ∷ []
  disk_reply (some disk) = string 200 (line disk.device) ∷ []

  unfoldable pub disk_index_handler : Context → Calls
  disk_index_handler c = with_hardware c λ hw. elim (atoi c.index_param) [
    | none ↦ json 400 null ∷ []
    | some index ↦ disk_reply (at_index hw.metadata.instance_.disks index)
  ]

  unfoldable pub ssh_handler : Context → Calls
  ssh_handler c = with_hardware c λ hw. list_indices hw.metadata.instance_.ssh_keys 0

  abbrev ssh_reply : Option Str → Calls
  ssh_reply none = string 400 [] ∷ []
  ssh_reply (some ssh) = string 200 (line ssh) ∷ []

  unfoldable pub ssh_index_handler : Context → Calls
  ssh_index_handler c = with_hardware c λ hw. elim (atoi c.index_param) [
    | none ↦ json 400 null ∷ []
    | some index ↦ ssh_reply (at_index hw.metadata.instance_.ssh_keys index)
  ]

  unfoldable pub hostname_handler : Context → Calls
  hostname_handler c = with_hardware c λ hw. string 200 (line hw.metadata.instance_.hostname) ∷ []

  unfoldable pub gateway_handler : Context → Calls
  gateway_handler c = with_hardware c λ hw. string 200 (line hw.metadata.gateway) ∷ []
