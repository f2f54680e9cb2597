-- ===== src/Hegel/Model.antt =====
-- model.go and client.go: the hardware as the handlers see it. An `int64` stands by its bit pattern.
use tinkerbell_hegel.Prelude.{ℕ, Bool, List, Option}
use tinkerbell_hegel.Strings.{Str}
use tinkerbell_hegel.Errors.{Result, ok}

pub record K8sHardwareDisk : Type 0 where
  pub device : Str

pub record K8sNetworkInterface : Type 0 where
  pub mac : Str
  pub address : Str
  pub netmask : Str
  pub family : ℕ

pub record K8sOperatingSystem : Type 0 where
  pub slug : Str
  pub distro : Str
  pub version : Str
  pub image_tag : Str

pub record K8sNetworkAddress : Type 0 where
  pub address_family : ℕ
  pub address : Str
  pub is_public : Bool

pub record K8sNetwork : Type 0 where
  pub addresses : List K8sNetworkAddress

pub record K8sInstance : Type 0 where
  pub disks : List K8sHardwareDisk
  pub id : Str
  pub hostname : Str
  pub plan : Str
  pub factility : Str
  pub tags : List Str
  pub ssh_keys : List Str
  pub operating_system : K8sOperatingSystem
  pub network : K8sNetwork

pub record K8sHardwareMetadata : Type 0 where
  pub userdata : Option Str
  pub vendordata : Option Str
  pub instance_ : K8sInstance
  pub interfaces : List K8sNetworkInterface
  pub gateway : Str

-- `K8sHardware`, less the pointer that is not part of its JSON
pub record K8sHardware : Type 0 where
  pub metadata : K8sHardwareMetadata

-- `K8sHardware.ID`
unfoldable pub hardware_id : K8sHardware → Result Str
hardware_id h = ok h.metadata.instance_.id

-- `Hardware` of client.go: an object by its two methods
pub record Hardware : Type 0 where
  pub export : Result Str
  pub id : Result Str

-- `K8sHardware.Export`, over `json.Marshal`, and the object that it makes of a `K8sHardware`
unfoldable pub export_hardware : (K8sHardware → Result Str) → K8sHardware → Result Str
export_hardware marshal h = marshal h

unfoldable pub as_hardware : (K8sHardware → Result Str) → K8sHardware → Hardware
unfolding export_hardware hardware_id
as_hardware marshal h = record { export = export_hardware marshal h; id = hardware_id h }

-- `Client` of client.go
pub record Client : Type 0 where
  pub is_healthy : Bool
  pub by_ip : Str → Result Hardware
  pub get_data_model : ℕ
