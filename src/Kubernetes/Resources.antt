-- ===== src/Kubernetes/Resources.antt =====
-- The parts of Tinkerbell's Hardware resource that internal/backend/kubernetes reads. A pointer is an
-- `Option`.
use tinkerbell_hegel.Prelude.{ℕ, Bool, List, Option}
use tinkerbell_hegel.Strings.{Str}

pub record Ip : Type 0 where
  pub family : ℕ
  pub is_public : Bool
  pub address : Str

pub record InstanceOperatingSystem : Type 0 where
  pub slug : Str
  pub distro : Str
  pub version : Str
  pub image_tag : Str

pub record MetadataInstance : Type 0 where
  pub id : Str
  pub hostname : Str
  pub tags : List Str
  pub operating_system : Option InstanceOperatingSystem
  pub ips : List Ip

pub record MetadataFacility : Type 0 where
  pub plan_slug : Str
  pub facility_code : Str

pub record HardwareMetadata : Type 0 where
  pub instance_ : Option MetadataInstance
  pub facility : Option MetadataFacility

pub record DhcpIp : Type 0 where
  pub address : Str

pub record Dhcp : Type 0 where
  pub ip : Option DhcpIp

pub record Interface : Type 0 where
  pub dhcp : Option Dhcp

pub record Hardware : Type 0 where
  pub metadata : HardwareMetadata
  pub user_data : Option Str
  pub interfaces : List Interface
