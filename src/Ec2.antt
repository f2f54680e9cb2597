-- ===== src/Ec2.antt =====
-- internal/frontend/ec2: the instance data, the table of data endpoints and the frontend.
pub mod Answers
pub mod Routes
pub mod Frontend
pub mod Registered
pub mod Followed
use tinkerbell_hegel.Prelude.{List}
use tinkerbell_hegel.Strings.{Str}

pub record LicenseActivation : Type 0 where
  pub state : Str

pub record OperatingSystem : Type 0 where
  pub slug : Str
  pub distro : Str
  pub version : Str
  pub image_tag : Str
  pub license_activation : LicenseActivation

pub record Metadata : Type 0 where
  pub instance_id : Str
  pub hostname : Str
  pub local_hostname : Str
  pub iqn : Str
  pub plan : Str
  pub facility : Str
  pub tags : List Str
  pub public_keys : List Str
  pub public_ipv4 : Str
  pub public_ipv6 : Str
  pub local_ipv4 : Str
  pub operating_system : OperatingSystem

pub record Instance : Type 0 where
  pub userdata : Str
  pub metadata : Metadata
