-- ===== src/Flatfile.antt =====
-- internal/backend/flatfile: the backend that serves the instances of a YAML file.
pub mod Lookup
use tinkerbell_hegel.Prelude.{Bool, true, List, [], ◌∷◌, Option, none, some, if◌then◌else◌}
use tinkerbell_hegel.Strings.{Str, codes, str_eq}
use tinkerbell_hegel.Errors.{GoError, sentinel, text, Result, ok, err, instance_not_found, ◌>>=◌}
use tinkerbell_hegel.GoMap.{GoMap, lookup, put}
use tinkerbell_hegel.Ec2

pub record IPv4 : Type 0 where
  pub local_ : Str
  pub public_ : Str

pub record IPv6 : Type 0 where
  pub public_ : Str

pub record Os : Type 0 where
  pub slug : Str
  pub distro : Str
  pub version : Str
  pub image_tag : Str
  pub license_activation_state : Str

pub record Metadata : Type 0 where
  pub id : Str
  pub hostname : Str
  pub local_hostname : Str
  pub iqn : Str
  pub plan : Str
  pub facility : Str
  pub tags : List Str
  pub ipv4 : IPv4
  pub ipv6 : IPv6
  pub os : Os

pub record Instance : Type 0 where
  pub userdata : Str
  pub metadata : Metadata

-- `Backend`: a map from public IPv4 addresses
pub record Backend : Type 0 where
  pub instances : GoMap Instance

unfoldable pub to_ec2_instance : Instance → Ec2.Instance
to_ec2_instance i = record {
  userdata = i.userdata;
  metadata = record {
    instance_id = i.metadata.id;
    hostname = i.metadata.hostname;
    local_hostname = i.metadata.local_hostname;
    iqn = i.metadata.iqn;
    plan = i.metadata.plan;
    facility = i.metadata.facility;
    tags = i.metadata.tags;
    public_keys = [];
    public_ipv4 = i.metadata.ipv4.public_;
    public_ipv6 = i.metadata.ipv6.public_;
    local_ipv4 = i.metadata.ipv4.local_;
    operating_system = record {
      slug = i.metadata.os.slug;
      distro = i.metadata.os.distro;
      version = i.metadata.os.version;
      image_tag = i.metadata.os.image_tag;
      license_activation = record { state = i.metadata.os.license_activation_state };
    };
  };
}

-- the loop of `toIPInstanceMap`, over the map made so far
unfoldable pub add_instances : List Instance → GoMap Instance → GoMap Instance
unfolding put
add_instances [] m = m
add_instances (i ∷ is) m = add_instances is (put i.metadata.ipv4.public_ i m)

unfoldable pub to_ip_instance_map : List Instance → GoMap Instance
unfolding add_instances
to_ip_instance_map instances = add_instances instances []

unfoldable pub new_backend : List Instance → Backend
unfolding to_ip_instance_map
new_backend instances = record { instances = to_ip_instance_map instances }

unfoldable pub get_ec2_instance : Backend → Str → Result Ec2.Instance
unfolding to_ec2_instance
get_ec2_instance b ip = elim (lookup ip b.instances) [
  | none ↦ err (sentinel instance_not_found)
  | some hw ↦ ok (to_ec2_instance hw)
]

unfoldable pub is_healthy : Backend → Bool
is_healthy b = true

-- the backend has no hack instances, whatever type they have
unfoldable pub get_hack_instance {ℓ} : {H : Type ℓ} → Backend → Str → Result H
get_hack_instance b ip = err (text (codes "unsupported"))

-- What the YAML decoder and the file system give: the instances in the data, and the data at a path.
pub record Files : Type 1 where
  pub Reader : Type 0
  pub open_file : Str → Result Reader
  pub decode : Reader → Result (List Instance)

module _ (files : Files) where
  open files use {Reader, open_file, decode}

  unfoldable pub from_yaml : Reader → Result Backend
  unfolding new_backend
  from_yaml r = do instances ← decode r; ok (new_backend instances)

  unfoldable pub from_yaml_file : Str → Result Backend
  unfolding from_yaml
  from_yaml_file path =
      if str_eq path []
      then err (text (codes "flatfile: path cannot be empty"))
      else do fh ← open_file path; from_yaml fh
