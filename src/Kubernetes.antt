-- ===== src/Kubernetes.antt =====
-- internal/backend/kubernetes: the backend that looks hardware up in a cluster. The
-- cluster's client is a parameter.
mod Resources
pub mod Connect
pub mod Connected
pub mod Convert
pub mod Retrieve
pub use Resources.*
use tinkerbell_hegel.Prelude.{
  ℕ, Bool, true, false, not, ◌&&◌, List, [], ◌∷◌, ◌++◌, Option, none, some, ◌==◌, if◌then◌else◌,
}
use tinkerbell_hegel.Strings.{Str, codes, str_eq}
use tinkerbell_hegel.Errors.{
  GoError, sentinel, text, Result, ok, err, instance_not_found, no_hardware_found, is_error, ◌>>=◌,
}
use tinkerbell_hegel.Contexts.{Signal, Context, Done}
use tinkerbell_hegel.Ec2
use tinkerbell_hegel.Ec2.{OperatingSystem, LicenseActivation}

-- `iface.DHCP != nil && iface.DHCP.IP != nil && iface.DHCP.IP.Address != ""`, with the address
abbrev interface_address : Interface → Option Str
interface_address iface = elim iface.dhcp [
  | none ↦ none
  | some dhcp ↦ elim dhcp.ip [
    | none ↦ none
    | some ip ↦ if str_eq ip.address [] then none else some ip.address
  ]
]

abbrev append_some : List Str → Option Str → List Str
append_some resp none = resp
append_some resp (some a) = resp ++ a ∷ []

-- the loop of `hardwareIPIndexFunc`
unfoldable pub index_interfaces : List Interface → List Str → List Str
index_interfaces [] resp = resp
index_interfaces (iface ∷ ifaces) resp =
    index_interfaces ifaces (append_some resp (interface_address iface))

-- `client.Object`: a hardware resource, or an object of another type
pub data Object : Type 0 where
  hardware : Hardware → Object
  other : Object

unfoldable pub hardware_ip_index_func : Object → List Str
unfolding index_interfaces
hardware_ip_index_func (hardware hw) = index_interfaces hw.interfaces []
hardware_ip_index_func other = []

-- The three addresses of the instance that the loop over the IPs sets.
pub record Addresses : Type 0 where
  pub public_ipv4 : Str
  pub local_ipv4 : Str
  pub public_ipv6 : Str

-- the body of the loop
unfoldable pub set_addresses : Ip → Addresses → Addresses
set_addresses ip i =
    let i1 =
      if ip.family == 4 && (ip.is_public && str_eq i.public_ipv4 [])
      then record i { public_ipv4 = ip.address }
      else i in
    let i2 =
      if ip.family == 4 && (not ip.is_public && str_eq i1.local_ipv4 [])
      then record i1 { local_ipv4 = ip.address }
      else i1 in
    if ip.family == 6 && str_eq i2.public_ipv6 []
    then record i2 { public_ipv6 = ip.address }
    else i2

unfoldable pub scan_ips : List Ip → Addresses → Addresses
unfolding set_addresses
scan_ips [] i = i
scan_ips (ip ∷ ips) i = scan_ips ips (set_addresses ip i)

-- `var i ec2.Instance`
abbrev pub zero_instance : Ec2.Instance
zero_instance = record {
  userdata = [];
  metadata = record {
    instance_id = [];
    hostname = [];
    local_hostname = [];
    iqn = [];
    plan = [];
    facility = [];
    tags = [];
    public_keys = [];
    public_ipv4 = [];
    public_ipv6 = [];
    local_ipv4 = [];
    operating_system = record {
      slug = [];
      distro = [];
      version = [];
      image_tag = [];
      license_activation = record { state = [] };
    };
  };
}

abbrev set_operating_system : Option InstanceOperatingSystem → Ec2.Metadata → Ec2.Metadata
set_operating_system none m = m
set_operating_system (some os) m = record m {
  operating_system = record m.operating_system {
    slug = os.slug;
    distro = os.distro;
    version = os.version;
    image_tag = os.image_tag;
  };
}

abbrev addresses : Ec2.Metadata → Addresses
addresses m = record {
  public_ipv4 = m.public_ipv4;
  local_ipv4 = m.local_ipv4;
  public_ipv6 = m.public_ipv6;
}

abbrev set_ips : List Ip → Ec2.Metadata → Ec2.Metadata
set_ips ips m =
    let found = scan_ips ips (addresses m) in
    record m {
      public_ipv4 = found.public_ipv4;
      local_ipv4 = found.local_ipv4;
      public_ipv6 = found.public_ipv6;
    }

-- `if hw.Spec.Metadata.Instance != nil`
abbrev set_instance : Option MetadataInstance → Ec2.Metadata → Ec2.Metadata
set_instance none m = m
set_instance (some inst) m = set_ips inst.ips (
    set_operating_system inst.operating_system (record m {
      instance_id = inst.id;
      hostname = inst.hostname;
      local_hostname = inst.hostname;
      tags = inst.tags;
    }))

-- `if hw.Spec.Metadata.Facility != nil`
abbrev set_facility : Option MetadataFacility → Ec2.Metadata → Ec2.Metadata
set_facility none m = m
set_facility (some f) m = record m { plan = f.plan_slug; facility = f.facility_code }

-- `if hw.Spec.UserData != nil`
abbrev set_userdata : Option Str → Ec2.Instance → Ec2.Instance
set_userdata none i = i
set_userdata (some data_) i = record i { userdata = data_ }

unfoldable pub to_ec2_instance : Hardware → Ec2.Instance
to_ec2_instance hw =
    let i = zero_instance in
    let i1 = record i { metadata = set_instance hw.metadata.instance_ i.metadata } in
    let i2 = record i1 { metadata = set_facility hw.metadata.facility i1.metadata } in
    set_userdata hw.user_data i2

-- `Backend`: the cluster's client, the channel of the context that it was made with, and
-- `WaitForCacheSync`. `list` is `List` with the selector `MatchingFields{hardwareIPAddrIndex: ip}`.
pub record Backend : Type 0 where
  pub list : Str → Result (List Hardware)
  pub closer : Done
  pub wait_for_cache_sync : Context → Bool

-- The `select` is on a channel that is closed or not by the signals received.
unfoldable pub is_healthy : List Signal → Backend → Bool
is_healthy received b = if b.closer received then false else true

-- the tests on `len(hw.Items)`
abbrev one_item : List Hardware → Result Hardware
one_item [] = err (sentinel no_hardware_found)
one_item (hw ∷ []) = ok hw
one_item (hw ∷ _ ∷ _) = err (text (codes "multiple hardware found"))

unfoldable pub retrieve_by_ip : Backend → Str → Result Hardware
retrieve_by_ip b ip = do items ← b.list ip; one_item items

abbrev translate_error : GoError → GoError
translate_error e = if is_error e no_hardware_found then sentinel instance_not_found else e

unfoldable pub get_ec2_instance : Backend → Str → Result Ec2.Instance
unfolding retrieve_by_ip is_error to_ec2_instance
get_ec2_instance b ip = elim (retrieve_by_ip b ip) [
  | err e ↦ err (translate_error e)
  | ok hw ↦ ok (to_ec2_instance hw)
]

-- `json.Marshal` of a `Spec`, and `json.Unmarshal` into a `hack.Instance`
module _ {ℓ} {H : Type ℓ} (marshal : Hardware → Result Str) (unmarshal : Str → Result H) where
  unfoldable pub to_hack_instance : Hardware → Result H
  to_hack_instance hw = do marshalled ← marshal hw; unmarshal marshalled

  unfoldable pub get_hack_instance : Backend → Str → Result H
  unfolding retrieve_by_ip to_hack_instance
  get_hack_instance b ip = do hw ← retrieve_by_ip b ip; to_hack_instance hw
