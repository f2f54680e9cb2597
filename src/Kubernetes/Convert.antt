-- ===== src/Kubernetes/Convert.antt =====
-- How hardware becomes an EC2 instance: the addresses are the first that fit.
use tinkerbell_hegel.Prelude.{
  Bool, not, ◌&&◌, List, [], ◌∷◌, ◌≡◌, refl, ap, ◌∙◌, arith, Option, none, some, ◌==◌,
  if◌then◌else◌,
}
use tinkerbell_hegel.Strings.{Str, str_eq}
use tinkerbell_hegel.Strings.Order.{str_eq_iff}
use tinkerbell_hegel.Ec2
use tinkerbell_hegel.Kubernetes.{
  Ip, InstanceOperatingSystem, MetadataInstance, MetadataFacility, Hardware, Addresses,
  set_addresses, scan_ips, to_ec2_instance, set_instance, zero_instance, addresses,
  set_operating_system,
}

-- The first nonempty address of an IP that passes the test, or the empty text.
pub first_address : (Ip → Bool) → List Ip → Str
first_address test [] = []
first_address test (ip ∷ ips) =
    let rest = first_address test ips in
    if test ip && not (str_eq ip.address []) then ip.address else rest

abbrev pub or_first : Str → (Ip → Bool) → List Ip → Str
or_first old test ips = if str_eq old [] then first_address test ips else old

abbrev pub public_v4 : Ip → Bool
public_v4 ip = ip.family == 4 && ip.is_public

abbrev pub local_v4 : Ip → Bool
local_v4 ip = ip.family == 4 && not ip.is_public

abbrev pub any_v6 : Ip → Bool
any_v6 ip = ip.family == 6

public_ipv4-scan_ips :
    (ips : List Ip) (i : Addresses)
    → (scan_ips ips i).public_ipv4 ≡ or_first i.public_ipv4 public_v4 ips
unfolding scan_ips first_address
public_ipv4-scan_ips [] i = ground (arith, str_eq_iff i.public_ipv4 [])
public_ipv4-scan_ips (ip ∷ ips) i =
    ground (arith, public_ipv4-scan_ips ips (set_addresses ip i), str_eq_iff i.public_ipv4 [])

local_ipv4-scan_ips :
    (ips : List Ip) (i : Addresses)
    → (scan_ips ips i).local_ipv4 ≡ or_first i.local_ipv4 local_v4 ips
unfolding scan_ips first_address
local_ipv4-scan_ips [] i = ground (arith, str_eq_iff i.local_ipv4 [])
local_ipv4-scan_ips (ip ∷ ips) i =
    ground (arith, local_ipv4-scan_ips ips (set_addresses ip i), str_eq_iff i.local_ipv4 [])

public_ipv6-scan_ips :
    (ips : List Ip) (i : Addresses)
    → (scan_ips ips i).public_ipv6 ≡ or_first i.public_ipv6 any_v6 ips
unfolding scan_ips first_address
public_ipv6-scan_ips [] i = ground (arith, str_eq_iff i.public_ipv6 [])
public_ipv6-scan_ips (ip ∷ ips) i =
    ground (arith, public_ipv6-scan_ips ips (set_addresses ip i), str_eq_iff i.public_ipv6 [])

-- The hardware's instance and its operating system, as texts that are empty where a pointer is nil.
abbrev pub of_instance : (MetadataInstance → Str) → Hardware → Str
of_instance f hw = elim hw.metadata.instance_ [ none ↦ [] | some i ↦ f i ]

abbrev pub of_os : (InstanceOperatingSystem → Str) → Hardware → Str
of_os f = of_instance (λ i. elim i.operating_system [ none ↦ [] | some os ↦ f os ])

abbrev pub of_facility : (MetadataFacility → Str) → Hardware → Str
of_facility f hw = elim hw.metadata.facility [ none ↦ [] | some x ↦ f x ]

-- The contract of the conversion, field by field.
pub record IsConverted (hw : Hardware) (e : Ec2.Instance) : Type 0 where
  pub userdata : e.userdata ≡ elim hw.user_data [ none ↦ [] | some u ↦ u ]
  pub instance_id : e.metadata.instance_id ≡ of_instance (λ i. i.id) hw
  pub hostname : e.metadata.hostname ≡ of_instance (λ i. i.hostname) hw
  pub local_hostname : e.metadata.local_hostname ≡ e.metadata.hostname
  pub plan : e.metadata.plan ≡ of_facility (λ x. x.plan_slug) hw
  pub facility : e.metadata.facility ≡ of_facility (λ x. x.facility_code) hw
  pub tags : e.metadata.tags ≡ elim hw.metadata.instance_ [ none ↦ [] | some i ↦ i.tags ]
  pub slug : e.metadata.operating_system.slug ≡ of_os (λ os. os.slug) hw
  pub distro : e.metadata.operating_system.distro ≡ of_os (λ os. os.distro) hw
  pub version : e.metadata.operating_system.version ≡ of_os (λ os. os.version) hw
  pub image_tag : e.metadata.operating_system.image_tag ≡ of_os (λ os. os.image_tag) hw
  pub public_ipv4 : e.metadata.public_ipv4 ≡ of_instance (λ i. first_address public_v4 i.ips) hw
  pub local_ipv4 : e.metadata.local_ipv4 ≡ of_instance (λ i. first_address local_v4 i.ips) hw
  pub public_ipv6 : e.metadata.public_ipv6 ≡ of_instance (λ i. first_address any_v6 i.ips) hw
  pub never_set :
      (e.metadata.iqn ≡ [])
      × (e.metadata.public_keys ≡ [])
      × (e.metadata.operating_system.license_activation.state ≡ [])

abbrev scanned : Option MetadataInstance → Ec2.Metadata
scanned o = set_instance o zero_instance.metadata

addresses-set_operating_system :
    (os : Option InstanceOperatingSystem) (m : Ec2.Metadata)
    → addresses (set_operating_system os m) ≡ addresses m
addresses-set_operating_system none m = refl
addresses-set_operating_system (some os) m = refl

abbrev named : MetadataInstance → Ec2.Metadata
named i = record zero_instance.metadata {
  instance_id = i.id;
  hostname = i.hostname;
  local_hostname = i.hostname;
  tags = i.tags;
}

-- The loop over the IPs starts with empty addresses.
module _ {A : Type 0} (field : Addresses → A) (i : MetadataInstance) where
  scan_ips-scanned :
      field (scan_ips i.ips (addresses (set_operating_system i.operating_system (named i))))
      ≡ field (scan_ips i.ips (record { public_ipv4 = []; local_ipv4 = []; public_ipv6 = [] }))
  scan_ips-scanned =
      ap (λ a. field (scan_ips i.ips a))
        (addresses-set_operating_system i.operating_system (named i))

public_ipv4-scanned :
    (o : Option MetadataInstance)
    → (scanned o).public_ipv4 ≡ elim o [ none ↦ [] | some i ↦ first_address public_v4 i.ips ]
unfolding str_eq
public_ipv4-scanned none = refl
public_ipv4-scanned (some i) =
    scan_ips-scanned (λ a. a.public_ipv4) i
    ∙ public_ipv4-scan_ips i.ips (record { public_ipv4 = []; local_ipv4 = []; public_ipv6 = [] })

local_ipv4-scanned :
    (o : Option MetadataInstance)
    → (scanned o).local_ipv4 ≡ elim o [ none ↦ [] | some i ↦ first_address local_v4 i.ips ]
unfolding str_eq
local_ipv4-scanned none = refl
local_ipv4-scanned (some i) =
    scan_ips-scanned (λ a. a.local_ipv4) i
    ∙ local_ipv4-scan_ips i.ips (record { public_ipv4 = []; local_ipv4 = []; public_ipv6 = [] })

public_ipv6-scanned :
    (o : Option MetadataInstance)
    → (scanned o).public_ipv6 ≡ elim o [ none ↦ [] | some i ↦ first_address any_v6 i.ips ]
unfolding str_eq
public_ipv6-scanned none = refl
public_ipv6-scanned (some i) =
    scan_ips-scanned (λ a. a.public_ipv6) i
    ∙ public_ipv6-scan_ips i.ips (record { public_ipv4 = []; local_ipv4 = []; public_ipv6 = [] })

-- Every field of the converted instance is the hardware's, or empty where the hardware has none; its
-- addresses are the first nonempty public IPv4, other IPv4, and IPv6 ones.
pub to_ec2_instance-IsConverted : (hw : Hardware) → IsConverted hw (to_ec2_instance hw)
unfolding to_ec2_instance
to_ec2_instance-IsConverted hw = record {
  userdata = ground arith;
  instance_id = ground arith;
  hostname = ground arith;
  local_hostname = ground arith;
  plan = ground arith;
  facility = ground arith;
  tags = ground arith;
  slug = ground arith;
  distro = ground arith;
  version = ground arith;
  image_tag = ground arith;
  public_ipv4 = ground (arith, public_ipv4-scanned hw.metadata.instance_);
  local_ipv4 = ground (arith, local_ipv4-scanned hw.metadata.instance_);
  public_ipv6 = ground (arith, public_ipv6-scanned hw.metadata.instance_);
  never_set = ground arith;
}
