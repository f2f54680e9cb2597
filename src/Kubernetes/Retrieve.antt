-- ===== src/Kubernetes/Retrieve.antt =====
-- Looking hardware up by an address, against the documented meaning of the index selector.
use tinkerbell_hegel.Prelude.{
  Bool, true, false, ◌||◌, List, [], ◌∷◌, ◌++◌, ◌≡◌, ◌↔◌, refl, ap, ◌∙◌, arith, Option, none, some,
  All, any, if◌then◌else◌,
}
use tinkerbell_hegel.Strings.{Str, codes, str_eq}
use tinkerbell_hegel.Strings.Members.{contains, contains-append}
use tinkerbell_hegel.Errors.{ok, err, sentinel, text, instance_not_found}
use tinkerbell_hegel.Kubernetes.{
  Interface, Hardware, hardware, index_interfaces, interface_address, append_some,
  hardware_ip_index_func, Backend, one_item, get_ec2_instance, to_ec2_instance,
}

-- The interface has a DHCP address, which is `ip` and not empty.
abbrev pub interface_has : Str → Interface → Bool
interface_has ip iface = elim iface.dhcp [
  | none ↦ false
  | some dhcp ↦ elim dhcp.ip [
    | none ↦ false
    | some a ↦ if str_eq a.address [] then false else str_eq a.address ip
  ]
]

abbrev is_some_of : Str → Option Str → Bool
is_some_of ip none = false
is_some_of ip (some a) = str_eq a ip

contains-append_some :
    (ip : Str) (resp : List Str) (o : Option Str)
    → contains ip (append_some resp o) ≡ (contains ip resp || is_some_of ip o)
unfolding contains
contains-append_some ip resp none = ground arith
contains-append_some ip resp (some a) = ground (arith, contains-append ip resp (a ∷ []))

interface_address_lem :
    (ip : Str) (iface : Interface)
    → is_some_of ip (interface_address iface) ≡ interface_has ip iface
interface_address_lem ip iface = ground arith

contains-index_interfaces :
    (ip : Str) (ifaces : List Interface) (resp : List Str)
    → contains ip (index_interfaces ifaces resp)
      ≡ (contains ip resp || any (interface_has ip) ifaces)
unfolding index_interfaces
contains-index_interfaces ip [] resp = ground arith
contains-index_interfaces ip (iface ∷ ifaces) resp = ground (
  arith,
  contains-index_interfaces ip ifaces (append_some resp (interface_address iface)),
  contains-append_some ip resp (interface_address iface),
  interface_address_lem ip iface,
)

abbrev pub has_address : Str → Hardware → Bool
has_address ip hw = any (interface_has ip) hw.interfaces

-- A hardware resource is indexed under exactly the nonempty DHCP addresses of its interfaces.
pub contains-hardware_ip_index_func :
    (ip : Str) (hw : Hardware)
    → contains ip (hardware_ip_index_func (hardware hw)) ≡ has_address ip hw
unfolding hardware_ip_index_func
contains-hardware_ip_index_func ip hw =
    contains-index_interfaces ip hw.interfaces [] ∙ unfold contains in refl

-- The hardware that the index selector picks.
abbrev pub matching : Str → List Hardware → List Hardware
matching ip [] = []
matching ip (hw ∷ hws) =
    let rest = matching ip hws in
    if contains ip (hardware_ip_index_func (hardware hw)) then hw ∷ rest else rest

-- The hardware that has the address.
abbrev pub with_address : Str → List Hardware → List Hardware
with_address ip [] = []
with_address ip (hw ∷ hws) =
    let rest = with_address ip hws in if has_address ip hw then hw ∷ rest else rest

interface_has-empty : (iface : Interface) → interface_has [] iface ≡ false
interface_has-empty iface = ground arith

any-interface_has_empty : (ifaces : List Interface) → any (interface_has []) ifaces ≡ false
any-interface_has_empty [] = refl
any-interface_has_empty (iface ∷ ifaces) =
    rw (interface_has-empty iface, any-interface_has_empty ifaces) refl

-- No hardware has the empty address.
pub with_address-empty : (items : List Hardware) → with_address [] items ≡ []
with_address-empty [] = refl
with_address-empty (hw ∷ hws) =
    rw (any-interface_has_empty hw.interfaces, with_address-empty hws) refl

pub matching-with_address :
    (ip : Str) (items : List Hardware) → matching ip items ≡ with_address ip items
matching-with_address ip [] = refl
matching-with_address ip (hw ∷ hws) =
    rw (contains-hardware_ip_index_func ip hw, matching-with_address ip hws) refl

-- The cluster's client lists the hardware of the cluster that is indexed under the address.
abbrev pub ListsByIndex : Backend → List Hardware → Type 0
ListsByIndex b items = (ip : Str) → b.list ip ≡ ok (matching ip items)

abbrev pub NoneHas : Str → List Hardware → Type 0
NoneHas ip = All (λ hw. has_address ip hw ≡ false)

matching-NoneHas : (ip : Str) (items : List Hardware) → NoneHas ip items → matching ip items ≡ []
matching-NoneHas ip [] h = refl
matching-NoneHas ip (hw ∷ hws) (n, h) =
    ground (arith, contains-hardware_ip_index_func ip hw, matching-NoneHas ip hws h)

NoneHas-matching : (ip : Str) (items : List Hardware) → matching ip items ≡ [] → NoneHas ip items
NoneHas-matching ip [] h = tt
NoneHas-matching ip (hw ∷ hws) h =
    let absent : has_address ip hw ≡ false =
      ground (arith, contains-hardware_ip_index_func ip hw) in
    (absent, NoneHas-matching ip hws (ground (arith, contains-hardware_ip_index_func ip hw)))

matching-append :
    (ip : Str) (before after : List Hardware)
    → matching ip (before ++ after) ≡ matching ip before ++ matching ip after
matching-append ip [] after = refl
matching-append ip (hw ∷ before) after = ground (arith, matching-append ip before after)

matching-cons :
    (ip : Str) (hw : Hardware) (hws : List Hardware)
    → has_address ip hw ≡ true
    → matching ip (hw ∷ hws) ≡ hw ∷ matching ip hws
matching-cons ip hw hws h = ground (arith, contains-hardware_ip_index_func ip hw)

one_item-two :
    (xs : List Hardware) (x : Hardware) (ys : List Hardware) (y : Hardware) (zs : List Hardware)
    → one_item (xs ++ x ∷ (ys ++ y ∷ zs)) ≡ err (text (codes "multiple hardware found"))
one_item-two [] x [] y zs = refl
one_item-two [] x (_ ∷ _) y zs = refl
one_item-two (_ ∷ []) x ys y zs = refl
one_item-two (_ ∷ _ ∷ _) x ys y zs = refl

module _ (b : Backend) (items : List Hardware) (lists : ListsByIndex b items) (ip : Str) where
  -- Where the cluster's client lists hardware by the program's index, the frontends' error comes
  -- exactly when no hardware has the address.
  pub get_ec2_instance-not_found_iff :
      (get_ec2_instance b ip ≡ err (sentinel instance_not_found)) ↔ NoneHas ip items
  unfolding get_ec2_instance
  get_ec2_instance-not_found_iff = (
    λ e. NoneHas-matching ip items (ground (arith, lists ip)),
    λ h. ground (arith, lists ip, matching-NoneHas ip items h),
  )

  -- Where the cluster's client lists hardware by the program's index, the only hardware with the
  -- address is returned, converted.
  pub get_ec2_instance-only :
      (before : List Hardware) (hw : Hardware) (after : List Hardware)
      → items ≡ before ++ hw ∷ after
      → NoneHas ip before
      → has_address ip hw ≡ true
      → NoneHas ip after
      → get_ec2_instance b ip ≡ ok (to_ec2_instance hw)
  unfolding get_ec2_instance
  get_ec2_instance-only before hw after e nb h na = ground (
    arith,
    lists ip,
    ap (matching ip) e,
    matching-append ip before (hw ∷ after),
    matching-NoneHas ip before nb,
    matching-cons ip hw after h,
    matching-NoneHas ip after na,
  )

  matching-two :
      (before : List Hardware) (hw : Hardware) (between : List Hardware) (hw' : Hardware)
      (after : List Hardware)
      → has_address ip hw ≡ true
      → has_address ip hw' ≡ true
      → matching ip (before ++ hw ∷ (between ++ hw' ∷ after))
        ≡ matching ip before ++ hw ∷ (matching ip between ++ hw' ∷ matching ip after)
  matching-two before hw between hw' after h k =
      matching-append ip before (hw ∷ (between ++ hw' ∷ after))
      ∙ ap (λ t. matching ip before ++ t)
          (matching-cons ip hw (between ++ hw' ∷ after) h
            ∙ ap (◌∷◌ hw) (
                matching-append ip between (hw' ∷ after)
                ∙ ap (λ t. matching ip between ++ t) (matching-cons ip hw' after k)))

  -- Where the cluster's client lists hardware by the program's index and two pieces of hardware
  -- have the address, the backend fails, and not as not found.
  pub get_ec2_instance-two :
      (before : List Hardware) (hw : Hardware) (between : List Hardware) (hw' : Hardware)
      (after : List Hardware)
      → items ≡ before ++ hw ∷ (between ++ hw' ∷ after)
      → has_address ip hw ≡ true
      → has_address ip hw' ≡ true
      → get_ec2_instance b ip ≡ err (text (codes "multiple hardware found"))
  unfolding get_ec2_instance
  get_ec2_instance-two before hw between hw' after e h k = ground (
    arith,
    lists ip,
    ap (matching ip) e,
    matching-two before hw between hw' after h k,
    one_item-two (matching ip before) hw (matching ip between) hw' (matching ip after),
  )
