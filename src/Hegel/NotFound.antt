-- ===== src/Hegel/NotFound.antt =====
-- What the hegel frontend answers for hardware that is not found, and below an index that no
-- interface has.
use tinkerbell_hegel.Prelude.{
  ℕ, ◌^◌, ◌<◌, ◌≤◌, List, [], ◌∷◌, ◌++◌, any, ◌≡◌, refl, ◌∙◌, arith, length, ltb, none,
  if◌then◌else◌, false,
}
use tinkerbell_hegel.Strings.{Str, codes, str_eq}
use tinkerbell_hegel.Strconv.{atoi, itoa, pos}
use tinkerbell_hegel.Strconv.RoundTrip.{atoi-itoa}
use tinkerbell_hegel.Errors.{GoError, Result, ok, err}
use tinkerbell_hegel.GinUtil.{Registration, string, json}
use tinkerbell_hegel.Hegel.Model.{K8sHardware, K8sNetworkInterface, Client}
use tinkerbell_hegel.Hegel.Handlers.{
  null, Context, Calls, get_hardware, not_found_reply, at_index, userdata_handler,
  vendordata_handler, metadata_handler, disk_handler, disk_index_handler, ssh_handler,
  ssh_index_handler, hostname_handler, gateway_handler,
}
use tinkerbell_hegel.Hegel.Indices.{with_index}
use tinkerbell_hegel.Hegel.Networks.{
  get_valid_network_interfaces, no_content, is_empty, indexed_reply, mac_handler, ip_index_handler,
  ip_field_handler, ipv4_handler, ipv4_index_handler, ipv4_ip_handler, ipv4_netmask_handler,
  ipv6_handler, ipv6_index_handler, ipv6_ip_handler, ipv6_netmask_handler,
}
use tinkerbell_hegel.Hegel.Endpoints.{v0_hegel_metadata_handler}
use tinkerbell_hegel.Hegel.Selection.{
  select, has_mac, has_family, chosen, valid-found, get_valid_address_family_interfaces-select,
}
use tinkerbell_hegel.Hegel.Interfaces.{ip_index_handler-chosen, answer-nonempty}

-- The endpoints of an API, each with what it answers to a request.
abbrev pub replies : Context → List (Registration (Context → Calls)) → List (Str × Calls)
replies c [] = []
replies c (r ∷ rs) = (r.group ++ r.path, r.handler c) ∷ replies c rs

abbrev pub twice : Calls
twice = json 404 null ∷ string 204 [] ∷ []

abbrev pub accepts_json : Context → Calls → Calls → Calls
accepts_json c json_reply other_reply =
    if any (λ h. str_eq h (codes "application/json")) c.accept then json_reply else other_reply

abbrev pub metadata_listing : Calls
metadata_listing = string 200 (codes "disks\nssh-public-keys\ngateway\nhostname\n:mac\n") ∷ []

-- What each endpoint answers when the hardware is not found.
abbrev pub not_found_replies : Context → List (Str × Calls)
not_found_replies c =
    (codes "/user-data", not_found_reply)
    ∷ (codes "/vendor-data", not_found_reply)
    ∷ (codes "/meta-data", accepts_json c not_found_reply metadata_listing)
    ∷ (codes "/meta-data/disks", not_found_reply)
    ∷ (codes "/meta-data/disks/:index", not_found_reply)
    ∷ (codes "/meta-data/ssh-public-keys", not_found_reply)
    ∷ (codes "/meta-data/ssh-public-keys/:index", not_found_reply)
    ∷ (codes "/meta-data/hostname", not_found_reply)
    ∷ (codes "/meta-data/gateway", not_found_reply)
    ∷ (codes "/meta-data/:mac", not_found_reply)
    ∷ (codes "/meta-data/:mac/ipv4", twice)
    ∷ (codes "/meta-data/:mac/ipv4/:index", twice)
    ∷ (codes "/meta-data/:mac/ipv4/:index/ip", twice)
    ∷ (codes "/meta-data/:mac/ipv4/:index/netmask", twice)
    ∷ (codes "/meta-data/:mac/ipv6", twice)
    ∷ (codes "/meta-data/:mac/ipv6/:index", twice)
    ∷ (codes "/meta-data/:mac/ipv6/:index/ip", twice)
    ∷ (codes "/meta-data/:mac/ipv6/:index/netmask", twice)
    ∷ []

module _ (client : Client) (unmarshal : Str → Result K8sHardware) (c : Context) where
  -- The endpoints of the API and what each answers when the client's hardware is not found: the listing
  -- of the metadata is served to a client that does not accept JSON; the endpoints below an address
  -- family answer twice, 404 and then 204; all other endpoints answer 404 once.
  pub v0_hegel_metadata_handler-replies :
      (e : GoError)
      → get_hardware client unmarshal c.client_ip ≡ err e
      → replies c (v0_hegel_metadata_handler client unmarshal) ≡ not_found_replies c
  unfolding v0_hegel_metadata_handler userdata_handler vendordata_handler metadata_handler
      disk_handler disk_index_handler ssh_handler ssh_index_handler hostname_handler gateway_handler
      mac_handler ipv4_handler ipv4_index_handler ipv4_ip_handler ipv4_netmask_handler ipv6_handler
      ipv6_index_handler ipv6_ip_handler ipv6_netmask_handler get_valid_network_interfaces
  v0_hegel_metadata_handler-replies e h = ground (arith, h)

ltb-beyond : (i n : ℕ) → n ≤ i → ltb i n ≡ false
ltb-beyond i n h = ground arith

at_index-beyond {ℓ} :
    {A : Type ℓ} (xs : List A) (i : ℕ) → length xs ≤ i → at_index xs (pos i) ≡ none
at_index-beyond xs i h = rw (ltb-beyond i (length xs) h) refl

field_beyond :
    (client : Client) (unmarshal : Str → Result K8sHardware) (family : ℕ)
    (field : K8sNetworkInterface → Str) (valid : List K8sNetworkInterface) (i : ℕ)
    → i < 2 ^ 63
    → length (select (has_family family) valid) ≤ i
    → (if is_empty valid
        then no_content
        else indexed_reply client unmarshal family field valid (atoi (itoa i)))
      ≡ no_content
unfolding select
field_beyond client unmarshal family field [] i small h = refl
field_beyond client unmarshal family field (m ∷ ms) i small h = ground (
  arith,
  atoi-itoa i small,
  get_valid_address_family_interfaces-select family (m ∷ ms),
  at_index-beyond (select (has_family family) (m ∷ ms)) i h,
)

-- Where the hardware has interfaces of a MAC address and a family, and an index is not less than their
-- number, the endpoint at that index says that an address and a netmask are below it, and the endpoints
-- of both answer 204. The index is below 2 ^ 63.
pub ip_index_handler-ip_field_handler :
    (client : Client) (unmarshal : Str → Result K8sHardware) (c : Context) (hw : K8sHardware)
    (family i : ℕ) (field : K8sNetworkInterface → Str)
    → get_hardware client unmarshal c.client_ip ≡ ok hw
    → 0 < length (chosen hw c.mac_param family)
    → length (chosen hw c.mac_param family) ≤ i
    → i < 2 ^ 63
    → (ip_index_handler client unmarshal family (with_index c (itoa i))
        ≡ string 200 (codes "ip\nnetmask\n") ∷ [])
      × (ip_field_handler client unmarshal family field (with_index c (itoa i)) ≡ no_content)
unfolding ip_field_handler
ip_index_handler-ip_field_handler client unmarshal c hw family i field found some_there beyond
      small =
    (
      ip_index_handler-chosen client unmarshal (with_index c (itoa i)) hw found family
          ∙ answer-nonempty (chosen hw c.mac_param family) 0 _ some_there,
      ground (
        arith,
        valid-found client unmarshal (with_index c (itoa i)) hw found,
        field_beyond client unmarshal family field
            (select (has_mac c.mac_param) hw.metadata.interfaces) i small beyond,
      ),
    )
