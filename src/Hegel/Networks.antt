-- ===== src/Hegel/Networks.antt =====
-- hegel.go: the handlers below a MAC address.
use tinkerbell_hegel.Prelude.{
  ℕ, suc, Bool, true, false, List, [], ◌∷◌, ◌++◌, Option, none, some, ◌==◌, if◌then◌else◌,
}
use tinkerbell_hegel.Strings.{Str, codes, str_eq}
use tinkerbell_hegel.Strconv.{ℤ, atoi, itoa}
use tinkerbell_hegel.Errors.{Result, ok, err}
use tinkerbell_hegel.GinUtil.{string, json}
use tinkerbell_hegel.Hegel.Model.{K8sHardware, K8sNetworkInterface, Client}
use tinkerbell_hegel.Hegel.Handlers.{
  null, Context, Calls, line, not_found_reply, at_index, get_hardware, with_hardware,
}

-- the loop of `macHandler`: the last interface with the address, or the one found before
unfoldable pub find_interface :
    Str → List K8sNetworkInterface → Option K8sNetworkInterface → Option K8sNetworkInterface
find_interface mac [] found = found
find_interface mac (n ∷ ns) found =
    find_interface mac ns (if str_eq mac n.mac then some n else found)

-- the loop of `getValidNetworkInterfaces`
unfoldable pub valid_interfaces :
    Str → List K8sNetworkInterface → List K8sNetworkInterface → List K8sNetworkInterface
valid_interfaces mac [] valid = valid
valid_interfaces mac (n ∷ ns) valid =
    valid_interfaces mac ns (if str_eq mac n.mac then valid ++ n ∷ [] else valid)

-- the loop of `getValidAddressFamilyInterfaces`
unfoldable pub family_interfaces :
    ℕ → List K8sNetworkInterface → List K8sNetworkInterface → List K8sNetworkInterface
family_interfaces family [] networks = networks
family_interfaces family (n ∷ ns) networks =
    family_interfaces family ns (if n.family == family then networks ++ n ∷ [] else networks)

unfoldable pub get_valid_address_family_interfaces :
    ℕ → List K8sNetworkInterface → List K8sNetworkInterface
unfolding family_interfaces
get_valid_address_family_interfaces family ns = family_interfaces family ns []

-- the loop of `ipv4Handler` and `ipv6Handler`: the calls, and the count at the end
unfoldable pub list_family : ℕ → List K8sNetworkInterface → ℕ → Calls × ℕ
list_family family [] i = ([], i)
list_family family (n ∷ ns) i =
    let seen = list_family family ns (suc i) in
    let skipped = list_family family ns i in
    if n.family == family then (string 200 (line (itoa i)) ∷ seen.0, seen.1) else skipped

abbrev pub no_content : Calls
no_content = string 204 [] ∷ []

abbrev pub is_empty {ℓ} : {A : Type ℓ} → List A → Bool
is_empty [] = true
is_empty (x ∷ xs) = false

module _ (client : Client) (unmarshal : Str → Result K8sHardware) where
  -- the calls that it makes, and its result
  unfoldable pub get_valid_network_interfaces : Context → Calls × List K8sNetworkInterface
  get_valid_network_interfaces c = elim (get_hardware client unmarshal c.client_ip) [
    | err e ↦ (not_found_reply, [])
    | ok hw ↦ ([], valid_interfaces c.mac_param hw.metadata.interfaces [])
  ]

  abbrev pub mac_reply : Option K8sNetworkInterface → Calls
  mac_reply none = no_content
  mac_reply (some n) = string 200 (codes "ipv4\nipv6\n") ∷ []

  unfoldable pub mac_handler : Context → Calls
  mac_handler c =
      with_hardware client unmarshal c
        λ hw. mac_reply (find_interface c.mac_param hw.metadata.interfaces none)

  abbrev pub or_no_content : Calls × ℕ → Calls
  or_no_content (calls, i) = calls ++ (if i == 0 then no_content else [])

  -- `ipv4Handler` and `ipv6Handler`, at the family 4 and 6
  unfoldable pub ip_handler : ℕ → Context → Calls
  ip_handler family c =
      let (calls, valid) = get_valid_network_interfaces c in
      calls ++ (if is_empty valid then no_content else or_no_content (list_family family valid 0))

  -- `ipv4IndexHandler` and `ipv6IndexHandler`
  unfoldable pub ip_index_handler : ℕ → Context → Calls
  ip_index_handler family c =
      let (calls, valid) = get_valid_network_interfaces c in
      calls
      ++ (if is_empty valid
          then no_content
          else if is_empty (get_valid_address_family_interfaces family valid)
          then no_content
          else string 200 (codes "ip\nnetmask\n") ∷ [])

  abbrev pub field_reply : (K8sNetworkInterface → Str) → Option K8sNetworkInterface → Calls
  field_reply field none = no_content
  field_reply field (some n) = string 200 (line (field n)) ∷ []

  abbrev pub indexed_reply :
      ℕ → (K8sNetworkInterface → Str) → List K8sNetworkInterface → Option ℤ → Calls
  indexed_reply family field valid none = json 400 null ∷ []
  indexed_reply family field valid (some index) =
      field_reply field (at_index (get_valid_address_family_interfaces family valid) index)

  -- `ipv4IPHandler`, `ipv6IPHandler`, `ipv4NetmaskHandler` and `ipv6NetmaskHandler`: the family and
  -- the field that is served
  unfoldable pub ip_field_handler : ℕ → (K8sNetworkInterface → Str) → Context → Calls
  ip_field_handler family field c =
      let (calls, valid) = get_valid_network_interfaces c in
      calls
      ++ (if is_empty valid
          then no_content
          else indexed_reply family field valid (atoi c.index_param))

  unfoldable pub ipv4_handler : Context → Calls
  unfolding ip_handler
  ipv4_handler = ip_handler 4

  unfoldable pub ipv4_index_handler : Context → Calls
  unfolding ip_index_handler
  ipv4_index_handler = ip_index_handler 4

  unfoldable pub ipv4_ip_handler : Context → Calls
  unfolding ip_field_handler
  ipv4_ip_handler = ip_field_handler 4 (λ n. n.address)

  unfoldable pub ipv4_netmask_handler : Context → Calls
  unfolding ip_field_handler
  ipv4_netmask_handler = ip_field_handler 4 (λ n. n.netmask)

  unfoldable pub ipv6_handler : Context → Calls
  unfolding ip_handler
  ipv6_handler = ip_handler 6

  unfoldable pub ipv6_index_handler : Context → Calls
  unfolding ip_index_handler
  ipv6_index_handler = ip_index_handler 6

  unfoldable pub ipv6_ip_handler : Context → Calls
  unfolding ip_field_handler
  ipv6_ip_handler = ip_field_handler 6 (λ n. n.address)

  unfoldable pub ipv6_netmask_handler : Context → Calls
  unfolding ip_field_handler
  ipv6_netmask_handler = ip_field_handler 6 (λ n. n.netmask)
