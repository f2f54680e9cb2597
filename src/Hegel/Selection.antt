-- ===== src/Hegel/Selection.antt =====
-- What the handlers below a MAC address serve, and what they do when the hardware is not found.
use tinkerbell_hegel.Prelude.{
  ℕ, zero, suc, ◌+◌, ◌<◌, Bool, List, [], ◌∷◌, ◌++◌, ◌≡◌, inl, inr, refl, sym, ◌∙◌, arith, length,
  get_elem?, ◌==◌, append-nil, append_assoc, if◌then◌else◌, Bool-cases,
}
use tinkerbell_hegel.Strings.{Str, str_eq}
use tinkerbell_hegel.Errors.{Result, ok}
use tinkerbell_hegel.Hegel.Model.{K8sHardware, K8sNetworkInterface, Client}
use tinkerbell_hegel.Hegel.Handlers.{Context, get_hardware, list_indices}
use tinkerbell_hegel.Hegel.Networks.{
  valid_interfaces, family_interfaces, get_valid_address_family_interfaces, list_family,
  get_valid_network_interfaces,
}

-- The elements that pass a test, in order.
unfoldable pub select {ℓ} : {A : Type ℓ} → (A → Bool) → List A → List A
select test [] = []
select test (x ∷ xs) = let rest = select test xs in if test x then x ∷ rest else rest

abbrev pub has_mac : Str → K8sNetworkInterface → Bool
has_mac mac n = str_eq mac n.mac

abbrev pub has_family : ℕ → K8sNetworkInterface → Bool
has_family family n = n.family == family

valid_interfaces-select :
    (mac : Str) (ns valid : List K8sNetworkInterface)
    → valid_interfaces mac ns valid ≡ valid ++ select (has_mac mac) ns
unfolding valid_interfaces select
valid_interfaces-select mac [] valid = sym (append-nil valid)
valid_interfaces-select mac (n ∷ ns) valid = elim (Bool-cases (str_eq mac n.mac)) [
  | inl same ↦
      rw (same, select)
        (valid_interfaces-select mac ns (valid ++ n ∷ [])
          ∙ append_assoc valid (n ∷ []) (select (has_mac mac) ns))
  | inr other ↦ rw (other, select) (valid_interfaces-select mac ns valid)
]

family_interfaces-select :
    (family : ℕ) (ns networks : List K8sNetworkInterface)
    → family_interfaces family ns networks ≡ networks ++ select (has_family family) ns
unfolding family_interfaces select
family_interfaces-select family [] networks = sym (append-nil networks)
family_interfaces-select family (n ∷ ns) networks = ground (
  arith,
  family_interfaces-select family ns networks,
  family_interfaces-select family ns (networks ++ n ∷ []),
  append_assoc networks (n ∷ []) (select (has_family family) ns),
)

-- The interfaces below a MAC address, of one family.
abbrev pub chosen : K8sHardware → Str → ℕ → List K8sNetworkInterface
chosen hw mac family = select (has_family family) (select (has_mac mac) hw.metadata.interfaces)

pub get_valid_address_family_interfaces-select :
    (family : ℕ) (ns : List K8sNetworkInterface)
    → get_valid_address_family_interfaces family ns ≡ select (has_family family) ns
unfolding get_valid_address_family_interfaces
get_valid_address_family_interfaces-select family ns = family_interfaces-select family ns []

-- The loop that lists a family lists the indices of its interfaces, and counts them.
pub list_family-select :
    (family : ℕ) (ns : List K8sNetworkInterface) (i : ℕ)
    → list_family family ns i
      ≡ (list_indices (select (has_family family) ns) i, i + length (select (has_family family) ns))
unfolding list_family select list_indices
list_family-select family [] i = ground arith
list_family-select family (n ∷ ns) i =
    ground (arith, list_family-select family ns i, list_family-select family ns (suc i))

get_elem?-append {ℓ} :
    {A : Type ℓ} (xs ys : List A) (i : ℕ) → i < length xs → get_elem? (xs ++ ys) i ≡ get_elem? xs i
get_elem?-append [] ys i h = elim h [ ]
get_elem?-append (x ∷ xs) ys zero h = refl
get_elem?-append (x ∷ xs) ys (suc i) h = get_elem?-append xs ys i (omega arith)

module _ (client : Client) (unmarshal : Str → Result K8sHardware) (c : Context) where
  module _ (hw : K8sHardware) (found : get_hardware client unmarshal c.client_ip ≡ ok hw) where
    pub valid-found :
        get_valid_network_interfaces client unmarshal c
        ≡ ([], select (has_mac c.mac_param) hw.metadata.interfaces)
    unfolding get_valid_network_interfaces
    valid-found =
        ground (arith, found, valid_interfaces-select c.mac_param hw.metadata.interfaces [])
