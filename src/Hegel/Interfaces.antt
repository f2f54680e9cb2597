-- ===== src/Hegel/Interfaces.antt =====
-- The listings below a MAC address agree with the handlers that take an index.
use tinkerbell_hegel.Prelude.{
  ℕ, ◌+◌, ◌^◌, ◌<◌, ◌≤◌, List, [], ◌∷◌, ◌≡◌, inl, inr, refl, ap, ◌∙◌, arith, none, some, length,
  get_elem?, append-nil, if◌then◌else◌, Bool-cases,
}
use tinkerbell_hegel.Strings.{Str, codes, str_eq}
use tinkerbell_hegel.Strconv.{atoi, itoa}
use tinkerbell_hegel.Strconv.RoundTrip.{atoi-itoa}
use tinkerbell_hegel.Errors.{Result, ok}
use tinkerbell_hegel.GinUtil.{string}
use tinkerbell_hegel.Hegel.Model.{K8sHardware, K8sNetworkInterface, Client}
use tinkerbell_hegel.Hegel.Handlers.{Context, Calls, line, get_hardware, list_indices}
use tinkerbell_hegel.Hegel.Indices.{
  with_index, at_index-itoa, get_elem?-some, get_elem?-list_indices_zero,
}
use tinkerbell_hegel.Hegel.Networks.{
  find_interface, get_valid_address_family_interfaces, list_family, no_content, is_empty,
  mac_handler, ip_handler, ip_index_handler, ip_field_handler, mac_reply, or_no_content,
  indexed_reply,
}
use tinkerbell_hegel.Hegel.Selection.{
  select, has_mac, has_family, chosen, valid-found, list_family-select,
  get_valid_address_family_interfaces-select,
}

-- What is served when there is something to serve, else 204.
abbrev pub answer {ℓ} : {A : Type ℓ} → List A → Calls → Calls
answer [] calls = no_content
answer (x ∷ xs) calls = calls

pub answer-nonempty {ℓ} :
    {A : Type ℓ} (xs : List A) (i : ℕ) (calls : Calls) → i < length xs → answer xs calls ≡ calls
answer-nonempty [] i calls h = elim h [ ]
answer-nonempty (x ∷ xs) i calls h = refl

module _ (client : Client) (unmarshal : Str → Result K8sHardware) where
  find_interface-some :
      (mac : Str) (ns : List K8sNetworkInterface) (n : K8sNetworkInterface)
      → mac_reply client unmarshal (find_interface mac ns (some n))
        ≡ string 200 (codes "ipv4\nipv6\n") ∷ []
  unfolding find_interface
  find_interface-some mac [] n = refl
  find_interface-some mac (m ∷ ns) n = elim (Bool-cases (str_eq mac m.mac)) [
    | inl same ↦ rw same (find_interface-some mac ns m)
    | inr other ↦ rw other (find_interface-some mac ns n)
  ]

  find_interface-select :
      (mac : Str) (ns : List K8sNetworkInterface)
      → mac_reply client unmarshal (find_interface mac ns none)
        ≡ answer (select (has_mac mac) ns) (string 200 (codes "ipv4\nipv6\n") ∷ [])
  unfolding find_interface select
  find_interface-select mac [] = refl
  find_interface-select mac (m ∷ ns) = elim (Bool-cases (str_eq mac m.mac)) [
    | inl same ↦ rw same (find_interface-some mac ns m)
    | inr other ↦ rw other (find_interface-select mac ns)
  ]

  or_no_content-list_indices :
      (xs : List K8sNetworkInterface)
      → or_no_content client unmarshal (list_indices xs 0, 0 + length xs)
        ≡ answer xs (list_indices xs 0)
  unfolding list_indices
  or_no_content-list_indices [] = refl
  or_no_content-list_indices (x ∷ xs) = ground (arith, append-nil (list_indices (x ∷ xs) 0))

  list_answer :
      (family : ℕ) (valid : List K8sNetworkInterface)
      → (if is_empty valid
          then no_content
          else or_no_content client unmarshal (list_family family valid 0))
        ≡ answer
            (select (has_family family) valid)
            (list_indices (select (has_family family) valid) 0)
  unfolding select
  list_answer family [] = refl
  list_answer family (n ∷ ns) =
      rw (list_family-select family (n ∷ ns) 0)
        (or_no_content-list_indices (select (has_family family) (n ∷ ns)))

  nonempty_answer :
      (xs : List K8sNetworkInterface) (calls : Calls)
      → (if is_empty xs then no_content else calls) ≡ answer xs calls
  nonempty_answer [] calls = refl
  nonempty_answer (x ∷ xs) calls = refl

  index_answer :
      (family : ℕ) (valid : List K8sNetworkInterface) (calls : Calls)
      → (if is_empty valid
          then no_content
          else if is_empty (get_valid_address_family_interfaces family valid)
          then no_content
          else calls)
        ≡ answer (select (has_family family) valid) calls
  unfolding select
  index_answer family [] calls = refl
  index_answer family (n ∷ ns) calls =
      rw (get_valid_address_family_interfaces-select family (n ∷ ns))
        (nonempty_answer (select (has_family family) (n ∷ ns)) calls)

  field_answer :
      (family : ℕ) (field : K8sNetworkInterface → Str) (valid : List K8sNetworkInterface) (i : ℕ)
      (n : K8sNetworkInterface)
      → i < 2 ^ 63
      → i < length (select (has_family family) valid)
      → get_elem? (select (has_family family) valid) i ≡ some n
      → (if is_empty valid
          then no_content
          else indexed_reply client unmarshal family field valid (atoi (itoa i)))
        ≡ string 200 (line (field n)) ∷ []
  unfolding select
  field_answer family field [] i n small h e = elim h [ ]
  field_answer family field (m ∷ ms) i n small h e = ground (
    arith,
    atoi-itoa i small,
    get_valid_address_family_interfaces-select family (m ∷ ms),
    at_index-itoa (select (has_family family) (m ∷ ms)) i h,
    e,
  )

module _ (client : Client) (unmarshal : Str → Result K8sHardware) (c : Context) (hw : K8sHardware)
    (found : get_hardware client unmarshal c.client_ip ≡ ok hw) where
  -- Where the hardware is found, the endpoint of a MAC address lists the two families if some
  -- interface of the hardware has that address, and else answers 204.
  pub mac_handler-select :
      mac_handler client unmarshal c
      ≡ answer
          (select (has_mac c.mac_param) hw.metadata.interfaces)
          (string 200 (codes "ipv4\nipv6\n") ∷ [])
  unfolding mac_handler
  mac_handler-select =
      ground
        (arith, found, find_interface-select client unmarshal c.mac_param hw.metadata.interfaces)

  -- Where the hardware is found, the endpoint of a family lists the indices of the interfaces that
  -- have the MAC address and the family, from 0, and answers 204 if there is none.
  pub ip_handler-chosen :
      (family : ℕ)
      → ip_handler client unmarshal family c
        ≡ answer (chosen hw c.mac_param family) (list_indices (chosen hw c.mac_param family) 0)
  unfolding ip_handler
  ip_handler-chosen family = ground (
    arith,
    valid-found client unmarshal c hw found,
    list_answer client unmarshal family (select (has_mac c.mac_param) hw.metadata.interfaces),
  )

  -- Where the hardware is found, the endpoint below an index names the two fields if some interface
  -- has the MAC address and the family, whatever the index is, and else answers 204.
  pub ip_index_handler-chosen :
      (family : ℕ)
      → ip_index_handler client unmarshal family c
        ≡ answer (chosen hw c.mac_param family) (string 200 (codes "ip\nnetmask\n") ∷ [])
  unfolding ip_index_handler
  ip_index_handler-chosen family = ground (
    arith,
    valid-found client unmarshal c hw found,
    index_answer client unmarshal family (select (has_mac c.mac_param) hw.metadata.interfaces)
        (string 200 (codes "ip\nnetmask\n") ∷ []),
  )

  -- Where the hardware is found, the listing of a family has a line for each interface that has the
  -- MAC address and the family, in their order, with its index; and the endpoint of a field, asked
  -- for the index that the line spells, answers with that field of that interface. There are at
  -- most 2 ^ 63 such interfaces.
  pub ip_field_handler-ip_handler :
      (family : ℕ) (field : K8sNetworkInterface → Str) (i : ℕ)
      → i < length (chosen hw c.mac_param family)
      → length (chosen hw c.mac_param family) ≤ 2 ^ 63
      → (n : K8sNetworkInterface) × (get_elem? (chosen hw c.mac_param family) i ≡ some n)
        × (get_elem? (ip_handler client unmarshal family c) i ≡ some (string 200 (line (itoa i))))
        × (ip_field_handler client unmarshal family field (with_index c (itoa i))
            ≡ string 200 (line (field n)) ∷ [])
  unfolding ip_field_handler
  ip_field_handler-ip_handler family field i h small =
      let xs = chosen hw c.mac_param family in
      let (n, e) = get_elem?-some xs i h in
      (
        n,
        e,
        ap (λ l. get_elem? l i)
              (ip_handler-chosen family ∙ answer-nonempty xs i (list_indices xs 0) h)
            ∙ get_elem?-list_indices_zero xs i h,
        ground (
          arith,
          valid-found client unmarshal (with_index c (itoa i)) hw found,
          field_answer client unmarshal family field
              (select (has_mac c.mac_param) hw.metadata.interfaces) i n (omega arith) h e,
        ),
      )
