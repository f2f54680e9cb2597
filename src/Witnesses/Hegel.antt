-- ===== src/Witnesses/Hegel.antt =====
-- The handlers of hegel.go.
use tinkerbell_hegel.Prelude.{List, [], ◌∷◌, ◌≡◌, refl, some, length, get_elem?, arith}
use tinkerbell_hegel.Strings.{Str, codes, str_eq}
use tinkerbell_hegel.Strconv.{itoa}
use tinkerbell_hegel.Errors.{text, Result, ok, err}
use tinkerbell_hegel.GinUtil.{string}
use tinkerbell_hegel.Hegel.Model.{K8sHardware, K8sHardwareDisk, K8sNetworkInterface}
use tinkerbell_hegel.Hegel.Handlers.{line, get_hardware, disk_handler, disk_index_handler}
use tinkerbell_hegel.Hegel.Networks.{ip_handler, ip_index_handler, ip_field_handler}
use tinkerbell_hegel.Hegel.Indices.{with_index, disk_index_handler-disk_handler}
use tinkerbell_hegel.Hegel.Selection.{select}
use tinkerbell_hegel.Hegel.NotFound.{
  replies, not_found_replies, v0_hegel_metadata_handler-replies, ip_index_handler-ip_field_handler,
}
use tinkerbell_hegel.Hegel.Interfaces.{ip_field_handler-ip_handler}
use tinkerbell_hegel.Hegel.Endpoints.{v0_hegel_metadata_handler}
use tinkerbell_hegel.Witnesses.Samples.{metal, interface_of, hegel_client, hegel_context}

abbrev decode : Str → Result K8sHardware
decode s = ok metal

abbrev decode_nothing : Str → Result K8sHardware
decode_nothing s = err (text (codes "unexpected end of JSON input"))

metal_found : get_hardware hegel_client decode hegel_context.client_ip ≡ ok metal
unfolding get_hardware
metal_found = refl

nothing_found :
    get_hardware hegel_client decode_nothing hegel_context.client_ip
    ≡ err (text (codes "unexpected end of JSON input"))
unfolding get_hardware
nothing_found = refl

disk_index_handler-disk_handler_example :
    (disk : K8sHardwareDisk) × (get_elem? metal.metadata.instance_.disks 1 ≡ some disk)
    × (get_elem? (disk_handler hegel_client decode hegel_context) 1
        ≡ some (string 200 (line (itoa 1))))
    × (length (disk_handler hegel_client decode hegel_context) ≡ 2)
    × (disk_index_handler hegel_client decode (with_index hegel_context (itoa 1))
        ≡ string 200 (line disk.device) ∷ [])
disk_index_handler-disk_handler_example =
    disk_index_handler-disk_handler hegel_client decode hegel_context metal metal_found 1
      (omega arith) (omega arith)

abbrev addresses : List K8sNetworkInterface
addresses = interface_of (codes "10.0.0.1") ∷ interface_of (codes "10.0.0.5") ∷ []

ip_field_handler-ip_handler_example :
    (n : K8sNetworkInterface) × (get_elem? addresses 1 ≡ some n)
    × (get_elem? (ip_handler hegel_client decode 4 hegel_context) 1
        ≡ some (string 200 (line (itoa 1))))
    × (ip_field_handler hegel_client decode 4 (λ m. m.netmask) (with_index hegel_context (itoa 1))
        ≡ string 200 (line n.netmask) ∷ [])
unfolding select str_eq
ip_field_handler-ip_handler_example =
    ip_field_handler-ip_handler hegel_client decode hegel_context metal metal_found 4
      (λ m. m.netmask) 1 (omega arith) (omega arith)

v0_hegel_metadata_handler-replies_example :
    replies hegel_context (v0_hegel_metadata_handler hegel_client decode_nothing)
    ≡ not_found_replies hegel_context
v0_hegel_metadata_handler-replies_example =
    v0_hegel_metadata_handler-replies hegel_client decode_nothing hegel_context
      (text (codes "unexpected end of JSON input")) nothing_found

ip_index_handler-ip_field_handler_example :
    (ip_index_handler hegel_client decode 4 (with_index hegel_context (itoa 7))
      ≡ string 200 (codes "ip\nnetmask\n") ∷ [])
    × (ip_field_handler hegel_client decode 4 (λ m. m.netmask) (with_index hegel_context (itoa 7))
        ≡ string 204 [] ∷ [])
unfolding select str_eq
ip_index_handler-ip_field_handler_example =
    ip_index_handler-ip_field_handler hegel_client decode hegel_context metal 4 7 (λ m. m.netmask)
      metal_found (omega arith) (omega arith) (omega arith)
