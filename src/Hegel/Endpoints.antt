-- ===== src/Hegel/Endpoints.antt =====
-- hegel.go: the endpoints of the API.
use tinkerbell_hegel.Prelude.{List, [], ◌≡◌, true, refl}
use tinkerbell_hegel.Strings.{Str, codes, str_eq}
use tinkerbell_hegel.Strings.Members.{contains, IsDistinct, distinct_test, distinct_test-IsDistinct}
use tinkerbell_hegel.Errors.{Result}
use tinkerbell_hegel.GinUtil.{Registration, router_get, full_paths}
use tinkerbell_hegel.Hegel.Model.{K8sHardware, Client}
use tinkerbell_hegel.Hegel.Handlers.{
  Context, Calls, userdata_handler, vendordata_handler, metadata_handler, disk_handler,
  disk_index_handler, ssh_handler, ssh_index_handler, hostname_handler, gateway_handler,
}
use tinkerbell_hegel.Hegel.Networks.{
  mac_handler, ipv4_handler, ipv4_index_handler, ipv4_ip_handler, ipv4_netmask_handler,
  ipv6_handler, ipv6_index_handler, ipv6_ip_handler, ipv6_netmask_handler,
}

module _ (client : Client) (unmarshal : Str → Result K8sHardware) where
  -- The groups are below the one that the function is given.
  unfoldable pub v0_hegel_metadata_handler : List (Registration (Context → Calls))
  unfolding router_get
  v0_hegel_metadata_handler =
      let userdata = codes "/user-data" in
      let vendordata = codes "/vendor-data" in
      let metadata = codes "/meta-data" in
      let calls1 = router_get userdata (codes "") (userdata_handler client unmarshal) [] in
      let calls2 = router_get vendordata (codes "") (vendordata_handler client unmarshal) calls1 in
      let calls3 = router_get metadata (codes "") (metadata_handler client unmarshal) calls2 in
      let calls4 = router_get metadata (codes "/disks") (disk_handler client unmarshal) calls3 in
      let calls5 =
        router_get metadata (codes "/disks/:index") (disk_index_handler client unmarshal) calls4 in
      let calls6 =
        router_get metadata (codes "/ssh-public-keys") (ssh_handler client unmarshal) calls5 in
      let calls7 =
        router_get metadata (codes "/ssh-public-keys/:index") (ssh_index_handler client unmarshal)
          calls6 in
      let calls8 =
        router_get metadata (codes "/hostname") (hostname_handler client unmarshal) calls7 in
      let calls9 =
        router_get metadata (codes "/gateway") (gateway_handler client unmarshal) calls8 in
      let calls10 = router_get metadata (codes "/:mac") (mac_handler client unmarshal) calls9 in
      let calls11 =
        router_get metadata (codes "/:mac/ipv4") (ipv4_handler client unmarshal) calls10 in
      let calls12 =
        router_get metadata (codes "/:mac/ipv4/:index") (ipv4_index_handler client unmarshal)
          calls11 in
      let calls13 =
        router_get metadata (codes "/:mac/ipv4/:index/ip") (ipv4_ip_handler client unmarshal)
          calls12 in
      let calls14 =
        router_get metadata (codes "/:mac/ipv4/:index/netmask")
          (ipv4_netmask_handler client unmarshal) calls13 in
      let calls15 =
        router_get metadata (codes "/:mac/ipv6") (ipv6_handler client unmarshal) calls14 in
      let calls16 =
        router_get metadata (codes "/:mac/ipv6/:index") (ipv6_index_handler client unmarshal)
          calls15 in
      let calls17 =
        router_get metadata (codes "/:mac/ipv6/:index/ip") (ipv6_ip_handler client unmarshal)
          calls16 in
      let calls18 =
        router_get metadata (codes "/:mac/ipv6/:index/netmask")
          (ipv6_netmask_handler client unmarshal) calls17 in
      calls18

endpoints_distinct :
    (client : Client) (unmarshal : Str → Result K8sHardware)
    → distinct_test (full_paths (v0_hegel_metadata_handler client unmarshal)) ≡ true
unfolding v0_hegel_metadata_handler contains str_eq
endpoints_distinct client unmarshal = refl

-- No endpoint of the API is registered twice.
pub v0_hegel_metadata_handler-IsDistinct :
    (client : Client) (unmarshal : Str → Result K8sHardware)
    → IsDistinct (full_paths (v0_hegel_metadata_handler client unmarshal))
v0_hegel_metadata_handler-IsDistinct client unmarshal =
    distinct_test-IsDistinct _ (endpoints_distinct client unmarshal)
