-- ===== src/Witnesses/Samples.antt =====
-- Data for the examples.
use tinkerbell_hegel.Prelude.{List, [], ◌∷◌, some, none, true, false}
use tinkerbell_hegel.Strings.{Str, codes}
use tinkerbell_hegel.Flatfile
use tinkerbell_hegel.Kubernetes
use tinkerbell_hegel.Hegel.Model.{K8sNetworkInterface, K8sHardware}
use tinkerbell_hegel.Hegel.Model
use tinkerbell_hegel.Hegel.Handlers.{Context}
use tinkerbell_hegel.Errors.{ok}
use tinkerbell_hegel.Kubernetes.{Object}
use tinkerbell_hegel.Kubernetes.Connect.{ClusterApi}
use tinkerbell_hegel.Kubernetes.Connected.{indexed_under}
use tinkerbell_hegel.Backend.{World, RootCommandOptions}

abbrev pub remote_addr : Str
remote_addr = codes "10.0.0.1:80"

abbrev pub remote_ip : Str
remote_ip = codes "10.0.0.1"

abbrev pub flat_instance : Str → Str → Flatfile.Instance
flat_instance hostname public_ipv4 = record {
  userdata = codes "#cloud-config";
  metadata = record {
    id = codes "i-1";
    hostname = hostname;
    local_hostname = hostname;
    iqn = [];
    plan = codes "c3.small";
    facility = codes "sv15";
    tags = codes "a" ∷ codes "b" ∷ [];
    ipv4 = record { local_ = codes "192.168.0.2"; public_ = public_ipv4 };
    ipv6 = record { public_ = codes "2001:db8::1" };
    os = record {
      slug = codes "ubuntu_22_04";
      distro = codes "ubuntu";
      version = codes "22.04";
      image_tag = codes "v1";
      license_activation_state = [];
    };
  };
}

abbrev pub flat_instances : List Flatfile.Instance
flat_instances =
    flat_instance (codes "one") (codes "10.0.0.1")
    ∷ flat_instance (codes "two") (codes "10.0.0.1")
    ∷ flat_instance (codes "three") (codes "10.0.0.3")
    ∷ []

abbrev pub hardware_at : Str → Str → Kubernetes.Hardware
hardware_at hostname ip = record {
  metadata = record {
    instance_ = some (record {
      id = codes "i-2";
      hostname = hostname;
      tags = [];
      operating_system = none;
      ips =
          record { family = 4; is_public = false; address = codes "192.168.0.9" }
          ∷ record { family = 4; is_public = true; address = ip }
          ∷ [];
    });
    facility = some (record { plan_slug = codes "c3.small"; facility_code = codes "sv15" });
  };
  user_data = none;
  interfaces =
      record { dhcp = none }
      ∷ record { dhcp = some (record { ip = some (record { address = ip }) }) }
      ∷ [];
}

abbrev pub cluster_items : List Kubernetes.Hardware
cluster_items =
    hardware_at (codes "one") (codes "10.0.0.1")
    ∷ hardware_at (codes "two") (codes "10.0.0.2")
    ∷ hardware_at (codes "three") (codes "10.0.0.2")
    ∷ []

abbrev pub interface_of : Str → K8sNetworkInterface
interface_of address = record {
  mac = codes "00:00:00:00:00:01";
  address = address;
  netmask = codes "255.255.255.0";
  family = 4;
}

abbrev pub metal : K8sHardware
metal = record {
  metadata = record {
    userdata = none;
    vendordata = none;
    instance_ = record {
      disks = record { device = codes "/dev/sda" } ∷ record { device = codes "/dev/sdb" } ∷ [];
      id = codes "i-3";
      hostname = codes "metal";
      plan = [];
      factility = [];
      tags = [];
      ssh_keys = codes "ssh-ed25519 A" ∷ [];
      operating_system = record { slug = []; distro = []; version = []; image_tag = [] };
      network = record { addresses = [] };
    };
    interfaces = interface_of (codes "10.0.0.1") ∷ interface_of (codes "10.0.0.5") ∷ [];
    gateway = codes "10.0.0.254";
  };
}

abbrev pub hegel_client : Model.Client
hegel_client = record {
  is_healthy = true;
  by_ip = λ ip. ok (record { export = ok []; id = ok [] });
  get_data_model = 0;
}

abbrev pub hegel_context : Context
hegel_context = record {
  client_ip = codes "10.0.0.1";
  accept = [];
  index_param = [];
  mac_param = codes "00:00:00:00:00:01";
}

abbrev pub indexed_api : ClusterApi
indexed_api = record {
  RestConfig = Str;
  Cluster = Object → List Str;
  client_config = λ kubeconfig server namespace. ok server;
  new_cluster = λ config namespace. ok (λ o. []);
  index_field = λ ctx c name index. ok index;
  list = λ c name ip. ok (indexed_under c ip cluster_items);
  wait_for_cache_sync = λ c ctx. true;
}

abbrev pub world : World
world = record {
  files = record { Reader = Str; open_file = λ path. ok path; decode = λ r. ok flat_instances };
  api = indexed_api;
}

abbrev pub command_options : RootCommandOptions
command_options = record {
  trusted_proxies = [];
  http_addr = codes ":50061";
  backend = codes "tftp";
  kubernetes_api_server = [];
  kubernetes_kubeconfig = [];
  kubernetes_namespace = [];
  flatfile_path = [];
  debug = false;
  hegel_api = false;
}
