-- ===== src/Witnesses/Backends.antt =====
-- The Kubernetes backend.
use tinkerbell_hegel.Prelude.{true, ◌≡◌}
use tinkerbell_hegel.Strings.{codes, str_eq}
use tinkerbell_hegel.Strings.Members.{contains}
use tinkerbell_hegel.Kubernetes
use tinkerbell_hegel.Kubernetes.{hardware, hardware_ip_index_func}
use tinkerbell_hegel.Kubernetes.Convert.{IsConverted, to_ec2_instance-IsConverted}
use tinkerbell_hegel.Kubernetes.Retrieve.{contains-hardware_ip_index_func}
use tinkerbell_hegel.Witnesses.Samples.{remote_ip, hardware_at}

abbrev one : Kubernetes.Hardware
one = hardware_at (codes "one") (codes "10.0.0.1")

to_ec2_instance-IsConverted_example : IsConverted one (Kubernetes.to_ec2_instance one)
to_ec2_instance-IsConverted_example = to_ec2_instance-IsConverted one

contains-hardware_ip_index_func_example :
    contains remote_ip (hardware_ip_index_func (hardware one)) ≡ true
unfolding str_eq
contains-hardware_ip_index_func_example = contains-hardware_ip_index_func remote_ip one
