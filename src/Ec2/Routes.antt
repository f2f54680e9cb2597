-- ===== src/Ec2/Routes.antt =====
-- internal/frontend/ec2/routes.go: the data endpoints and what each serves of an instance.
use tinkerbell_hegel.Prelude.{List, [], ◌∷◌}
use tinkerbell_hegel.Strings.{Str, codes}
use tinkerbell_hegel.Strings
use tinkerbell_hegel.Ec2.{Instance}

-- `join` of frontend.go
unfoldable pub join : List Str → Str
join v = Strings.join v b'\n'

abbrev pub FilterFunc : Type 0
FilterFunc = Instance → Str

pub record DataRoute : Type 0 where
  pub endpoint : Str
  pub filter : FilterFunc

abbrev data_route : Str → FilterFunc → DataRoute
data_route e f = record { endpoint = e; filter = f }

unfoldable pub data_routes : List DataRoute
unfolding join
data_routes =
    data_route (codes "/user-data") (λ i. i.userdata)
    ∷ data_route (codes "/meta-data/instance-id") (λ i. i.metadata.instance_id)
    ∷ data_route (codes "/meta-data/hostname") (λ i. i.metadata.hostname)
    ∷ data_route (codes "/meta-data/local-hostname") (λ i. i.metadata.local_hostname)
    ∷ data_route (codes "/meta-data/iqn") (λ i. i.metadata.iqn)
    ∷ data_route (codes "/meta-data/plan") (λ i. i.metadata.plan)
    ∷ data_route (codes "/meta-data/facility") (λ i. i.metadata.facility)
    ∷ data_route (codes "/meta-data/tags") (λ i. join i.metadata.tags)
    ∷ data_route (codes "/meta-data/public-ipv4") (λ i. i.metadata.public_ipv4)
    ∷ data_route (codes "/meta-data/public-ipv6") (λ i. i.metadata.public_ipv6)
    ∷ data_route (codes "/meta-data/local-ipv4") (λ i. i.metadata.local_ipv4)
    ∷ data_route (codes "/meta-data/public-keys") (λ i. join i.metadata.public_keys)
    ∷ data_route (codes "/meta-data/operating-system/slug") (λ i. i.metadata.operating_system.slug)
    ∷ data_route (codes "/meta-data/operating-system/distro")
        (λ i. i.metadata.operating_system.distro)
    ∷ data_route (codes "/meta-data/operating-system/version")
        (λ i. i.metadata.operating_system.version)
    ∷ data_route (codes "/meta-data/operating-system/image_tag")
        (λ i. i.metadata.operating_system.image_tag)
    ∷ data_route (codes "/meta-data/operating-system/license_activation/state")
        (λ i. i.metadata.operating_system.license_activation.state)
    ∷ []
