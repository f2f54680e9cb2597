-- ===== src/Witnesses/Frontends.antt =====
-- The EC2 frontend, alone and over each backend, and the health check.
use tinkerbell_hegel.Prelude.{All, List, [], ◌∷◌, ◌≡◌, ◌↔◌, ◌⊎◌, refl}
use tinkerbell_hegel.Strings.{Str, codes, str_eq}
use tinkerbell_hegel.Errors.{ok}
use tinkerbell_hegel.Net.{remote_addr_ip}
use tinkerbell_hegel.Net.Exact.{IsHostPort, remote_addr_ip_iff}
use tinkerbell_hegel.GinUtil.{Call, full_paths}
use tinkerbell_hegel.Ec2.Routes.{FilterFunc}
use tinkerbell_hegel.Ec2.Frontend.{NoJson, Request, Frontend, data_handler, configure}
use tinkerbell_hegel.Ec2.Answers.{Answers, data_handler-Answers}
use tinkerbell_hegel.Ec2.Followed.{ServesData, ServesLinks, configure-Serves}
use tinkerbell_hegel.Flatfile
use tinkerbell_hegel.Serving.{flatfile_frontend}
use tinkerbell_hegel.Healthcheck.{BuildSetting, git_revision}
use tinkerbell_hegel.Healthcheck.Status.{last_value, git_revision-last_value}
use tinkerbell_hegel.Witnesses.Samples.{remote_addr, remote_ip, flat_instances}

abbrev request : Request
request = record { remote_addr = remote_addr }

abbrev hostname : FilterFunc
hostname = λ i. i.metadata.hostname

abbrev frontend : Frontend
frontend = flatfile_frontend (Flatfile.new_backend flat_instances)

addressed : remote_addr_ip remote_addr ≡ ok remote_ip
unfolding remote_addr_ip
addressed = refl

data_handler-Answers_example :
    (c : Call NoJson) × (data_handler frontend hostname request ≡ c ∷ [])
    × Answers frontend hostname request c
data_handler-Answers_example = data_handler-Answers frontend hostname request

configure-Serves_example :
    All
      (λ r. ServesData frontend r ⊎ ServesLinks (full_paths (configure frontend [])) r)
      (configure frontend [])
configure-Serves_example = configure-Serves frontend

abbrev settings : List BuildSetting
settings =
    record { key = codes "vcs.modified"; value = codes "true" }
    ∷ record { key = codes "vcs.revision"; value = codes "8c1c4d0" }
    ∷ []

git_revision-last_value_example : git_revision settings ≡ codes "8c1c4d0-dirty"
unfolding str_eq last_value
git_revision-last_value_example = git_revision-last_value settings

remote_addr_ip_iff_example :
    (remote_addr_ip (codes "[::1]:80") ≡ ok (codes "::1"))
    ↔ ((port : Str) × IsHostPort (codes "::1") port (codes "[::1]:80"))
remote_addr_ip_iff_example = remote_addr_ip_iff (codes "[::1]:80") (codes "::1")
