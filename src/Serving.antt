-- ===== src/Serving.antt =====
-- The EC2 frontend over each backend, as `Run` of internal/cmd/root.go wires them: `ec2.New(be)`.
use tinkerbell_hegel.Prelude.{List, [], ◌∷◌, ◌≡◌, ◌∙◌, ap, arith, Option, none, some, inl, inr}
use tinkerbell_hegel.Strings.{Str, codes}
use tinkerbell_hegel.Errors.{GoError, text, http, Result, ok, err, is_error, Result-cases}
use tinkerbell_hegel.Net.{remote_addr_ip}
use tinkerbell_hegel.GinUtil.{Call, abort_with_error, string}
use tinkerbell_hegel.Ec2.Routes.{FilterFunc}
use tinkerbell_hegel.Ec2.Frontend.{Request, NoJson, Frontend, new, data_handler}
use tinkerbell_hegel.Kubernetes
use tinkerbell_hegel.Kubernetes.{Hardware}
use tinkerbell_hegel.Kubernetes.Retrieve.{ListsByIndex, with_address, matching-with_address}
use tinkerbell_hegel.Flatfile
use tinkerbell_hegel.Flatfile.Lookup.{last_at, found_or, get_ec2_instance-last_at}

unfoldable pub kubernetes_frontend : Kubernetes.Backend → Frontend
unfolding new
kubernetes_frontend b = new (record { get_ec2_instance = Kubernetes.get_ec2_instance b })

unfoldable pub flatfile_frontend : Flatfile.Backend → Frontend
unfolding new
flatfile_frontend b = new (record { get_ec2_instance = Flatfile.get_ec2_instance b })

abbrev pub bad_request : Call NoJson
bad_request = abort_with_error 400 (http 400 (text (codes "invalid remote addr")))

abbrev pub not_found : Call NoJson
not_found = abort_with_error 404 (http 404 (text (codes "no hardware found for source ip")))

module _ (filter : FilterFunc) where
  -- What a client is served of the last instance that has its address.
  abbrev pub serve_instance : Option Flatfile.Instance → Call NoJson
  serve_instance none = not_found
  serve_instance (some i) = string 200 (filter (Flatfile.to_ec2_instance i))

  abbrev pub serve_flatfile : List Flatfile.Instance → Result Str → Call NoJson
  serve_flatfile is (err e) = bad_request
  serve_flatfile is (ok ip) = serve_instance (last_at ip is)

  data_handler-bad_request :
      (f : Frontend) (r : Request) (e : GoError)
      → remote_addr_ip r.remote_addr ≡ err e
      → data_handler f filter r ≡ bad_request ∷ []
  unfolding data_handler
  data_handler-bad_request f r e h = ground (arith, h)

  serve_found :
      (b : Flatfile.Backend) (r : Request) (ip : Str) (o : Option Flatfile.Instance)
      → remote_addr_ip r.remote_addr ≡ ok ip
      → Flatfile.get_ec2_instance b ip ≡ found_or o
      → data_handler (flatfile_frontend b) filter r ≡ serve_instance o ∷ []
  unfolding data_handler flatfile_frontend is_error
  serve_found b r ip none addressed h = ground (arith, addressed, h)
  serve_found b r ip (some i) addressed h = ground (arith, addressed, h)

  -- Over the flatfile, a data endpoint answers by the last instance that has the client's address.
  pub data_handler-flatfile :
      (is : List Flatfile.Instance) (r : Request)
      → data_handler (flatfile_frontend (Flatfile.new_backend is)) filter r
        ≡ serve_flatfile is (remote_addr_ip r.remote_addr) ∷ []
  data_handler-flatfile is r = elim (Result-cases (remote_addr_ip r.remote_addr)) [
    | inl (e, bad) ↦ rw bad (data_handler-bad_request _ r e bad)
    | inr (ip, addressed) ↦ rw addressed (
        serve_found (Flatfile.new_backend is) r ip (last_at ip is) addressed
          (get_ec2_instance-last_at is ip))
  ]

  -- What is served of the hardware that has the client's address.
  abbrev pub serve_one : List Hardware → Call NoJson
  serve_one [] = not_found
  serve_one (hw ∷ []) = string 200 (filter (Kubernetes.to_ec2_instance hw))
  serve_one (hw ∷ hw' ∷ hws) =
      abort_with_error 500 (http 500 (text (codes "multiple hardware found")))

  abbrev pub serve_cluster : List Hardware → Result Str → Call NoJson
  serve_cluster items (err e) = bad_request
  serve_cluster items (ok ip) = serve_one (with_address ip items)

  serve_listed :
      (b : Kubernetes.Backend) (r : Request) (ip : Str) (listed : List Hardware)
      → remote_addr_ip r.remote_addr ≡ ok ip
      → b.list ip ≡ ok listed
      → data_handler (kubernetes_frontend b) filter r ≡ serve_one listed ∷ []
  unfolding data_handler kubernetes_frontend is_error Kubernetes.get_ec2_instance
  serve_listed b r ip [] addressed h = ground (arith, addressed, h)
  serve_listed b r ip (hw ∷ []) addressed h = ground (arith, addressed, h)
  serve_listed b r ip (hw ∷ hw' ∷ hws) addressed h = ground (arith, addressed, h)

  -- Over a cluster whose client lists hardware by the program's index, a data endpoint answers by the
  -- hardware that has the client's address.
  pub data_handler-kubernetes :
      (b : Kubernetes.Backend) (items : List Hardware) (r : Request)
      → ListsByIndex b items
      → data_handler (kubernetes_frontend b) filter r
        ≡ serve_cluster items (remote_addr_ip r.remote_addr) ∷ []
  data_handler-kubernetes b items r lists = elim (Result-cases (remote_addr_ip r.remote_addr)) [
    | inl (e, bad) ↦ rw bad (data_handler-bad_request _ r e bad)
    | inr (ip, addressed) ↦ rw addressed (
        serve_listed b r ip (with_address ip items) addressed
          (lists ip ∙ ap ok (matching-with_address ip items)))
  ]
