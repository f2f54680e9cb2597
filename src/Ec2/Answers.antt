-- ===== src/Ec2/Answers.antt =====
-- What a data endpoint answers, on every branch of `getInstance`.
use tinkerbell_hegel.Prelude.{true, false, [], ◌∷◌, ◌≡◌, arith, Bool-cases, inl, inr}
use tinkerbell_hegel.Strings.{Str, codes}
use tinkerbell_hegel.Errors.{
  GoError, text, http, ok, err, instance_not_found, is_error, Result-cases,
}
use tinkerbell_hegel.Net.{remote_addr_ip}
use tinkerbell_hegel.GinUtil.{Call, abort_with_error, string}
use tinkerbell_hegel.Ec2.{Instance}
use tinkerbell_hegel.Ec2.Routes.{FilterFunc}
use tinkerbell_hegel.Ec2.Frontend.{NoJson, Request, Frontend, data_handler}

-- The contract of a data endpoint, by what the address and the backend say of the request.
pub data Answers (f : Frontend) (filter : FilterFunc) (r : Request) : Call NoJson → Type 0 where
  bad_request :
      {e : GoError}
      → remote_addr_ip r.remote_addr ≡ err e
      → Answers f filter r (abort_with_error 400 (http 400 (text (codes "invalid remote addr"))))
  not_found :
      {ip : Str} {e : GoError}
      → remote_addr_ip r.remote_addr ≡ ok ip
      → f.client.get_ec2_instance ip ≡ err e
      → is_error e instance_not_found ≡ true
      → Answers f filter r
          (abort_with_error 404 (http 404 (text (codes "no hardware found for source ip"))))
  failed :
      {ip : Str} {e : GoError}
      → remote_addr_ip r.remote_addr ≡ ok ip
      → f.client.get_ec2_instance ip ≡ err e
      → is_error e instance_not_found ≡ false
      → Answers f filter r (abort_with_error 500 (http 500 e))
  served :
      {ip : Str} {found : Instance}
      → remote_addr_ip r.remote_addr ≡ ok ip
      → f.client.get_ec2_instance ip ≡ ok found
      → Answers f filter r (string 200 (filter found))

-- A data endpoint makes exactly one call on its context: an abort with 400 where the remote address has
-- no host; with 404 where the backend's error is `ErrInstanceNotFound`; with 500 and the backend's
-- error for any other error of it; and else the data that the endpoint's filter takes from the
-- instance, with 200.
pub data_handler-Answers :
    (f : Frontend) (filter : FilterFunc) (r : Request)
    → (c : Call NoJson) × (data_handler f filter r ≡ c ∷ []) × Answers f filter r c
unfolding data_handler
data_handler-Answers f filter r = elim (Result-cases (remote_addr_ip r.remote_addr)) [
  | inl (e, bad) ↦ (_, ground arith, Answers.bad_request bad)
  | inr (ip, good) ↦ elim (Result-cases (f.client.get_ec2_instance ip)) [
    | inr (found, works) ↦ (_, ground arith, Answers.served good works)
    | inl (e, fails) ↦ elim (Bool-cases (is_error e instance_not_found)) [
      | inl missing ↦ (_, ground arith, Answers.not_found good fails missing)
      | inr other ↦ (_, ground arith, Answers.failed good fails other)
    ]
  ]
]
