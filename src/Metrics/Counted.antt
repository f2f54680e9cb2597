-- ===== src/Metrics/Counted.antt =====
-- What the counters say.
use tinkerbell_hegel.Prelude.{
  ℕ, ◌+◌, Bool, ◌&&◌, List, [], ◌∷◌, none, some, ◌==◌, ◌≡◌, ◌≢◌, inl, inr, ◌∙◌, arith,
  if◌then◌else◌, Bool-cases,
}
use tinkerbell_hegel.Strings.{Str, str_eq}
use tinkerbell_hegel.Strings.Order.{str_eq_iff}
use tinkerbell_hegel.Strconv.{itoa}
use tinkerbell_hegel.Strconv.RoundTrip.{itoa_injective}
use tinkerbell_hegel.Metrics.{Description, Prometheus, Served, count_request}

-- What Prometheus documents of a vector of counters: a counter for each list of values of its
-- labels, which starts at zero and goes up by one.
pub record IsCounting (p : Prometheus) (value : p.Vector → List Str → ℕ) : Type 0 where
  pub starts : (d : Description) (ls : List Str) → value (p.new_vector d) ls ≡ 0
  pub same : (v : p.Vector) (ls : List Str) → value (p.inc v ls) ls ≡ value v ls + 1
  pub other : (v : p.Vector) (ls ls' : List Str) → ls ≢ ls' → value (p.inc v ls) ls' ≡ value v ls'

-- And of a registry: it refuses a description that it was given before.
abbrev pub IsRefusing : Prometheus → Type 0
IsRefusing p =
    (r r' : p.Registry) (d : Description) → p.register r d ≡ some r' → p.register r' d ≡ none

-- Whether a request has a method and a status.
abbrev pub is_labelled : Str → ℕ → Served → Bool
is_labelled method status r = str_eq r.method method && r.status == status

-- The number of the requests that have them.
abbrev pub requests_with : Str → ℕ → List Served → ℕ
requests_with method status [] = 0
requests_with method status (r ∷ rs) =
    (if is_labelled method status r then 1 else 0) + requests_with method status rs

-- The counters after the requests, in their order.
abbrev pub count_requests : (p : Prometheus) → p.Vector → List Served → p.Vector
count_requests p m [] = m
count_requests p m (r ∷ rs) = count_requests p (count_request p m r) rs

count_request_value :
    (p : Prometheus) (value : p.Vector → List Str → ℕ) (counting : IsCounting p value)
    (m : p.Vector) (r : Served) (method : Str) (status : ℕ)
    → value (count_request p m r) (method ∷ itoa status ∷ [])
      ≡ value m (method ∷ itoa status ∷ []) + (if is_labelled method status r then 1 else 0)
unfolding count_request
count_request_value p value counting m r method status =
    elim (Bool-cases (is_labelled method status r)) [
      | inl labelled ↦
          let same_method : r.method ≡ method =
            ground (arith, labelled, str_eq_iff r.method method) in
          let same_status : r.status ≡ status = ground (arith, labelled) in
          rw (labelled, ← same_method, ← same_status)
            (counting.same m (r.method ∷ itoa r.status ∷ []))
      | inr differs ↦
          let apart : (r.method ∷ itoa r.status ∷ []) ≢ (method ∷ itoa status ∷ []) = λ e.
            let same_method : r.method ≡ method = cc in
            let same_text : itoa r.status ≡ itoa status = cc in
            ground (
              arith,
              differs,
              str_eq_iff r.method method,
              itoa_injective r.status status same_text,
            ) in
          rw differs (counting.other m _ _ apart ∙ ground arith)
    ]

-- With counters as Prometheus documents them, after any requests the counter of a method and a
-- status has gone up by the number of the requests that have both.
pub count_requests-requests_with :
    (p : Prometheus) (value : p.Vector → List Str → ℕ) (counting : IsCounting p value)
    (m : p.Vector) (rs : List Served) (method : Str) (status : ℕ)
    → value (count_requests p m rs) (method ∷ itoa status ∷ [])
      ≡ value m (method ∷ itoa status ∷ []) + requests_with method status rs
count_requests-requests_with p value counting m [] method status = omega arith
count_requests-requests_with p value counting m (r ∷ rs) method status = omega (
  arith,
  count_requests-requests_with p value counting (count_request p m r) rs method status,
  count_request_value p value counting m r method status,
)
