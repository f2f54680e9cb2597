-- ===== src/Witnesses/Running.antt =====
-- The metrics and the middleware.
use tinkerbell_hegel.Prelude.{
  ℕ, ◌+◌, Bool, true, false, ◌&&◌, List, [], ◌∷◌, none, some, ◌≡◌, inl, inr, refl, arith,
  if◌then◌else◌, Bool-cases,
}
use tinkerbell_hegel.Strings.{Str, codes, str_eq}
use tinkerbell_hegel.Strings.Order.{str_eq_iff, str_eq_refl}
use tinkerbell_hegel.Strings.Members.{contains}
use tinkerbell_hegel.Strconv.{itoa}
use tinkerbell_hegel.Metrics.{Prometheus, Served, requests_total, request_duration}
use tinkerbell_hegel.Metrics.Counted.{
  IsCounting, IsRefusing, count_requests, count_requests-requests_with,
}
use tinkerbell_hegel.Command.Chain.{
  Exchange, Ended, returned, panicked, Gin, Readings, Handler, middlewares, count, observe,
}
use tinkerbell_hegel.Command.Chain.Answered.{IsGin, middlewares-settled, middlewares-counted}

abbrev pub Vector : Type 0
Vector = List Str → ℕ

abbrev pub labels_eq : List Str → List Str → Bool
labels_eq [] [] = true
labels_eq [] (l ∷ ls) = false
labels_eq (k ∷ ks) [] = false
labels_eq (k ∷ ks) (l ∷ ls) = str_eq k l && labels_eq ks ls

labels_eq_refl : (ls : List Str) → labels_eq ls ls ≡ true
labels_eq_refl [] = refl
labels_eq_refl (l ∷ ls) = ground (arith, str_eq_refl l, labels_eq_refl ls)

eq_of_labels_eq : (ks ls : List Str) → labels_eq ks ls ≡ true → ks ≡ ls
eq_of_labels_eq [] [] h = refl
eq_of_labels_eq [] (l ∷ ls) h = cc
eq_of_labels_eq (k ∷ ks) [] h = cc
eq_of_labels_eq (k ∷ ks) (l ∷ ls) h = ground (arith, h, str_eq_iff k l, eq_of_labels_eq ks ls)

abbrev pub added : Vector → List Str → Vector
added v ls ls' = if labels_eq ls ls' then v ls' + 1 else v ls'

abbrev pub prometheus : Prometheus
prometheus = record {
  Registry = List Str;
  Vector = Vector;
  new_registry = [];
  new_vector = λ d ls. 0;
  register = λ r d. if contains d.name r then none else some (d.name ∷ r);
  inc = added;
  observe = λ v ls since. added v ls;
}

abbrev pub value : Vector → List Str → ℕ
value v ls = v ls

pub counting : IsCounting prometheus value
counting = record {
  starts = λ d ls. refl;
  same = λ v ls. rw (labels_eq_refl ls) refl;
  other = λ v ls ls' apart. elim (Bool-cases (labels_eq ls ls')) [
    | inl equal ↦ absurd (apart (eq_of_labels_eq ls ls' equal))
    | inr differs ↦ rw differs refl
  ];
}

pub refusing : IsRefusing prometheus
unfolding contains
refusing r r' d h = elim (Bool-cases (contains d.name r)) [
  | inl held ↦ cc (rw held at h)
  | inr fresh ↦ ground (arith, rw fresh at h, str_eq_refl d.name)
]

abbrev requests : List Served
requests =
    record { full_path = codes "/healthz"; method = codes "GET"; status = 200 }
    ∷ record { full_path = codes "/metadata"; method = codes "GET"; status = 500 }
    ∷ record { full_path = codes "/healthz"; method = codes "GET"; status = 200 }
    ∷ []

count_requests-requests_with_example :
    value
      (count_requests prometheus (prometheus.new_vector requests_total) requests)
      (codes "GET" ∷ itoa 200 ∷ [])
    ≡ 2
unfolding str_eq
count_requests-requests_with_example =
    count_requests-requests_with prometheus value counting (prometheus.new_vector requests_total)
      requests (codes "GET") 200

abbrev pub read : Readings Str
read = record {
  method = λ r. codes "GET";
  url = λ r. record { path = codes "/metadata"; raw_query = []; raw_fragment = [] };
  client_ip = λ r. r;
}

abbrev recover : Ended (Exchange Str Vector) → Ended (Exchange Str Vector)
recover (returned y) = returned y
recover (panicked y) = returned (record y { status = 500 })

abbrev run_all :
    List (Handler Str Vector → Handler Str Vector) → Handler Str Vector → Handler Str Vector
run_all [] h = h
run_all (m ∷ ms) h = m (run_all ms h)

abbrev pub gin : Gin Str Vector
gin = record { recovery = λ next x. recover (next x); run = run_all }

pub is_gin : IsGin gin
is_gin = record {
  run-nil = λ h x. refl;
  run-cons = λ m ms h x. refl;
  passed_on = λ next x y h. rw h refl;
  recovered = λ next x y h. rw h refl;
}

abbrev pub exchange : Exchange Str Vector
exchange = record {
  request = codes "10.0.0.1";
  full_path = codes "/metadata";
  status = 200;
  errors = [];
  clock = 7;
  counted = prometheus.new_vector requests_total;
  timed = prometheus.new_vector request_duration;
  logged = [];
}

-- a handler that takes 5 milliseconds and panics
abbrev broken : Handler Str Vector
broken x = panicked (record x { clock = x.clock + 5 })

abbrev pub forwarded : Str → Str
forwarded r = codes "192.168.0.1"

middlewares-settled_example :
    gin.run (middlewares prometheus read gin forwarded) broken exchange
    ≡ returned (
        count prometheus read (
          observe prometheus read 7
            (record exchange { request = codes "192.168.0.1"; clock = 12; status = 500 })))
middlewares-settled_example =
    middlewares-settled prometheus read gin is_gin forwarded broken exchange

middlewares-counted_example :
    (y : Exchange Str Vector) × (gin.run (middlewares prometheus read gin forwarded) broken exchange
      ≡ returned y)
    × (value y.counted (codes "GET" ∷ itoa y.status ∷ []) ≡ 0 + 1)
middlewares-counted_example =
    middlewares-counted prometheus read gin is_gin forwarded value counting broken (λ x. refl)
      exchange
