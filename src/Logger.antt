-- ===== src/Logger.antt =====
-- internal/logger/logger.go: the event that the middleware logs after the handlers of a request.
pub mod Path
use tinkerbell_hegel.Prelude.{ℕ, List, [], ◌∷◌, ◌++◌, ltb, if◌then◌else◌}
use tinkerbell_hegel.Strings.{Str, codes, str_eq}

-- the parts of the request's URL
pub record Url : Type 0 where
  pub path : Str
  pub raw_query : Str
  pub raw_fragment : Str

-- What the middleware reads of the context once the handlers have run. `latency` is the difference of
-- the two times that it takes.
pub record Handled (Duration : Type 0) : Type 0 where
  pub url : Url
  pub client_ip : Str
  pub method : Str
  pub status : ℕ
  pub errors : List Str
  pub latency : Duration

-- `logger.WithValues` of the request
pub record Values (Duration : Type 0) : Type 0 where
  pub client_ip : Str
  pub method : Str
  pub status_code : ℕ
  pub path : Str
  pub latency : Duration

-- `event.Info("")`, and `event.Error` with its message and all errors
pub data Event (Duration : Type 0) : Type 0 where
  info : Values Duration → Event Duration
  error : Values Duration → Str → Str → Event Duration

unfoldable pub path_of : Url → Str
path_of u =
    let with_query = u.path ++ (if str_eq u.raw_query [] then [] else codes "?" ++ u.raw_query) in
    with_query ++ (if str_eq u.raw_fragment [] then [] else codes "#" ++ u.raw_fragment)

-- `strings.Join(errs, "; ")`
unfoldable pub join_errors : List Str → Str
join_errors [] = []
join_errors (e ∷ []) = e
join_errors (e ∷ f ∷ es) = e ++ (codes "; " ++ join_errors (f ∷ es))

abbrev pub first_error : List Str → Str
first_error [] = codes "No error message specified"
first_error (e ∷ es) = e

module _ {Duration : Type 0} where
  unfoldable pub middleware : Handled Duration → Event Duration
  unfolding path_of join_errors
  middleware c =
      let values : Values Duration = record {
        client_ip = c.client_ip;
        method = c.method;
        status_code = c.status;
        path = path_of c.url;
        latency = c.latency;
      } in
      if ltb c.status 500
      then info values
      else error values (first_error c.errors) (join_errors c.errors)
