-- ===== src/Errors.antt =====
-- Go's `error` values as the program makes and inspects them, and internal/http/httperror.
use tinkerbell_hegel.Prelude.{
  ℕ, List, Bool, true, false, Option, none, some, ◌≡◌, ◌⊎◌, inl, inr, refl,
}
use tinkerbell_hegel.Strings.{Str, codes}

-- The package-level errors of the program, `http.ErrServerClosed` and `context.DeadlineExceeded`,
-- which `errors.Is` tells apart by identity.
pub data Sentinel : Type 0 where
  instance_not_found : Sentinel
  no_hardware_found : Sentinel
  missing_backend_config : Sentinel
  multiple_backends : Sentinel
  server_closed : Sentinel
  deadline_exceeded : Sentinel

-- `wrapped` is an error of another package that unwraps to the error it holds. `http` is the `E` of
-- httperror, which has no `Unwrap` method.
pub data GoError : Type 0 where
  sentinel : Sentinel → GoError
  text : Str → GoError
  http : ℕ → GoError → GoError
  wrapped : Str → GoError → GoError

pub data Result {ℓ} (A : Type ℓ) : Type ℓ where
  ok : A → Result A
  err : GoError → Result A

pub Result-cases {ℓ} :
    {A : Type ℓ} (r : Result A) → ((e : GoError) × (r ≡ err e)) ⊎ ((a : A) × (r ≡ ok a))
Result-cases (ok a) = inr (a, refl)
Result-cases (err e) = inl (e, refl)

infixl 5 ◌>>=◌
abbrev pub ◌>>=◌ {ℓ κ} : {A : Type ℓ} {B : Type κ} → Result A → (A → Result B) → Result B
ok a >>= f = f a
err e >>= f = err e

abbrev pub same_sentinel : Sentinel → Sentinel → Bool
same_sentinel instance_not_found instance_not_found = true
same_sentinel no_hardware_found no_hardware_found = true
same_sentinel missing_backend_config missing_backend_config = true
same_sentinel multiple_backends multiple_backends = true
same_sentinel server_closed server_closed = true
same_sentinel deadline_exceeded deadline_exceeded = true
same_sentinel _ _ = false

-- `errors.Is(err, target)`
unfoldable pub is_error : GoError → Sentinel → Bool
is_error (sentinel s) target = same_sentinel s target
is_error (text msg) target = false
is_error (http code e) target = false
is_error (wrapped msg e) target = is_error e target

-- `errors.As(err, &httpErr)`: the status code of the first `*httperror.E` in the chain
unfoldable pub as_http : GoError → Option ℕ
as_http (sentinel s) = none
as_http (text msg) = none
as_http (http code e) = some code
as_http (wrapped msg e) = as_http e

unfoldable pub sentinel_text : Sentinel → Str
sentinel_text instance_not_found = codes "instance not found"
sentinel_text no_hardware_found = codes "no hardware found"
sentinel_text missing_backend_config = codes "no backend configuration specified in options"
sentinel_text multiple_backends = codes "only one backend option can be specified"
sentinel_text server_closed = codes "http: Server closed"
sentinel_text deadline_exceeded = codes "context deadline exceeded"

-- `Error()`
unfoldable pub error_text : GoError → Str
unfolding sentinel_text
error_text (sentinel s) = sentinel_text s
error_text (text msg) = msg
error_text (http code e) = error_text e
error_text (wrapped msg e) = msg

-- `httperror.New`
unfoldable pub http_new : ℕ → Str → GoError
http_new code msg = http code (text msg)

-- `httperror.Newf`, over `fmt.Sprintf`
unfoldable pub http_newf : {A : Type 0} → (Str → List A → Str) → ℕ → Str → List A → GoError
unfolding http_new
http_newf sprintf code format args = http_new code (sprintf format args)

-- `httperror.Wrap`
unfoldable pub http_wrap : ℕ → GoError → GoError
http_wrap code e = http code e
