-- ===== src/Server.antt =====
-- internal/http/serve.go: `Serve` as steps of its own goroutine, of the goroutine that listens, and of
-- the context. The server and the context belong to the standard library; what they give, an error of
-- the listener or of the shutdown, is chosen by the step.
pub mod Outcome
pub mod Bounded
use tinkerbell_hegel.Prelude.{ℕ, Bool, true, false, Option, none, some, ◌≡◌, if◌then◌else◌}
use tinkerbell_hegel.Strings.{codes}
use tinkerbell_hegel.Errors.{GoError, text, is_error, server_closed, deadline_exceeded}

-- where `Serve` is: at its select, at `Shutdown`, or returned with an error or nil
pub data Phase : Type 0 where
  waiting : Phase
  shutting_down : Phase
  returned : Option GoError → Phase

-- What `ListenAndServe` and `Shutdown` returned stands beside what the code keeps, with `none` before
-- they return; `closed` is whether `server.Close` was called.
pub record State : Type 0 where
  pub phase : Phase
  pub listened : Option (Option GoError)
  pub err_chan : Option GoError
  pub cancelled : Bool
  pub shutdown : Option (Option GoError)
  pub closed : Bool

unfoldable pub start : Bool → State
start cancelled = record {
  phase = waiting;
  listened = none;
  err_chan = none;
  cancelled = cancelled;
  shutdown = none;
  closed = false;
}

-- what the goroutine sends when `ListenAndServe` returns
unfoldable pub sent : Option GoError → Option GoError
unfolding is_error
sent none = none
sent (some e) = if is_error e server_closed then none else some e

-- what `Serve` returns when `Shutdown` does
unfoldable pub shutdown_result : Option GoError → Option GoError
unfolding is_error
shutdown_result none = none
shutdown_result (some e) =
    if is_error e deadline_exceeded
    then some (text (codes "timed out waiting for graceful shutdown"))
    else some e

-- `server.Close` is called just if the shutdown fails
abbrev pub is_failure : Option GoError → Bool
is_failure none = false
is_failure (some e) = true

pub data Step : State → State → Type 0 where
  cancel : {s : State} → Step s (record s { cancelled = true })
  stop_listening :
      {s : State} (result : Option GoError)
      → s.listened ≡ none
      → Step s (record s { listened = some result; err_chan = sent result })
  take_done :
      {s : State}
      → s.phase ≡ waiting
      → s.cancelled ≡ true
      → Step s (record s { phase = shutting_down })
  take_error :
      {s : State} {e : GoError}
      → s.phase ≡ waiting
      → s.err_chan ≡ some e
      → Step s (record s { phase = returned (some e); err_chan = none })
  shut_down :
      {s : State} (result : Option GoError)
      → s.phase ≡ shutting_down
      → Step s (record s {
        phase = returned (shutdown_result result);
        shutdown = some result;
        closed = is_failure result;
      })

-- A step is one of the two goroutines, but for a cancelling, which is one of the context.
abbrev pub moves_of : {s t : State} → Step s t → ℕ
moves_of cancel = 0
moves_of (stop_listening result h) = 1
moves_of (take_done h c) = 1
moves_of (take_error h c) = 1
moves_of (shut_down result h) = 1

-- The states that a call can come to, from one whose context is cancelled or not.
pub data Reaches (cancelled : Bool) : State → Type 0 where
  begin : Reaches cancelled (start cancelled)
  next : {s t : State} → Reaches cancelled s → Step s t → Reaches cancelled t

-- Any number of steps.
pub data Steps : State → State → Type 0 where
  stay : {s : State} → Steps s s
  step : {s t u : State} → Step s t → Steps t u → Steps s u
