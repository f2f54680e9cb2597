-- ===== src/Contexts.antt =====
-- What the program uses of the standard library's `context` and `os/signal`: the contexts that the
-- process makes, and which of them are done, by the signals that the process was sent.
use tinkerbell_hegel.Prelude.{ℕ, Bool, true, false, List, [], ◌∷◌, ◌||◌, ◌==◌}

pub data Signal : Type 0 where
  sigint : Signal
  sigterm : Signal
  sighup : Signal
  other_signal : ℕ → Signal

abbrev pub signal_eq : Signal → Signal → Bool
signal_eq sigint sigint = true
signal_eq sigterm sigterm = true
signal_eq sighup sighup = true
signal_eq (other_signal m) (other_signal n) = m == n
signal_eq _ _ = false

-- `context.Background`, `context.WithValue` of any key and value, and `signal.NotifyContext` of a list
-- of signals
pub data Context : Type 0 where
  background : Context
  with_value : Context → Context
  notify_context : Context → List Signal → Context

abbrev pub listens_for : List Signal → Signal → Bool
listens_for [] received = false
listens_for (sg ∷ signals) received = signal_eq sg received || listens_for signals received

abbrev pub listens_for_any : List Signal → List Signal → Bool
listens_for_any signals [] = false
listens_for_any signals (sg ∷ received) = listens_for signals sg || listens_for_any signals received

-- The channel that `Done` returns: whether it is closed, by the signals that were received since the
-- context was made.
abbrev pub Done : Type 0
Done = List Signal → Bool

-- A context is done with its parent, or on a signal of its own.
abbrev pub done : Context → Done
done background received = false
done (with_value parent) received = done parent received
done (notify_context parent signals) received =
    done parent received || listens_for_any signals received
