-- ===== src/Server/Bounded.antt =====
-- How many steps a call of `Serve` has.
use tinkerbell_hegel.Prelude.{ℕ, ◌+◌, ◌≤◌, true, Option, none, some, ◌≡◌, ◌≢◌, refl, sym, arith}
use tinkerbell_hegel.Errors.{GoError}
use tinkerbell_hegel.Server.{
  Phase, waiting, shutting_down, returned, State, Step, cancel, stop_listening, take_done,
  take_error, shut_down, moves_of,
}

-- The steps that `Serve` has before it at most, and the goroutine that listens.
abbrev steps_of : Phase → ℕ
steps_of waiting = 2
steps_of shutting_down = 1
steps_of (returned result) = 0

abbrev listening_steps : Option (Option GoError) → ℕ
listening_steps none = 1
listening_steps (some result) = 0

abbrev pub steps_left : State → ℕ
steps_left s = steps_of s.phase + listening_steps s.listened

pub Step-steps_left : {s t : State} (st : Step s t) → moves_of st + steps_left t ≤ steps_left s
Step-steps_left cancel = omega arith
Step-steps_left (stop_listening result h) = ground (arith, h)
Step-steps_left (take_done h c) = ground (arith, h)
Step-steps_left (take_error h c) = ground (arith, h)
Step-steps_left (shut_down result h) = ground (arith, h)

-- A call of `Serve` has three steps at most.
pub steps_left_bounded : (s : State) → steps_left s ≤ 3
steps_left_bounded s = omega (arith, phase_bounded s.phase, listening_bounded s.listened)
  where
    phase_bounded : (p : Phase) → steps_of p ≤ 2
    phase_bounded waiting = omega arith
    phase_bounded shutting_down = omega arith
    phase_bounded (returned result) = omega arith

    listening_bounded : (l : Option (Option GoError)) → listening_steps l ≤ 1
    listening_bounded none = omega arith
    listening_bounded (some result) = omega arith

pub one_ne_zero : ◌≢◌ {A = ℕ} 1 0
one_ne_zero e = omega arith

-- Only the context's own step cancels it.
pub moves_of-cancelled : {s t : State} (st : Step s t) → moves_of st ≡ 1 → t.cancelled ≡ s.cancelled
moves_of-cancelled cancel own = absurd (one_ne_zero (sym own))
moves_of-cancelled (stop_listening result h) own = refl
moves_of-cancelled (take_done h c) own = refl
moves_of-cancelled (take_error h c) own = refl
moves_of-cancelled (shut_down result h) own = refl

-- A call that has returned stays so.
pub Step-returned :
    {s t : State} {result : Option GoError}
    → Step s t
    → s.phase ≡ returned result
    → t.phase ≡ returned result
Step-returned cancel e = e
Step-returned (stop_listening result h) e = e
Step-returned (take_done h c) e = cc
Step-returned (take_error h c) e = cc
Step-returned (shut_down result h) e = cc

-- No step of the two goroutines is left.
abbrev pub IsStuck : State → Type 0
IsStuck s = (t : State) (st : Step s t) → moves_of st ≡ 0

-- A call whose context is cancelled has returned once no step of the goroutines is left: nothing
-- that the listener does holds it up.
pub IsStuck-returned :
    (s : State)
    → s.cancelled ≡ true
    → IsStuck s
    → (result : Option GoError) × (s.phase ≡ returned result)
IsStuck-returned s c stuck = go s.phase refl
  where
    go : (p : Phase) → s.phase ≡ p → (result : Option GoError) × (s.phase ≡ returned result)
    go waiting h = absurd (one_ne_zero (stuck _ (take_done h c)))
    go shutting_down h = absurd (one_ne_zero (stuck _ (shut_down none h)))
    go (returned result) h = (result, h)
