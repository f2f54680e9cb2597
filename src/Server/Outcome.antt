-- ===== src/Server/Outcome.antt =====
-- What `Serve` returns, and when.
use tinkerbell_hegel.Prelude.{
  Bool, true, false, Option, none, some, ◌≡◌, ◌⊎◌, inl, inr, refl, sym, ap, subst, Bool-cases,
}
use tinkerbell_hegel.Strings.{codes}
use tinkerbell_hegel.Errors.{GoError, text, is_error, server_closed, deadline_exceeded}
use tinkerbell_hegel.Server.{
  Phase, waiting, shutting_down, returned, State, start, sent, shutdown_result, is_failure, Step,
  cancel, stop_listening, take_done, take_error, shut_down, Reaches, begin, next, Steps, stay, step,
}

-- What a shutdown that returned this makes of the result of `Serve`, and whether the server was closed
-- by force.
abbrev pub ShutdownEnds : Option GoError → Option GoError → Bool → Type 0
ShutdownEnds none result closed = (result ≡ none) × (closed ≡ false)
ShutdownEnds (some e) result closed =
    (closed ≡ true)
    × (((is_error e deadline_exceeded ≡ true)
          × (result ≡ some (text (codes "timed out waiting for graceful shutdown"))))
        ⊎ ((is_error e deadline_exceeded ≡ false) × (result ≡ some e)))

-- The call returned what this shutdown makes of its result.
abbrev pub IsShutDown : Option GoError → State → Type 0
IsShutDown result s =
    (shutdown : Option GoError) × (s.shutdown ≡ some shutdown)
    × (s.cancelled ≡ true)
    × ShutdownEnds shutdown result s.closed

-- The call returned this error of the listener, with no shutdown.
abbrev pub IsListenError : Option GoError → State → Type 0
IsListenError result s =
    (e : GoError) × (result ≡ some e)
    × (s.listened ≡ some (some e))
    × (is_error e server_closed ≡ false)
    × (s.shutdown ≡ none)
    × (s.closed ≡ false)

abbrev pub PhaseHolds : Phase → State → Type 0
PhaseHolds waiting s = (s.shutdown ≡ none) × (s.closed ≡ false)
PhaseHolds shutting_down s = (s.cancelled ≡ true) × (s.shutdown ≡ none) × (s.closed ≡ false)
PhaseHolds (returned result) s = IsShutDown result s ⊎ IsListenError result s

-- What the phase says of a shutdown; an error on the channel is what the listener returned, and no
-- `ErrServerClosed`; and any other error of the listener is on the channel, or was returned.
pub record IsSound (s : State) : Type 0 where
  pub phase_holds : PhaseHolds s.phase s
  pub sent_error :
      (e : GoError)
      → s.err_chan ≡ some e
      → (s.listened ≡ some (some e)) × (is_error e server_closed ≡ false)
  pub delivered :
      (e : GoError)
      → s.listened ≡ some (some e)
      → is_error e server_closed ≡ false
      → (s.err_chan ≡ some e) ⊎ (s.phase ≡ returned (some e))

PhaseHolds-cancelled :
    (p : Phase) (s : State) → PhaseHolds p s → PhaseHolds p (record s { cancelled = true })
PhaseHolds-cancelled waiting s h = h
PhaseHolds-cancelled shutting_down s h = (refl, h.1, h.2)
PhaseHolds-cancelled (returned result) s (inl (shutdown, returns, cancelled, ends)) =
    inl (shutdown, returns, refl, ends)
PhaseHolds-cancelled (returned result) s (inr h) = inr h

PhaseHolds-listened :
    (p : Phase) (s : State) (result sent : Option GoError)
    → s.listened ≡ none
    → PhaseHolds p s
    → PhaseHolds p (record s { listened = some result; err_chan = sent })
PhaseHolds-listened waiting s result sent h i = i
PhaseHolds-listened shutting_down s result sent h i = i
PhaseHolds-listened (returned r) s result sent h (inl i) = inl i
PhaseHolds-listened (returned r) s result sent h
      (inr (e, returns, listened, other, unshut, open_)) =
    cc (h, listened)

shutdown_result-ShutdownEnds :
    (result : Option GoError) → ShutdownEnds result (shutdown_result result) (is_failure result)
unfolding shutdown_result
shutdown_result-ShutdownEnds none = (refl, refl)
shutdown_result-ShutdownEnds (some e) = elim (Bool-cases (is_error e deadline_exceeded)) [
  | inl late ↦ (refl, inl (late, rw late refl))
  | inr other ↦ (refl, inr (other, rw other refl))
]

sent-is_error :
    (result : Option GoError) (e : GoError)
    → sent result ≡ some e
    → (◌≡◌ {A = Option (Option GoError)} (some result) (some (some e)))
      × (is_error e server_closed ≡ false)
unfolding sent
sent-is_error none e h = cc
sent-is_error (some x) e h = elim (Bool-cases (is_error x server_closed)) [
  | inl closes ↦ cc (rw closes at h)
  | inr other ↦
      let same : x ≡ e = cc (rw other at h) in
      (ap (λ y. some (some y)) same, subst (λ y. is_error y server_closed ≡ false) same other)
]

sent-some :
    (result : Option GoError) (e : GoError)
    → ◌≡◌ {A = Option (Option GoError)} (some result) (some (some e))
    → is_error e server_closed ≡ false
    → sent result ≡ some e
unfolding sent
sent-some none e h other = cc
sent-some (some x) e h other =
    let same : x ≡ e = cc in subst (λ y. sent (some y) ≡ some e) (sym same) (rw other refl)

pub start-IsSound : (cancelled : Bool) → IsSound (start cancelled)
unfolding start
start-IsSound cancelled = record {
  phase_holds = (refl, refl);
  sent_error = λ e h. cc;
  delivered = λ e h other. cc;
}

pub Step-IsSound : {s t : State} → IsSound s → Step s t → IsSound t
Step-IsSound {s = s} i cancel = record {
  phase_holds = PhaseHolds-cancelled s.phase s i.phase_holds;
  sent_error = i.sent_error;
  delivered = i.delivered;
}
Step-IsSound {s = s} i (stop_listening result h) = record {
  phase_holds = PhaseHolds-listened s.phase s result (sent result) h i.phase_holds;
  sent_error = sent-is_error result;
  delivered = λ e listened other. inl (sent-some result e listened other);
}
Step-IsSound {s = s} i (take_done h c) = record {
  phase_holds =
      let (unshut, open_) = subst (λ p. PhaseHolds p s) h i.phase_holds in (c, unshut, open_);
  sent_error = i.sent_error;
  delivered = λ e listened other. elim (i.delivered e listened other) [
    | inl kept ↦ inl kept
    | inr ended ↦ cc (h, ended)
  ];
}
Step-IsSound {s = s} i (take_error {e = e} h c) = record {
  phase_holds =
      let (listened, other) = i.sent_error e c in
      let (unshut, open_) = subst (λ p. PhaseHolds p s) h i.phase_holds in
      inr (e, refl, listened, other, unshut, open_);
  sent_error = λ x n. cc;
  delivered = λ x listened other. let taken = (i.sent_error e c).0 in inr (cc (listened, taken));
}
Step-IsSound {s = s} i (shut_down result h) = record {
  phase_holds = inl (
    result,
    refl,
    (subst (λ p. PhaseHolds p s) h i.phase_holds).0,
    shutdown_result-ShutdownEnds result,
  );
  sent_error = i.sent_error;
  delivered = λ e listened other. elim (i.delivered e listened other) [
    | inl kept ↦ inl kept
    | inr ended ↦ cc (h, ended)
  ];
}

-- In every state that a call of `Serve` comes to: while it waits, and until `Shutdown` returns, the
-- server was neither shut down nor closed, and a shutdown begins only where the context is
-- cancelled. A call that has returned did so in one of two ways. Either the context is cancelled and
-- `Shutdown` has returned: nil gives nil, with the server not closed by force; an error closes the
-- server, and gives the text of a timeout where it is the deadline's and itself otherwise. Or what
-- it returned is the error of `ListenAndServe`, which is not `ErrServerClosed`, with no shutdown and
-- nothing closed. An error that waits on the channel is that of `ListenAndServe`, and is not
-- `ErrServerClosed`; and where `ListenAndServe` has returned an error that is not, the error waits on
-- the channel or the call has returned it.
pub Reaches-IsSound : (cancelled : Bool) (s : State) → Reaches cancelled s → IsSound s
Reaches-IsSound cancelled s begin = start-IsSound cancelled
Reaches-IsSound cancelled s (next r st) = Step-IsSound (Reaches-IsSound cancelled _ r) st

-- Once the context is cancelled a call that waits can return in steps of its own, whatever the
-- shutdown gives, and then returns that shutdown's result.
pub waiting-returned :
    (s : State) (result : Option GoError)
    → s.phase ≡ waiting
    → s.cancelled ≡ true
    → (t : State) × Steps s t × (t.phase ≡ returned (shutdown_result result))
waiting-returned s result h c = (_, step (take_done h c) (step (shut_down result refl) stay), refl)
