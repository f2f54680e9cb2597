-- ===== src/Main/Lifetime/Lawful.antt =====
-- When a process that serves stops.
use tinkerbell_hegel.Prelude.{
  ℕ, Bool, true, false, Bool-cases, ◌||◌, ◌∙◌, sym, ap₂, any, List, [], ◌∷◌, Option, none, some,
  ◌≡◌, ◌⊎◌, inl, inr, refl, subst, arith,
}
use tinkerbell_hegel.Contexts.{
  Signal, sigint, sigterm, sighup, other_signal, Context, background, done, listens_for,
  listens_for_any,
}
use tinkerbell_hegel.Errors.{GoError, is_error, server_closed}
use tinkerbell_hegel.Kubernetes.Connect.{start_cluster}
use tinkerbell_hegel.Command.Run.{Outside, Running, shutdown_signals, shutdown_context}
use tinkerbell_hegel.Server
use tinkerbell_hegel.Server.{Phase, State, start, returned, Step}
use tinkerbell_hegel.Server.Bounded.{moves_of-cancelled, Step-returned}
use tinkerbell_hegel.Server.Outcome.{IsSound, ShutdownEnds, PhaseHolds, start-IsSound, Step-IsSound}
use tinkerbell_hegel.Command.Flags.{RootCommand, Library}
use tinkerbell_hegel.Command.Run.Started.{run-IsStarted}
use tinkerbell_hegel.Main.{Arguments, serving, exit_code, main}
use tinkerbell_hegel.Main.Exit.{main-runs}
use tinkerbell_hegel.Main.Lifetime.{
  Deferred, in_serve, notify_stopped, telemetry_stopped, catches, Alive, Life, alive, exited,
  crashed, killed, starts_cluster, ended, Lives, receive, kill, cancel, serve, cluster_ends,
  stop_notify, stop_telemetry, exit, LivesTo, serving_starts, then_lives,
}

-- The context that OpenTelemetry makes of another is done only if that is.
abbrev pub AddsValues : (Context → Context) → Type 0
AddsValues init_open_telemetry =
    (ctx : Context) (received : List Signal)
    → done (init_open_telemetry ctx) received ≡ true
    → done ctx received ≡ true

abbrev pub is_stop_signal : Signal → Bool
is_stop_signal sigint = true
is_stop_signal sigterm = true
is_stop_signal sighup = true
is_stop_signal (other_signal n) = false

-- SIGINT, SIGTERM or SIGHUP was received.
abbrev pub IsTold : List Signal → Type 0
IsTold received = any is_stop_signal received ≡ true

pub listens_for_shutdown : (sg : Signal) → listens_for shutdown_signals sg ≡ is_stop_signal sg
listens_for_shutdown sigint = refl
listens_for_shutdown sigterm = refl
listens_for_shutdown sighup = refl
listens_for_shutdown (other_signal n) = refl

pub listens_for_any_shutdown :
    (received : List Signal)
    → listens_for_any shutdown_signals received ≡ any is_stop_signal received
listens_for_any_shutdown [] = refl
listens_for_any_shutdown (sg ∷ received) =
    ap₂ ◌||◌ (listens_for_shutdown sg) (listens_for_any_shutdown received)

pub done_background :
    (init : Context → Context) (adds : AddsValues init) (received : List Signal)
    → done (init background) received ≡ false
done_background init adds received = elim (Bool-cases (done (init background) received)) [
  | inl is_done ↦ cc (adds background received is_done)
  | inr not_done ↦ not_done
]

IsTold-of_done :
    (init : Context → Context) (adds : AddsValues init) (received : List Signal)
    → done (shutdown_context (init background)) received ≡ true
    → IsTold received
IsTold-of_done init adds received h =
    sym (listens_for_any_shutdown received) ∙ (rw (done_background init adds received) at h)

listens_for_of_done :
    (init : Context → Context) (sg : Signal)
    → done (shutdown_context (init background)) (sg ∷ []) ≡ false
    → is_stop_signal sg ≡ false
listens_for_of_done init sg h =
    let unheard : listens_for shutdown_signals sg ≡ false = ground (arith, h) in
    sym (listens_for_shutdown sg) ∙ unheard

IsTold-cons : (sg : Signal) (received : List Signal) → IsTold received → IsTold (sg ∷ received)
IsTold-cons sg received h = ground (arith, h)

-- The call of `Serve` has returned once a deferred call has.
abbrev pub HasReturned : Deferred → Phase → Type 0
HasReturned in_serve p = Unit
HasReturned _ p = (result : Option GoError) × (p ≡ returned result)

-- What holds of a process that runs: its call of `Serve` is sound and is cancelled only if the process
-- was told to stop, no deferred call runs before `Serve` returns, and only over a cluster is there a
-- goroutine that starts it.
pub record IsAlive (cluster : Bool) (a : Alive) : Type 0 where
  pub sound : IsSound a.server
  pub told : a.server.cancelled ≡ true → IsTold a.received
  pub deferred_holds : HasReturned a.deferred a.server.phase
  pub over_cluster : a.starting ≡ true → cluster ≡ true

-- The exit code tells how the call of `Serve` ended.
abbrev pub ExitsLawfully : ℕ → Alive → Type 0
ExitsLawfully n a =
    ((n ≡ 0) × IsTold a.received × (a.server.shutdown ≡ some none) × (a.server.closed ≡ false))
    ⊎ ((n ≡ 1)
        × ((IsTold a.received × (a.server.closed ≡ true))
            ⊎ ((e : GoError) × (a.server.listened ≡ some (some e))
                × (is_error e server_closed ≡ false)
                × (a.server.closed ≡ false))))

abbrev pub IsLawful : Bool → Life → Type 0
IsLawful cluster (alive a) = IsAlive cluster a
IsLawful cluster (exited n a) = ExitsLawfully n a
IsLawful cluster (crashed e) = cluster ≡ true
IsLawful cluster (killed sg a) =
    (is_stop_signal sg ≡ false) ⊎ ((result : Option GoError) × (a.server.phase ≡ returned result))

shut_down-ExitsLawfully :
    (a : Alive) (shutdown result : Option GoError)
    → a.server.shutdown ≡ some shutdown
    → IsTold a.received
    → ShutdownEnds shutdown result a.server.closed
    → ExitsLawfully (exit_code result) a
shut_down-ExitsLawfully a none none shut told (returns, open_) = inl (refl, told, shut, open_)
shut_down-ExitsLawfully a none (some e) shut told (returns, open_) = cc
shut_down-ExitsLawfully a (some e) none shut told (closed, inl (late, returns)) = cc
shut_down-ExitsLawfully a (some e) none shut told (closed, inr (other, returns)) = cc
shut_down-ExitsLawfully a (some e) (some x) shut told (closed, returns) =
    inr (refl, inl (told, closed))

returned-ExitsLawfully :
    (cluster : Bool) (a : Alive) (result : Option GoError)
    → IsAlive cluster a
    → PhaseHolds (returned result) a.server
    → ExitsLawfully (exit_code result) a
returned-ExitsLawfully cluster a result i (inl (shutdown, shut, cancelled, ends)) =
    shut_down-ExitsLawfully a shutdown result shut (i.told cancelled) ends
returned-ExitsLawfully cluster a none i (inr (e, returns, listened, other, unshut, open_)) = cc
returned-ExitsLawfully cluster a (some x) i (inr (e, returns, listened, other, unshut, open_)) =
    inr (refl, inr (e, listened, other, open_))

Step-HasReturned :
    {s t : State} (d : Deferred) → Step s t → HasReturned d s.phase → HasReturned d t.phase
Step-HasReturned in_serve st h = tt
Step-HasReturned notify_stopped st (result, h) = (result, Step-returned st h)
Step-HasReturned telemetry_stopped st (result, h) = (result, Step-returned st h)

ended-IsLawful :
    (cluster : Bool) (a : Alive) (result : Option GoError)
    → IsAlive cluster a
    → a.starting ≡ true
    → IsLawful cluster (ended (start_cluster result) a)
unfolding start_cluster
ended-IsLawful cluster a none i h = record {
  sound = i.sound;
  told = i.told;
  deferred_holds = i.deferred_holds;
  over_cluster = λ no. cc;
}
ended-IsLawful cluster a (some e) i h = i.over_cluster h

module _ {Request Reading : Type 0} (o : Outside Request) (s : Running o Reading)
    (adds : AddsValues o.init_open_telemetry)
    (context : s.context ≡ shutdown_context (o.init_open_telemetry background)) where
  IsTold-of_context : (received : List Signal) → done s.context received ≡ true → IsTold received
  IsTold-of_context received h =
      IsTold-of_done o.init_open_telemetry adds received (rw context at h)

  catches-killed :
      (d : Deferred) (p : Phase) (sg : Signal)
      → HasReturned d p
      → catches d s.context sg ≡ false
      → (is_stop_signal sg ≡ false) ⊎ ((result : Option GoError) × (p ≡ returned result))
  catches-killed in_serve p sg i h =
      inl (listens_for_of_done o.init_open_telemetry sg (rw context at h))
  catches-killed notify_stopped p sg i h = inr i
  catches-killed telemetry_stopped p sg i h = inr i

  Lives-IsLawful :
      (l m : Life)
      → Lives s l m
      → IsLawful (starts_cluster s.backend) l
      → IsLawful (starts_cluster s.backend) m
  Lives-IsLawful _ _ (receive {a = a} sg h) i = record {
    sound = i.sound;
    told = λ c. IsTold-cons sg a.received (i.told c);
    deferred_holds = i.deferred_holds;
    over_cluster = i.over_cluster;
  }
  Lives-IsLawful _ _ (kill {a = a} sg h) i =
      catches-killed a.deferred a.server.phase sg i.deferred_holds h
  Lives-IsLawful _ _ (cancel {a = a} open_ h) i = record {
    sound = Step-IsSound i.sound Server.cancel;
    told = λ c. IsTold-of_context a.received h;
    deferred_holds = i.deferred_holds;
    over_cluster = i.over_cluster;
  }
  Lives-IsLawful _ _ (serve {a = a} st own) i = record {
    sound = Step-IsSound i.sound st;
    told = λ c. i.told (rw (moves_of-cancelled st own) at c);
    deferred_holds = Step-HasReturned a.deferred st i.deferred_holds;
    over_cluster = i.over_cluster;
  }
  Lives-IsLawful _ _ (cluster_ends {a = a} result h) i =
      ended-IsLawful (starts_cluster s.backend) a result i h
  Lives-IsLawful _ _ (stop_notify {result = result} h d) i = record {
    sound = i.sound;
    told = i.told;
    deferred_holds = (result, h);
    over_cluster = i.over_cluster;
  }
  Lives-IsLawful _ _ (stop_telemetry {a = a} d) i = record {
    sound = i.sound;
    told = i.told;
    deferred_holds = subst (λ x. HasReturned x a.server.phase) d i.deferred_holds;
    over_cluster = i.over_cluster;
  }
  Lives-IsLawful _ _ (exit {a = a} {result = result} h d) i =
      returned-ExitsLawfully (starts_cluster s.backend) a result i
        (subst (λ p. PhaseHolds p a.server) h i.sound.phase_holds)

  pub LivesTo-IsLawful : (l : Life) → LivesTo s l → IsLawful (starts_cluster s.backend) l
  unfolding start
  LivesTo-IsLawful _ serving_starts = record {
    sound = start-IsSound (done s.context []);
    told = λ c. IsTold-of_context [] c;
    deferred_holds = tt;
    over_cluster = λ h. h;
  }
  LivesTo-IsLawful _ (then_lives r st) = Lives-IsLawful _ _ st (LivesTo-IsLawful _ r)

-- A process that has come to serve, where the context that OpenTelemetry makes is done only if its
-- parent is. It exits with 0 or 1: with 0 only after it received SIGINT, SIGTERM or SIGHUP and a
-- shutdown that did not fail, with the server not closed by force; with 1 either after it received
-- one of the three and closed the server by force, or because the listener returned an error, which
-- is not `ErrServerClosed`, with nothing closed. It crashes only over a Kubernetes backend. None of
-- the three signals kills it before `Serve` has returned. While the process runs, what is proved of
-- a call of `Serve` holds of its own, the call is cancelled only if the process received one of the
-- three, and no deferred call of `Run` comes before its return.
pub main-IsLawful :
    {Request Reading : Type 0} (o : Outside Request) (library : Library)
    (arguments : RootCommand → Arguments) (d : o.prometheus.Registry) (s : Running o Reading)
    (l : Life)
    → AddsValues o.init_open_telemetry
    → main o Reading library arguments d ≡ serving s
    → LivesTo s l
    → IsLawful (starts_cluster s.backend) l
main-IsLawful o library arguments d s l adds h lives =
    let (opts, runs) = main-runs o library arguments d s h in
    LivesTo-IsLawful o s adds (run-IsStarted o background opts d s runs).context l lives
