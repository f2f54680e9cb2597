-- ===== src/Main/Lifetime/Ends.antt =====
-- That a process which is told to stop ends.
use tinkerbell_hegel.Prelude.{
  ℕ, ◌+◌, ◌≤◌, true, Bool-cases, List, ◌∷◌, Option, none, some, ◌≡◌, ◌⊎◌, inl, inr, refl, sym, ◌∙◌,
  arith, if◌then◌else◌,
}
use tinkerbell_hegel.Contexts.{Signal, Context, background, with_value, notify_context, done}
use tinkerbell_hegel.Errors.{GoError}
use tinkerbell_hegel.Kubernetes.Connect.{start_cluster}
use tinkerbell_hegel.Command.Flags.{RootCommand, Library}
use tinkerbell_hegel.Command.Run.{Outside, Running, shutdown_context}
use tinkerbell_hegel.Command.Run.Started.{run-IsStarted}
use tinkerbell_hegel.Server.{Phase, waiting, shutting_down, returned, take_done, shut_down}
use tinkerbell_hegel.Server.Bounded.{
  one_ne_zero, steps_left, Step-steps_left, steps_left_bounded, moves_of-cancelled,
}
use tinkerbell_hegel.Main.{Arguments, serving, main}
use tinkerbell_hegel.Main.Exit.{main-runs}
use tinkerbell_hegel.Main.Lifetime.Lawful.{IsTold, listens_for_any_shutdown}
use tinkerbell_hegel.Main.Lifetime.{
  Deferred, in_serve, notify_stopped, telemetry_stopped, Alive, Life, alive, exited, crashed,
  killed, ended, Lives, receive, kill, cancel, serve, cluster_ends, stop_notify, stop_telemetry,
  exit,
}

abbrev deferred_left : Deferred → ℕ
deferred_left in_serve = 2
deferred_left notify_stopped = 1
deferred_left telemetry_stopped = 0

-- The steps that a process has before it at most, signals apart.
abbrev pub life_left : Life → ℕ
life_left (alive a) =
    steps_left a.server
    + (if a.server.cancelled then 0 else 1)
    + deferred_left a.deferred
    + (if a.starting then 1 else 0)
    + 1
life_left _ = 0

done-cons :
    (ctx : Context) (sg : Signal) (received : List Signal)
    → done ctx received ≡ true
    → done ctx (sg ∷ received) ≡ true
done-cons background sg received h = cc
done-cons (with_value parent) sg received h = done-cons parent sg received h
done-cons (notify_context parent signals) sg received h =
    ground (arith, h, done-cons parent sg received)

ended-life_left :
    (result : Option GoError) (a : Alive)
    → a.starting ≡ true
    → 1 + life_left (ended (start_cluster result) a) ≤ life_left (alive a)
unfolding start_cluster
ended-life_left none a h = ground (arith, h)
ended-life_left (some e) a h = ground (arith, h)

-- A process has exited with some code, has crashed, or was killed.
abbrev pub HasEnded : Life → Type 0
HasEnded l =
    ((n : ℕ) × (a : Alive) × (l ≡ exited n a))
    ⊎ (((e : GoError) × (l ≡ crashed e)) ⊎ ((sg : Signal) × (a : Alive) × (l ≡ killed sg a)))

done_of_told :
    (ctx : Context) (received : List Signal)
    → IsTold received
    → done (shutdown_context ctx) received ≡ true
done_of_told ctx received told = ground (arith, listens_for_any_shutdown received ∙ told)

module _ {Request Reading : Type 0} {o : Outside Request} (s : Running o Reading) where
  -- Only the arrival of a signal is no step of the process.
  abbrev pub life_moves : {l m : Life} → Lives s l m → ℕ
  life_moves (receive sg h) = 0
  life_moves _ = 1

  -- Any number of steps, and how many of them are of the process.
  pub data LivesOn : Life → Life → Type 0 where
    rests : {l : Life} → LivesOn l l
    goes_on : {l m n : Life} → Lives s l m → LivesOn m n → LivesOn l n

  abbrev pub moves_on : {l m : Life} → LivesOn l m → ℕ
  moves_on rests = 0
  moves_on (goes_on st run) = life_moves st + moves_on run

  Lives-life_left : {l m : Life} (st : Lives s l m) → life_moves st + life_left m ≤ life_left l
  Lives-life_left (receive sg h) = omega arith
  Lives-life_left (kill sg h) = omega arith
  Lives-life_left (cancel open_ h) = ground (arith, open_)
  Lives-life_left (serve st own) =
      rw (moves_of-cancelled st own) (omega (arith, Step-steps_left st, own))
  Lives-life_left (cluster_ends {a = a} result h) = ended-life_left result a h
  Lives-life_left (stop_notify h d) = rw d (omega arith)
  Lives-life_left (stop_telemetry d) = rw d (omega arith)
  Lives-life_left (exit h d) = omega arith

  -- A run has no more steps of the process than are left of its first state.
  LivesOn-life_left : {l m : Life} (run : LivesOn l m) → moves_on run + life_left m ≤ life_left l
  LivesOn-life_left rests = omega arith
  LivesOn-life_left (goes_on st run) = omega (arith, Lives-life_left st, LivesOn-life_left run)

  -- A process that runs and was told to stop.
  abbrev IsStopping : Life → Type 0
  IsStopping (alive a) = done s.context a.received ≡ true
  IsStopping l = Unit

  ended-IsStopping :
      (a : Alive) (result : Option GoError)
      → IsStopping (alive a)
      → IsStopping (ended (start_cluster result) a)
  unfolding start_cluster
  ended-IsStopping a none h = h
  ended-IsStopping a (some e) h = tt

  Lives-IsStopping : {l m : Life} → Lives s l m → IsStopping l → IsStopping m
  Lives-IsStopping (receive {a = a} sg k) h = done-cons s.context sg a.received h
  Lives-IsStopping (kill sg k) h = tt
  Lives-IsStopping (cancel open_ k) h = h
  Lives-IsStopping (serve st own) h = h
  Lives-IsStopping (cluster_ends {a = a} result k) h = ended-IsStopping a result h
  Lives-IsStopping (stop_notify k d) h = h
  Lives-IsStopping (stop_telemetry d) h = h
  Lives-IsStopping (exit k d) h = tt

  LivesOn-IsStopping : {l m : Life} → LivesOn l m → IsStopping l → IsStopping m
  LivesOn-IsStopping rests h = h
  LivesOn-IsStopping (goes_on st run) h = LivesOn-IsStopping run (Lives-IsStopping st h)

  -- A process that runs and was told to stop has a step.
  stopping_goes_on :
      (a : Alive)
      → done s.context a.received ≡ true
      → (m : Life) × (st : Lives s (alive a) m) × (life_moves st ≡ 1)
  stopping_goes_on a h = elim (Bool-cases a.server.cancelled) [
    | inr open_ ↦ (_, cancel open_ h, refl)
    | inl cancelled ↦ at_phase a.server.phase refl cancelled
  ]
    where
      at_return :
          (result : Option GoError) (d : Deferred)
          → a.deferred ≡ d
          → a.server.phase ≡ returned result
          → (m : Life) × (st : Lives s (alive a) m) × (life_moves st ≡ 1)
      at_return result in_serve d e = (_, stop_notify e d, refl)
      at_return result notify_stopped d e = (_, stop_telemetry d, refl)
      at_return result telemetry_stopped d e = (_, exit e d, refl)

      at_phase :
          (p : Phase)
          → a.server.phase ≡ p
          → a.server.cancelled ≡ true
          → (m : Life) × (st : Lives s (alive a) m) × (life_moves st ≡ 1)
      at_phase waiting e c = (_, serve (take_done e c) refl, refl)
      at_phase shutting_down e c = (_, serve (shut_down none e) refl, refl)
      at_phase (returned result) e c = at_return result a.deferred refl e

  -- No step of the process is left.
  abbrev pub IsSettled : Life → Type 0
  IsSettled l = (m : Life) (st : Lives s l m) → life_moves st ≡ 0

  settled_ended : (l : Life) → IsStopping l → IsSettled l → HasEnded l
  settled_ended (alive a) h settled =
      let (m, st, own) = stopping_goes_on a h in absurd (one_ne_zero (sym own ∙ settled m st))
  settled_ended (exited n a) h settled = inl (n, a, refl)
  settled_ended (crashed e) h settled = inr (inl (e, refl))
  settled_ended (killed sg a) h settled = inr (inr (sg, a, refl))

life_left_bounded : (a : Alive) → life_left (alive a) ≤ 8
life_left_bounded a = ground (arith, steps_left_bounded a.server, deferred_left_bounded a.deferred)
  where
    deferred_left_bounded : (d : Deferred) → deferred_left d ≤ 2
    deferred_left_bounded in_serve = omega arith
    deferred_left_bounded notify_stopped = omega arith
    deferred_left_bounded telemetry_stopped = omega arith

-- A process that serves, runs, and has received SIGINT, SIGTERM or SIGHUP takes at most eight more
-- steps, however those of `Serve`, of the listener, of the deferred calls and of the cluster's
-- goroutine are ordered and whatever signals arrive between them; and once it has no step left, it
-- has exited, has crashed or was killed.
pub main-HasEnded :
    {Request Reading : Type 0} (o : Outside Request) (library : Library)
    (arguments : RootCommand → Arguments) (d : o.prometheus.Registry) (s : Running o Reading)
    (a : Alive) (m : Life)
    → main o Reading library arguments d ≡ serving s
    → IsTold a.received
    → (run : LivesOn s (alive a) m) → (moves_on s run ≤ 8) × (IsSettled s m → HasEnded m)
main-HasEnded o library arguments d s a m h told run =
    let (opts, runs) = main-runs o library arguments d s h in
    let i = run-IsStarted o background opts d s runs in
    let stopping : done s.context a.received ≡ true =
      rw i.context (done_of_told (o.init_open_telemetry background) a.received told) in
    (
      omega (arith, LivesOn-life_left s run, life_left_bounded a),
      settled_ended s m (LivesOn-IsStopping s run stopping),
    )
