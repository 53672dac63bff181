-- ===== src/Control/Mission.antt =====
-- `runMission` from its start to its end: the shared memory, the wait for a client, the two threads and
-- the clearing at the exit.
pub mod Parts
use x_pilot.Base.{
  ℕ, Bool, true, false, not, ◌&&◌, ◌||◌, Option, none, some, List, [], ◌∷◌, String, if◌then◌else◌,
  Outcome, done, ◌>>=◌,
}
use x_pilot.Platform.{JsonLib, DoubleLib}
use x_pilot.Signals.{Signal, deliver}
use x_pilot.Raii.{ShmEnv, open_}
use x_pilot.Ipc.{ListenEnv, bind_and_listen, accept}
use x_pilot.Control.{FlightController, Point, flight, Robot, on_robot, has_client}
use x_pilot.Control.Handler.{MainEvent, main_step}
use x_pilot.Control.Simulation.{sim_step}

unfoldable pub control_signal_handler : Bool → Bool
control_signal_handler flag = true

-- What `select` and `accept` bring while no client is connected, and signals.
pub data WaitEvent : Type 0 where
  timed_out : WaitEvent
  select_failed : WaitEvent
  incoming : Option ℕ → WaitEvent
  notified : Signal → WaitEvent

-- What the kernel answers to the calls for the shared memory and the server. `size` is
-- sizeof(RobotState).
pub record StartEnv : Type 0 where
  pub size : ℕ
  pub shm : ShmEnv
  pub listen : ListenEnv

abbrev pub at_flight : Point → Bool
at_flight flight = true
at_flight _ = false

module _ (lib : JsonLib) (doubles : DoubleLib) where
  open lib use {Json}
  open doubles use {Double, zero_double}

  -- `memset` to zero, then the configured speed.
  unfoldable pub cleared : Double → Robot lib doubles
  cleared speed = record {
    x = zero_double;
    y = zero_double;
    z = zero_double;
    speed = speed;
    battary = 0;
    is_spraying = false;
    sprayed_amount = zero_double;
    timestamp = 0;
  }

  -- Up to the server that listens; `false` is one of the early returns.
  unfoldable pub prepare :
      FlightController lib doubles
      → String
      → Double
      → StartEnv
      → FlightController lib doubles × Bool
  unfolding cleared
  prepare c shm_path speed env =
      let (owner, mapped) = open_ c.shm_owner shm_path env.size false env.shm in
      let (server, listening) = bind_and_listen c.server "/tmp/x_pilot.ipc" env.listen in
      if mapped
      then (record c { shm_owner = owner; shm = some (cleared speed); server = server }, listening)
      else (record c { shm_owner = owner }, false)

  -- The wait for a client, with `g_should_exit`: the flag behind the loop, or `none` for the early return.
  unfoldable pub wait_client :
      Bool
      → FlightController lib doubles
      → List WaitEvent
      → Option Bool × FlightController lib doubles
  unfolding control_signal_handler
  wait_client flag c [] = (some flag, c)
  wait_client flag c (notified s ∷ es) = wait_client (deliver control_signal_handler flag s) c es
  wait_client flag c (timed_out ∷ es) =
      let rest = wait_client flag c es in if flag then (some flag, c) else rest
  wait_client flag c (select_failed ∷ es) = if flag then (some flag, c) else (none, c)
  wait_client flag c (incoming answer ∷ es) =
      let (server, fd) = accept c.server answer in
      let c' = record c { server = server; client_fd = fd } in
      let rest = wait_client flag c' es in
      if flag then (some flag, c) else if has_client fd then (some flag, c') else rest

  -- What the two threads share: the object, `g_should_exit`, and whether the main thread is in a round of its
  -- loop, since it has found the flag unset.
  pub record Threads : Type 0 where
    pub controller : FlightController lib doubles
    pub flag : Bool
    pub listening : Bool

  module _ (as_double : Json → Option Double) (of_double : Double → Json) where
    -- A step of one of the two threads, with what the clock and the kernel answer it, or a signal: a step of the
    -- simulation, the main thread's test of the flag, the rest of the main thread's round.
    pub data Action : Type 0 where
      simulates : ℕ → Option ℕ → Option ℕ → Action
      looks : Action
      listens : MainEvent lib doubles as_double → Action
      notifies : Signal → Action

    unfoldable pub main_round : Bool → Threads → MainEvent lib doubles as_double → Outcome Threads
    main_round true s e = main_step lib doubles as_double s.controller e >>= λ c.
        done (record s { controller = c; listening = false })
    main_round false s e = done s

    -- The simulation thread tests the flag where its round begins. A thread that has left its loop does
    -- nothing.
    unfoldable pub act : Threads → Double → Action → Outcome Threads
    unfolding main_round control_signal_handler
    act s target (simulates now header payload) =
        let next = sim_step lib doubles of_double s.controller target now header payload in
        if at_flight s.controller.point && s.flag
        then done s
        else done (record s { controller = next })
    act s target looks = done (record s { listening = s.listening || not s.flag })
    act s target (listens e) = main_round s.listening s e
    act s target (notifies g) = done (record s { flag = deliver control_signal_handler s.flag g })

    -- Any interleaving of the two threads and of signals.
    unfoldable pub schedule : Threads → Double → List Action → Outcome Threads
    schedule s target [] = done s
    schedule s target (a ∷ acts) = act s target a >>= λ s'. schedule s' target acts

    -- After both threads: the robot is told to stand still.
    unfoldable pub finish : FlightController lib doubles → FlightController lib doubles
    finish c = record c {
      shm = on_robot lib doubles (λ r. record r { is_spraying = false; speed = zero_double }) c.shm;
    }

    pub record MissionEnv : Type 0 where
      pub start : StartEnv
      pub waits : List WaitEvent
      pub actions : List Action

    abbrev pub threads : Bool → FlightController lib doubles → Threads
    threads flag c = record { controller = c; flag = flag; listening = false }

    unfoldable pub after_wait :
        Option Bool
        → FlightController lib doubles
        → Double
        → List Action
        → Outcome (Bool × FlightController lib doubles)
    unfolding finish
    after_wait none c target acts = done (false, c)
    after_wait (some flag) c target acts =
        schedule (threads flag c) target acts >>= λ s. done (true, finish s.controller)

    -- Whether the mission came to its end, and not to an early return, and the object.
    unfoldable pub run_mission :
        FlightController lib doubles
        → Double
        → Double
        → String
        → MissionEnv
        → Outcome (Bool × FlightController lib doubles)
    unfolding after_wait
    run_mission c target speed shm_path env =
        let (ready, ok) = prepare c shm_path speed env.start in
        let (flag, waited) = wait_client false ready env.waits in
        if ok then after_wait flag waited target env.actions else done (false, ready)
