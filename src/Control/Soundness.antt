-- ===== src/Control/Soundness.antt =====
-- What the viewer can read, over every interleaving of the two threads.
use x_pilot.Base.{ℕ, ◌≡◌, Bool, true, false, Option, List, String, done, arith}
use mathlib.Core.Path.{subst}
use x_pilot.Platform.{JsonLib, DoubleLib}
use x_pilot.Control.{
  FlightController, Point, flight, stamp, move, spray_test, spray_add, count, new_controller,
}
use x_pilot.Control.Handler.{MainEvent, quiet, frame_in, frame_failed, frame_threw, main_step}
use x_pilot.Control.Simulation.{at_point}
use x_pilot.Control.Mission.{
  Action, Threads, threads, schedule, finish, StartEnv, prepare, wait_client, WaitEvent, MissionEnv,
  run_mission,
}
use x_pilot.Control.Mission.Parts.{wait_client_keeps, mission_parts}
use x_pilot.Control.Schedules.{OnRobot, schedule_rule}

module _ (lib : JsonLib) (doubles : DoubleLib) where
  open lib use {Json}
  open doubles use {Double, zero_double}

  -- The shared memory is mapped, the battery reads 0 and the height in it is that of the controller.
  abbrev pub IsSound : FlightController lib doubles → Type 0
  IsSound c = OnRobot lib doubles (λ r. (r.battary ≡ 0) × (r.z ≡ c.current_altitude)) c.shm

  -- The robot in the shared memory stands still, does not spray, has an empty battery, and the height of
  -- the controller.
  abbrev pub IsParked : FlightController lib doubles → Type 0
  IsParked c =
      OnRobot lib doubles
        (λ r.
          (r.speed ≡ zero_double)
          × (r.is_spraying ≡ false)
          × (r.battary ≡ 0)
          × (r.z ≡ c.current_altitude))
        c.shm

  module _ (as_double : Json → Option Double) (of_double : Double → Json) where
    main-IsSound :
        (c c' : FlightController lib doubles) (e : MainEvent lib doubles as_double)
        → IsSound c
        → main_step lib doubles as_double c e ≡ done c'
        → IsSound c'
    unfolding main_step
    main-IsSound c c' quiet v h = ground arith
    main-IsSound c c' (frame_in j) v h = ground arith
    main-IsSound c c' frame_failed v h = ground arith
    main-IsSound c c' frame_threw v h = ground arith

    point-IsSound :
        (p : Point) (c : FlightController lib doubles) (target : Double) (now : ℕ) (a b : Option ℕ)
        → IsSound c
        → IsSound (at_point lib doubles of_double p c target now a b)
    unfolding at_point
    point-IsSound flight c target now a b v = ground arith
    point-IsSound stamp c target now a b v = ground arith
    point-IsSound move c target now a b v = ground arith
    point-IsSound spray_test c target now a b v = ground arith
    point-IsSound spray_add c target now a b v = ground arith
    point-IsSound count c target now a b v = ground arith

    schedule-IsSound :
        (target : Double) (acts : List (Action lib doubles as_double of_double))
        (s s' : Threads lib doubles)
        → IsSound s.controller
        → schedule lib doubles as_double of_double s target acts ≡ done s'
        → IsSound s'.controller
    schedule-IsSound target =
        schedule_rule lib doubles as_double of_double IsSound target main-IsSound
          λ p c now a b _ v. point-IsSound p c target now a b v

    prepared-IsSound :
        (path : String) (speed : Double) (env : StartEnv)
        → (prepare lib doubles (new_controller lib doubles) path speed env).1 ≡ true
        → IsSound (prepare lib doubles (new_controller lib doubles) path speed env).0
    unfolding prepare new_controller
    prepared-IsSound path speed env h = ground arith

    waited-IsSound :
        (es : List WaitEvent) (flag : Bool) (c : FlightController lib doubles)
        → IsSound c
        → IsSound (wait_client lib doubles flag c es).1
    waited-IsSound = wait_client_keeps lib doubles IsSound (λ c a h. h)

    finished :
        (c : FlightController lib doubles)
        → IsSound c
        → IsParked (finish lib doubles as_double of_double c)
    unfolding finish
    finished c v = ground arith

    -- A mission that comes to its end, after any schedule of the two threads, any messages and any
    -- clients, leaves the robot in the shared memory standing still and not spraying, with the height of
    -- the controller, and its battery reads 0.
    pub mission_end :
        (target speed : Double) (path : String) (env : MissionEnv lib doubles as_double of_double)
        (c : FlightController lib doubles)
        → run_mission lib doubles as_double of_double
            (new_controller lib doubles)
            target
            speed
            path
            env
          ≡ done (true, c)
        → IsParked c
    mission_end target speed path env c h =
        let ready = prepare lib doubles (new_controller lib doubles) path speed env.start in
        let (flag, s, ok, w, run, e) =
          mission_parts lib doubles as_double of_double (new_controller lib doubles) target speed
            path env c h in
        subst IsParked e (
          finished s.controller (
            schedule-IsSound target env.actions
              (threads lib doubles as_double of_double flag
                (wait_client lib doubles false ready.0 env.waits).1)
              s (waited-IsSound env.waits false ready.0 (prepared-IsSound path speed env.start ok))
              run))
