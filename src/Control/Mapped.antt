-- ===== src/Control/Mapped.antt =====
-- The shared memory stays mapped, whatever the two threads do.
use x_pilot.Base.{ℕ, ◌≡◌, refl, Option, some, none, done, arith}
use x_pilot.Platform.{JsonLib, DoubleLib}
use x_pilot.Control.{FlightController, Robot, Point, flight, stamp}
use x_pilot.Control.Handler.{MainEvent, quiet, frame_in, frame_failed, frame_threw, main_step}
use x_pilot.Control.Simulation.{sim_step, at_point}
use x_pilot.Control.Mission.{Action, Threads, act}
use x_pilot.Control.Schedules.{OnRobot, act_keeps}

module _ (lib : JsonLib) (doubles : DoubleLib) where
  open lib use {Json}
  open doubles use {Double}

  abbrev pub IsMapped : FlightController lib doubles → Type 0
  IsMapped c = OnRobot lib doubles (λ r. Unit {0}) c.shm

  module _ (as_double : Json → Option Double) (of_double : Double → Json) where
    main-IsMapped :
        (c c' : FlightController lib doubles) (e : MainEvent lib doubles as_double)
        → IsMapped c
        → main_step lib doubles as_double c e ≡ done c'
        → IsMapped c'
    unfolding main_step
    main-IsMapped c c' quiet v h = ground arith
    main-IsMapped c c' (frame_in j) v h = ground arith
    main-IsMapped c c' frame_failed v h = ground arith
    main-IsMapped c c' frame_threw v h = ground arith

    point-IsMapped :
        (p : Point) (c : FlightController lib doubles) (target : Double) (now : ℕ) (a b : Option ℕ)
        → IsMapped c
        → IsMapped (at_point lib doubles of_double p c target now a b)
    unfolding at_point
    point-IsMapped flight c target now a b v = ground arith
    point-IsMapped stamp c target now a b v = ground arith
    point-IsMapped _ c target now a b v = ground arith

    sim-IsMapped :
        (c : FlightController lib doubles) (target : Double) (now : ℕ) (a b : Option ℕ)
        → IsMapped c
        → IsMapped (sim_step lib doubles of_double c target now a b)
    unfolding sim_step
    sim-IsMapped c target now a b v = point-IsMapped c.point c target now a b v

    pub mapped_robot :
        (o : Option (Robot lib doubles))
        → OnRobot lib doubles (λ r. Unit {0}) o
        → (r : Robot lib doubles) × (o ≡ some r)
    mapped_robot none v = absurd v
    mapped_robot (some r) v = (r, refl)

    pub act-IsMapped :
        (target : Double) (s d : Threads lib doubles) (a : Action lib doubles as_double of_double)
        → IsMapped s.controller
        → act lib doubles as_double of_double s target a ≡ done d
        → IsMapped d.controller
    act-IsMapped target s d a v first =
        act_keeps lib doubles as_double of_double IsMapped target main-IsMapped
          (λ c now x y. sim-IsMapped c target now x y) s d a v first
