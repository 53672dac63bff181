-- ===== src/Control/Spraying.antt =====
-- What commands can and cannot do over every interleaving of the two threads.
use x_pilot.Base.{ℕ, ◌≡◌, ◌⊎◌, Bool, true, false, Option, List, done, arith}
use x_pilot.Platform.{JsonLib, DoubleLib}
use x_pilot.Control.{
  FlightController, cruising, Point, flight, stamp, move, spray_test, spray_add, has_client,
}
use x_pilot.Control.Handler.{MainEvent, quiet, frame_in, frame_failed, frame_threw, main_step}
use x_pilot.Control.Simulation.{at_point}
use x_pilot.Control.Mission.{Action, Threads, schedule}
use x_pilot.Control.Schedules.{OnRobot, schedule_rule}

module _ (lib : JsonLib) (doubles : DoubleLib) where
  open lib use {Json}
  open doubles use {Double}

  -- The robot is mapped and sprays.
  abbrev pub IsSpraying : FlightController lib doubles → Type 0
  IsSpraying c = OnRobot lib doubles (λ r. r.is_spraying ≡ true) c.shm

  -- No client is connected, and the robot has this speed and this flag.
  abbrev pub IsAlone : Double → Bool → FlightController lib doubles → Type 0
  IsAlone v b c =
      (has_client c.client_fd ≡ false)
      × OnRobot lib doubles (λ r. (r.speed ≡ v) × (r.is_spraying ≡ b)) c.shm

  -- The simulation is in the part of its round that only a cruising robot runs through.
  abbrev pub is_moving : Point → Bool
  is_moving move = true
  is_moving spray_test = true
  is_moving spray_add = true
  is_moving _ = false

  -- The robot has this position and amount, and is not in a round of the cruise; or it cruises.
  abbrev pub HasNotMoved : Double → Double → FlightController lib doubles → Type 0
  HasNotMoved x amount c =
      (c.current_state ≡ cruising)
      ⊎ ((is_moving c.point ≡ false)
          × OnRobot lib doubles (λ r. (r.x ≡ x) × (r.sprayed_amount ≡ amount)) c.shm)

  module _ (as_double : Json → Option Double) (of_double : Double → Json) where
    main-IsSpraying :
        (c c' : FlightController lib doubles) (e : MainEvent lib doubles as_double)
        → IsSpraying c
        → main_step lib doubles as_double c e ≡ done c'
        → IsSpraying c'
    unfolding main_step
    main-IsSpraying c c' quiet v h = ground arith
    main-IsSpraying c c' (frame_in j) v h = ground arith
    main-IsSpraying c c' frame_failed v h = ground arith
    main-IsSpraying c c' frame_threw v h = ground arith

    point-IsSpraying :
        (p : Point) (c : FlightController lib doubles) (target : Double) (now : ℕ) (a b : Option ℕ)
        → IsSpraying c
        → IsSpraying (at_point lib doubles of_double p c target now a b)
    unfolding at_point
    point-IsSpraying flight c target now a b v = ground arith
    point-IsSpraying stamp c target now a b v = ground arith
    point-IsSpraying _ c target now a b v = ground arith

    -- Once the robot sprays it sprays after every schedule of the two threads: no message turns the
    -- spraying off, STOP_SPRAY included.
    pub schedule-IsSpraying :
        (target : Double) (acts : List (Action lib doubles as_double of_double))
        (s s' : Threads lib doubles)
        → IsSpraying s.controller
        → schedule lib doubles as_double of_double s target acts ≡ done s'
        → IsSpraying s'.controller
    schedule-IsSpraying target =
        schedule_rule lib doubles as_double of_double IsSpraying target main-IsSpraying
          λ p c now a b _ v. point-IsSpraying p c target now a b v

    module _ (v : Double) (f : Bool) where
      main-IsAlone :
          (c c' : FlightController lib doubles) (e : MainEvent lib doubles as_double)
          → IsAlone v f c
          → main_step lib doubles as_double c e ≡ done c'
          → IsAlone v f c'
      unfolding main_step
      main-IsAlone c c' quiet h e = ground arith
      main-IsAlone c c' (frame_in j) h e = ground arith
      main-IsAlone c c' frame_failed h e = ground arith
      main-IsAlone c c' frame_threw h e = ground arith

      point-IsAlone :
          (p : Point) (c : FlightController lib doubles) (target : Double) (now : ℕ)
          (a b : Option ℕ)
          → IsAlone v f c
          → IsAlone v f (at_point lib doubles of_double p c target now a b)
      unfolding at_point
      point-IsAlone flight c target now a b h = ground arith
      point-IsAlone stamp c target now a b h = ground arith
      point-IsAlone _ c target now a b h = ground arith

      -- Once the client is gone no message is carried out any more: after every schedule there is still
      -- no client, although the server listens, and the speed and the spraying are what they were.
      pub client_never_returns :
          (target : Double) (acts : List (Action lib doubles as_double of_double))
          (s s' : Threads lib doubles)
          → IsAlone v f s.controller
          → schedule lib doubles as_double of_double s target acts ≡ done s'
          → IsAlone v f s'.controller
      client_never_returns target =
          schedule_rule lib doubles as_double of_double (IsAlone v f) target main-IsAlone
            λ p c now a b _ h. point-IsAlone p c target now a b h

    module _ (x amount : Double) where
      main-HasNotMoved :
          (c c' : FlightController lib doubles) (e : MainEvent lib doubles as_double)
          → HasNotMoved x amount c
          → main_step lib doubles as_double c e ≡ done c'
          → HasNotMoved x amount c'
      unfolding main_step
      main-HasNotMoved c c' quiet h e = ground arith
      main-HasNotMoved c c' (frame_in j) h e = ground arith
      main-HasNotMoved c c' frame_failed h e = ground arith
      main-HasNotMoved c c' frame_threw h e = ground arith

      point-HasNotMoved :
          (p : Point) (c : FlightController lib doubles) (target : Double) (now : ℕ)
          (a b : Option ℕ)
          → c.point ≡ p
          → HasNotMoved x amount c
          → HasNotMoved x amount (at_point lib doubles of_double p c target now a b)
      unfolding at_point
      point-HasNotMoved flight c target now a b e h = ground arith
      point-HasNotMoved stamp c target now a b e h = ground arith
      point-HasNotMoved _ c target now a b e h = ground arith

      -- Only a cruising robot moves along and sprays: whatever the schedule and the messages, either the
      -- cruise has begun, or position and sprayed amount are what they were.
      pub still_until_cruise :
          (target : Double) (acts : List (Action lib doubles as_double of_double))
          (s s' : Threads lib doubles)
          → HasNotMoved x amount s.controller
          → schedule lib doubles as_double of_double s target acts ≡ done s'
          → HasNotMoved x amount s'.controller
      still_until_cruise target =
          schedule_rule lib doubles as_double of_double (HasNotMoved x amount) target
            main-HasNotMoved λ p c now a b e h. point-HasNotMoved p c target now a b e h
