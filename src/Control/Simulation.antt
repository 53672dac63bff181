-- ===== src/Control/Simulation.antt =====
-- src/control_main.cpp: what the simulation thread does in a round, point by point.
use x_pilot.Base.{ℕ, ◌+◌, Bool, true, false, Option, none, some, String, ltb, leb, if◌then◌else◌}
use x_pilot.Platform.{JsonLib, DoubleLib}
use x_pilot.Ipc.{send_frame}
use x_pilot.Control.{
  FlightController, FlightState, Point, Robot, climbing, count, cruising, flight, get_timestamp,
  has_client, is_climbing, is_cruising, move, on_robot, spray_add, spray_test, stamp,
}

module _ (lib : JsonLib) (doubles : DoubleLib) where
  open lib use {Json, contains, at, put, null, of_string, as_string}
  open doubles use {Double, zero_double, ten, tenth, add, sub, mul, lt, of_int, truncate, show}

  -- The simulation thread, with the answers of the two `::send` calls of its telemetry.
  module _ (of_double : Double → Json) where
    state_name : FlightState → String
    state_name climbing = "CLIMBING"
    state_name _ = "CRUISING"

    unfoldable pub telemetry : FlightController lib doubles → Json
    unfolding state_name
    telemetry c =
        put (put null "altitude" (of_double c.current_altitude)) "state"
          (of_string (state_name c.current_state))

    unfoldable pub send_telemetry :
        FlightController lib doubles → Option ℕ → Option ℕ → FlightController lib doubles
    send_telemetry c header payload =
        if has_client c.client_fd
        then elim c.client_fd [
          | none ↦ c
          | some fd ↦ record c {
            trace = (send_frame lib fd (telemetry c) header payload c.trace).0;
          }
        ]
        else c

    unfoldable pub perform_climb :
        FlightController lib doubles → Double → Option ℕ → Option ℕ → FlightController lib doubles
    unfolding send_telemetry telemetry
    perform_climb c target header payload =
        let higher = add c.current_altitude ten in
        if lt c.current_altitude target
        then send_telemetry
            (record c {
              current_altitude = higher;
              shm = on_robot lib doubles (λ r. record r { z = higher }) c.shm;
            })
            header payload
        else record c { current_state = cruising }

    -- `performCruise` only logs.
    abbrev pub perform_cruise : FlightController lib doubles → FlightController lib doubles
    perform_cruise c = c

    unfoldable pub fly :
        FlightController lib doubles → Double → Option ℕ → Option ℕ → FlightController lib doubles
    unfolding perform_climb
    fly c target header payload =
        if is_climbing c.current_state
        then perform_climb c target header payload
        else if is_cruising c.current_state
        then perform_cruise c
        else c

    unfoldable pub moved : Robot lib doubles → Robot lib doubles
    moved r = record r { x = add r.x (mul r.speed tenth) }

    unfoldable pub sprayed : Robot lib doubles → Robot lib doubles
    sprayed r = record r { sprayed_amount = add r.sprayed_amount (mul r.speed tenth) }

    -- `battary -= 0.1` on an integer: down to the difference, towards zero.
    unfoldable pub drained : Robot lib doubles → Robot lib doubles
    drained r =
        if ltb 0 r.battary
        then record r { battary = truncate (sub (of_int r.battary) tenth) }
        else r

    unfoldable pub is_spraying_now : Option (Robot lib doubles) → Bool
    is_spraying_now none = false
    is_spraying_now (some r) = r.is_spraying

    abbrev has_shm : Option (Robot lib doubles) → Bool
    has_shm none = false
    has_shm (some r) = true

    -- Without `shm_ptr` the round ends after `flight`.
    unfoldable pub at_point :
        Point
        → FlightController lib doubles
        → Double
        → ℕ
        → Option ℕ
        → Option ℕ
        → FlightController lib doubles
    unfolding get_timestamp fly moved sprayed drained is_spraying_now
    at_point flight c target now header payload =
        let c' = fly c target header payload in
        record c' { point = if has_shm c'.shm then stamp else flight }
    at_point stamp c target now header payload = record c {
      shm = on_robot lib doubles (λ r. record r { timestamp = get_timestamp now }) c.shm;
      point = if is_cruising c.current_state then move else count;
    }
    at_point move c target now header payload = record c {
      shm = on_robot lib doubles moved c.shm;
      point = spray_test;
    }
    at_point spray_test c target now header payload = record c {
      point = if is_spraying_now c.shm then spray_add else count;
    }
    at_point spray_add c target now header payload = record c {
      shm = on_robot lib doubles sprayed c.shm;
      point = count;
    }
    at_point count c target now header payload =
        if leb 10 (c.loop_counter + 1)
        then record c { loop_counter = 0; shm = on_robot lib doubles drained c.shm; point = flight }
        else record c { loop_counter = c.loop_counter + 1; point = flight }

    unfoldable pub sim_step :
        FlightController lib doubles
        → Double
        → ℕ
        → Option ℕ
        → Option ℕ
        → FlightController lib doubles
    unfolding at_point
    sim_step c target now header payload = at_point c.point c target now header payload
