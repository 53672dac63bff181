-- ===== src/Control/Plan.antt =====
-- `loadConfig` and `main` of the control process. `none` in a result of the JSON library is the exception
-- that `value` throws; `old` is what the memory of the object held before, since its numbers are not
-- initialised.
use x_pilot.Base.{Bool, Option, none, some, String, Outcome, done, ◌>>=◌}
use x_pilot.Base.Word.{Bytes}
use x_pilot.Platform.{JsonLib, DoubleLib, Parsed, value, parse_error, out_of_range}
use x_pilot.Config.{Config}
use x_pilot.Raii.{reset}
use x_pilot.Ipc.{drop_server}
use x_pilot.Control.{FlightController, new_controller}
use x_pilot.Control.Mission.{MissionEnv, run_mission}

module _ (lib : JsonLib) (doubles : DoubleLib) where
  open lib use {Json}
  open doubles use {Double, zero_double}

  pub record FlightConfig : Type 0 where
    pub takeoff_time : String
    pub altitude : Double
    pub latitude : Double
    pub longitude : Double
    pub shm_path : String
    pub speed : Double

  -- The destructor of the object, whose last member goes first.
  unfoldable pub destroyed : FlightController lib doubles → FlightController lib doubles
  destroyed c = record c { shm_owner = reset c.shm_owner; server = drop_server c.server }

  module _ (parse_stream : Bytes → Parsed Json)
      (text_value : Json → String → String → Option String)
      (double_value : Json → String → Double → Option Double) where
    -- One assignment after the other; an exception ends the chain and leaves the ones before it.
    assign_speed : FlightConfig → Json → FlightConfig
    assign_speed c j = elim (double_value j "巡航速度" zero_double) [
      | none ↦ c
      | some v ↦ record c { speed = v }
    ]

    assign_longitude : FlightConfig → Json → FlightConfig
    unfolding assign_speed
    assign_longitude c j = elim (double_value j "纬度" zero_double) [
      | none ↦ c
      | some v ↦ assign_speed (record c { longitude = v }) j
    ]

    assign_latitude : FlightConfig → Json → FlightConfig
    unfolding assign_longitude
    assign_latitude c j = elim (double_value j "经度" zero_double) [
      | none ↦ c
      | some v ↦ assign_longitude (record c { latitude = v }) j
    ]

    assign_altitude : FlightConfig → Json → FlightConfig
    unfolding assign_latitude
    assign_altitude c j = elim (double_value j "巡航高度" zero_double) [
      | none ↦ c
      | some v ↦ assign_latitude (record c { altitude = v }) j
    ]

    assign_all : FlightConfig → Json → FlightConfig
    unfolding assign_altitude
    assign_all c j = elim (text_value j "起飞时间" "未知时间") [
      | none ↦ c
      | some v ↦ assign_altitude (record c { takeoff_time = v }) j
    ]

    read_plan : FlightConfig → Parsed Json → FlightConfig
    unfolding assign_all
    read_plan c (value j) = assign_all c j
    read_plan c parse_error = c
    read_plan c out_of_range = c

    -- `none` is a file that cannot be opened.
    unfoldable pub load_config : FlightConfig → Option Bytes → FlightConfig
    unfolding read_plan
    load_config old none = old
    load_config old (some text) = read_plan old (parse_stream text)

    -- `main`, with the configuration of the system, or `none` where the loader ends the process. The result is
    -- `none` for that end, or whether the mission came to its end, and what the object has done when `main`
    -- returns 0.
    module _ (as_double : Json → Option Double) (of_double : Double → Json) where
      unfoldable pub run_control :
          Option Config
          → FlightConfig
          → Option Bytes
          → MissionEnv lib doubles as_double of_double
          → Outcome (Option (Bool × FlightController lib doubles))
      unfolding load_config destroyed
      run_control none old file env = done none
      run_control (some cfg) old file env =
          let plan = load_config old file in
          run_mission lib doubles as_double of_double (new_controller lib doubles) plan.altitude
            plan.speed cfg.shm_path env
          >>= λ r. done (some (r.0, destroyed r.1))
