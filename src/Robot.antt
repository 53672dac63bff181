-- ===== src/Robot.antt =====
-- include/types.h: the robot's state, as it lies in the shared memory, and the commands. `battary` is an
-- `int32_t` that the program sets to 0 or 100 and lowers while it is positive, so a natural number
-- serves.
use x_pilot.Base.{ℕ, Bool, false}
use x_pilot.Platform.{DoubleLib}

module _ (doubles : DoubleLib) where
  open doubles use {Double, zero_double}

  pub record RobotState : Type 0 where
    pub x : Double
    pub y : Double
    pub z : Double
    pub speed : Double
    pub battary : ℕ
    pub is_spraying : Bool
    pub sprayed_amount : Double
    pub timestamp : ℕ

  -- The constructor.
  abbrev pub new_robot : RobotState
  new_robot = record {
    x = zero_double;
    y = zero_double;
    z = zero_double;
    speed = zero_double;
    battary = 100;
    is_spraying = false;
    sprayed_amount = zero_double;
    timestamp = 0;
  }

pub data CommandType : Type 0 where
  unknown set_speed take_off land start_spray stop_spray emergency_stop : CommandType

-- `Command`, which no process uses yet.
module _ (doubles : DoubleLib) where
  open doubles use {Double, zero_double}

  pub record Command : Type 0 where
    pub cmd_type : CommandType
    pub param : Double

  unfoldable pub new_command : Command
  new_command = record { cmd_type = unknown; param = zero_double }
