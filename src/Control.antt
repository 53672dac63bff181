-- ===== src/Control.antt =====
-- src/control_main.cpp: the control process. The simulation thread and the main thread share the
-- object; a run is a schedule of their steps, and one step makes at most one write to a field that the
-- other thread uses. `shm` is what `shm_ptr` points to, `none` for a null pointer, and `shm_owner` the member
-- `shm`; a `client_fd` of -1 is `none`. LOG_* lines are left out.
pub mod Handler
pub mod Simulation
pub mod Mission
pub mod Commands
pub mod Schedules
pub mod Soundness
pub mod Mapped
pub mod Robust
pub mod Spraying
pub mod Climb
pub mod Plan
pub mod Release
pub mod Exit
pub mod Stopping
pub mod Rounds
pub mod Flown
pub mod Flight
mod FlightExamples
mod Examples
mod MissionExamples
use x_pilot.Base.{[], ℕ, ◌/◌, ◌^◌, Bool, true, false, Option, none, some, List, ltb}
use x_pilot.Platform.{JsonLib, DoubleLib}
use x_pilot.Effects.{Effect}
use x_pilot.Ipc.{UnixSocketServer, new_server}
use x_pilot.Raii.{ScopedShm, new_shm}
use x_pilot.Robot.{RobotState}

pub data FlightState : Type 0 where
  climbing cruising descending : FlightState

abbrev pub is_climbing : FlightState → Bool
is_climbing climbing = true
is_climbing _ = false

abbrev pub is_cruising : FlightState → Bool
is_cruising cruising = true
is_cruising _ = false

-- `client_fd > 0`
abbrev pub has_client : Option ℕ → Bool
has_client none = false
has_client (some fd) = ltb 0 fd

-- Where the simulation thread stands in its round.
pub data Point : Type 0 where
  flight stamp move spray_test spray_add count : Point

-- `getTimestamp`: the system clock counts nanoseconds, and the cast to milliseconds cuts.
unfoldable pub get_timestamp : ℕ → ℕ
get_timestamp now = now / 10 ^ 6

module _ (lib : JsonLib) (doubles : DoubleLib) where
  open lib use {Json, contains, at, put, null, of_string, as_string}
  open doubles use {Double, zero_double, ten, tenth, add, sub, mul, lt, of_int, truncate, show}

  abbrev pub Robot : Type 0
  Robot = RobotState doubles

  pub record FlightController : Type 0 where
    pub current_altitude : Double
    pub current_state : FlightState
    pub server : UnixSocketServer
    pub client_fd : Option ℕ
    pub shm_owner : ScopedShm
    pub shm : Option Robot
    pub loop_counter : ℕ
    pub point : Point
    pub trace : List Effect

  unfoldable pub new_controller : FlightController
  new_controller = record {
    current_altitude = zero_double;
    current_state = climbing;
    server = new_server;
    client_fd = none;
    shm_owner = new_shm;
    shm = none;
    loop_counter = 0;
    point = flight;
    trace = [];
  }

  -- A write through `shm_ptr`.
  abbrev pub on_robot : (Robot → Robot) → Option Robot → Option Robot
  on_robot f none = none
  on_robot f (some r) = some (f r)
