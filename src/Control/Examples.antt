-- ===== src/Control/Examples.antt =====
-- The control process at concrete inputs.
use x_pilot.Base.{ℕ, ◌≡◌, arith, refl, true, false, Option, some, none, List, [], ◌∷◌, done, threw}
use x_pilot.Platform.Sample.{sample_json, sample_double, Value, num, word, obj, end, field}
use x_pilot.Signals.{sigterm, deliver}
use x_pilot.Raii.{new_shm}
use x_pilot.Control.{FlightController, climbing, flight, stamp, Robot}
use x_pilot.Control.Handler.{handle_command, main_step, quiet, frame_in}
use x_pilot.Control.Simulation.{sim_step}
use x_pilot.Control.Mission.{
  Action, Threads, looks, notifies, control_signal_handler, simulates, listens, schedule, act,
}
use x_pilot.Control.Commands.{speed, answer, handle_command_exact, set_speed}
use x_pilot.Control.Spraying.{IsSpraying, IsAlone, schedule-IsSpraying, client_never_returns}
use x_pilot.Control.Stopping.{HasStopped, threads_stop}

abbrev pub Drone : Type 0
Drone = FlightController sample_json sample_double

-- A number as a speed, and any double as a number.
abbrev pub as_double : Value → Option ℕ
as_double (num n) = some n
as_double _ = none

abbrev robot : Robot sample_json sample_double
robot = record {
  x = 0;
  y = 0;
  z = 0;
  speed = 15;
  battary = 0;
  is_spraying = true;
  sprayed_amount = 0;
  timestamp = 0;
}

abbrev drone : Drone
drone = record {
  current_altitude = 0;
  current_state = climbing;
  server = record { server_fd = none; path = ""; trace = [] };
  client_fd = some 6;
  shm_owner = new_shm;
  shm = some robot;
  loop_counter = 0;
  point = flight;
  trace = [];
}

abbrev set_speed_20 : Value
set_speed_20 =
    obj (field "cmd" (word "SET_SPEED") (field "params" (obj (field "speed" (num 20) end)) end))

abbrev pub stop_spray : Value
stop_spray = obj (field "cmd" (word "STOP_SPRAY") end)

handle_command_exact_example :
    handle_command sample_json sample_double as_double drone set_speed_20
    ≡ answer sample_json sample_double as_double drone robot (set_speed 20)
handle_command_exact_example =
    handle_command_exact sample_json sample_double as_double drone robot set_speed_20 (set_speed 20)
      refl (speed 20 refl refl refl refl refl)

-- Both threads in their loops.
abbrev shared : Drone → Threads sample_json sample_double
shared d = record { controller = d; flag = false; listening = false }

abbrev stopping : List (Action sample_json sample_double as_double num)
stopping = looks ∷ listens (frame_in stop_spray) ∷ simulates 5 none none ∷ []

abbrev higher_drone : Drone
higher_drone = record drone {
  current_altitude = 100;
  shm = some (record robot { z = 100 });
  point = stamp;
}

stopping_runs :
    schedule sample_json sample_double as_double num
      (shared (record drone { client_fd = some 0 }))
      100
      stopping
    ≡ done (shared (record higher_drone { client_fd = some 0 }))
unfolding schedule act main_step sim_step
stopping_runs = refl

schedule-IsSpraying_example :
    IsSpraying sample_json sample_double (record higher_drone { client_fd = some 0 })
schedule-IsSpraying_example =
    schedule-IsSpraying sample_json sample_double as_double num 100 stopping
      (shared (record drone { client_fd = some 0 }))
      (shared (record higher_drone { client_fd = some 0 })) refl stopping_runs

abbrev alone : Drone
alone = record drone { client_fd = none }

abbrev calling : List (Action sample_json sample_double as_double num)
calling = looks ∷ listens (frame_in set_speed_20) ∷ simulates 5 none none ∷ []

abbrev higher_alone : Drone
higher_alone = record higher_drone { client_fd = none }

calling_runs :
    schedule sample_json sample_double as_double num (shared alone) 100 calling
    ≡ done (shared higher_alone)
unfolding schedule act main_step sim_step
calling_runs = refl

client_never_returns_example : IsAlone sample_json sample_double 15 true higher_alone
client_never_returns_example =
    client_never_returns sample_json sample_double as_double num 15 true 100 calling (shared alone)
      (shared higher_alone) (refl, (refl, refl)) calling_runs

-- SIGTERM finds the simulation in the middle of a round, and the main thread in one.
abbrev working : Threads sample_json sample_double
working = record { controller = higher_alone; flag = false; listening = true }

abbrev last_steps : List (Action sample_json sample_double as_double num)
last_steps =
    simulates 1 none none
    ∷ simulates 2 none none
    ∷ listens quiet
    ∷ simulates 3 none none
    ∷ simulates 4 none none
    ∷ simulates 5 none none
    ∷ []

abbrev stopped : Threads sample_json sample_double
stopped = record {
  controller = record higher_alone {
    shm = some (record robot { z = 100 });
    loop_counter = 1;
    point = flight;
  };
  flag = true;
  listening = false;
}

last_steps_run :
    schedule sample_json sample_double as_double num working 100 (notifies sigterm ∷ last_steps)
    ≡ done stopped
unfolding schedule act main_step sim_step deliver control_signal_handler
last_steps_run = refl

threads_stop_example :
    HasStopped sample_json sample_double as_double num stopped
    × (schedule sample_json sample_double as_double num stopped 100 calling ≡ done stopped)
threads_stop_example =
    threads_stop sample_json sample_double as_double num working stopped 100 sigterm last_steps
      calling (λ e. cc) (omega arith) (omega arith) last_steps_run

-- A message whose cmd is a number.
abbrev odd : Value
odd = obj (field "cmd" (num 7) end)

abbrev odd_actions : List (Action sample_json sample_double as_double num)
odd_actions = simulates 5 none none ∷ looks ∷ listens (frame_in odd) ∷ []

odd_runs : schedule sample_json sample_double as_double num (shared drone) 100 odd_actions ≡ threw
unfolding schedule act main_step sim_step
odd_runs = refl
