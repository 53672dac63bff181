-- ===== src/Control/FlightExamples.antt =====
-- A flight without commands at a concrete input.
use x_pilot.Base.{ℕ, ◌≡◌, arith, refl, true, Option, some, none, List, [], ◌∷◌}
use x_pilot.Platform.Sample.{sample_json, sample_double, num}
use x_pilot.Raii.{new_shm}
use x_pilot.Control.{FlightController, climbing, cruising, flight, Robot, get_timestamp}
use x_pilot.Control.Rounds.{sim_round}
use x_pilot.Control.Simulation.{fly, is_spraying_now, moved, sprayed, drained}
use x_pilot.Control.Climb.{arrived, higher}
use x_pilot.Control.Flown.{Flown}
use x_pilot.Control.Flight.{sim_rounds, climb_and_cruise}

-- Lengths in tenths of a metre; the counter is about to come to ten.
abbrev robot : Robot sample_json sample_double
robot = record {
  x = 0;
  y = 0;
  z = 50;
  speed = 150;
  battary = 100;
  is_spraying = true;
  sprayed_amount = 7;
  timestamp = 0;
}

abbrev drone : FlightController sample_json sample_double
drone = record {
  current_altitude = 50;
  current_state = climbing;
  server = record { server_fd = none; path = ""; trace = [] };
  client_fd = some 6;
  shm_owner = new_shm;
  shm = some robot;
  loop_counter = 8;
  point = flight;
  trace = [];
}

-- One round up, the round that finds the target reached, and one more.
abbrev three_rounds : List (ℕ × Option ℕ × Option ℕ)
three_rounds = (1, some 4, some 9) ∷ (2, none, none) ∷ (3, none, none) ∷ []

abbrev landed : FlightController sample_json sample_double
landed = sim_rounds sample_json sample_double num drone 100 three_rounds

abbrev flown_robot : Robot sample_json sample_double
flown_robot = record robot { x = 30; z = 150; battary = 99; sprayed_amount = 37; timestamp = 0 }

flown_robot_here : landed.shm ≡ some flown_robot
unfolding sim_rounds sim_round fly is_spraying_now moved drained sprayed get_timestamp
flown_robot_here = refl

climb_and_cruise_example :
    (landed.current_state ≡ cruising)
    × (landed.current_altitude ≡ 150)
    × Flown sample_json sample_double num robot 8 3 2 landed
climb_and_cruise_example =
    climb_and_cruise sample_json sample_double num 100 150 1 1 robot drone three_rounds refl refl
      refl (omega arith) (higher 50 refl (arrived 150 refl)) refl
