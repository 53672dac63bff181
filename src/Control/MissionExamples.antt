-- ===== src/Control/MissionExamples.antt =====
-- A mission, and `main` of the control process, at concrete inputs.
use x_pilot.Base.{◌≡◌, arith, refl, true, false, some, none, [], ◌∷◌, done}
use x_pilot.Platform.{parse_error}
use x_pilot.Platform.Sample.{sample_json, sample_double, num}
use x_pilot.Effects.{opened, closed, unlinked as removed}
use x_pilot.Config.{Config}
use x_pilot.Ipc.{drop_server, close_server, new_server, bind_and_listen, accept}
use x_pilot.Signals.{sigterm, deliver}
use x_pilot.Raii.{new_shm, open_, reset, mapped, created, got_fd, closed_fd, unmapped, unlinked}
use x_pilot.Control.{climbing, flight, new_controller}
use x_pilot.Control.Handler.{main_step, frame_in, frame_failed}
use x_pilot.Control.Simulation.{sim_step}
use x_pilot.Control.Mission.{
  looks, notifies, control_signal_handler, simulates, listens, schedule, act, MissionEnv,
  run_mission, incoming, timed_out, prepare, wait_client, finish,
}
use x_pilot.Control.Soundness.{IsParked, mission_end}
use x_pilot.Control.Plan.{FlightConfig, load_config, destroyed, run_control}
use x_pilot.Control.Exit.{IsReleased, control_main_releases}
use x_pilot.Control.Examples.{Drone, as_double, stop_spray}

abbrev mission : MissionEnv sample_json sample_double as_double num
mission = record {
  start = record {
    size = 64;
    shm = record { shm_open = some 3; truncate_ok = true; mmap = some 4096 };
    listen = record { socket = some 4; bind_ok = true; listen_ok = true };
  };
  waits = timed_out ∷ incoming (some 6) ∷ [];
  actions =
      looks
      ∷ listens frame_failed
      ∷ simulates 5000000 none none
      ∷ notifies sigterm
      ∷ looks
      ∷ simulates 6000000 none none
      ∷ simulates 7000000 none none
      ∷ simulates 8000000 none none
      ∷ listens (frame_in stop_spray)
      ∷ [];
}

abbrev landed : Drone
landed = record {
  current_altitude = 100;
  current_state = climbing;
  server = record {
    server_fd = some 4;
    path = "/tmp/x_pilot.ipc";
    trace = opened 6 ∷ removed "/tmp/x_pilot.ipc" ∷ opened 4 ∷ [];
  };
  client_fd = none;
  shm_owner = record {
    fd = some 3;
    ptr = some 4096;
    size = 64;
    name = "/x_pilot_shm";
    owner = true;
    trace = mapped 4096 64 ∷ created "/x_pilot_shm" ∷ got_fd 3 ∷ [];
  };
  shm = some (record {
    x = 0;
    y = 0;
    z = 100;
    speed = 0;
    battary = 0;
    is_spraying = false;
    sprayed_amount = 0;
    timestamp = 6;
  });
  loop_counter = 1;
  point = flight;
  trace = closed 6 ∷ [];
}

mission_runs :
    run_mission sample_json sample_double as_double num
      (new_controller sample_json sample_double)
      100
      15
      "/x_pilot_shm"
      mission
    ≡ done (true, landed)
unfolding deliver control_signal_handler open_ reset new_shm run_mission prepare wait_client
    schedule act main_step sim_step finish new_controller bind_and_listen accept new_server
mission_runs = refl

mission_end_example : IsParked sample_json sample_double landed
mission_end_example =
    mission_end sample_json sample_double as_double num 100 15 "/x_pilot_shm" mission landed
      mission_runs

abbrev system : Config
system = record {
  server_ip = "10.0.0.1";
  server_port = 9000;
  comm_process_path = "./comm";
  control_process_path = "./control";
  view_process_path = "./view";
  log_level = "INFO";
  shm_path = "/x_pilot_shm";
  heartbeat_interval = 1;
  heartbeat_timeout = 5;
}

abbrev plan : FlightConfig sample_json sample_double
plan = record {
  takeoff_time = "";
  altitude = 100;
  latitude = 0;
  longitude = 0;
  shm_path = "";
  speed = 15;
}

-- The object of the mission above, destroyed.
abbrev gone : Drone
gone = record landed {
  shm_owner = record {
    fd = none;
    ptr = none;
    size = 0;
    name = "";
    owner = false;
    trace = unlinked "/x_pilot_shm" ∷ closed_fd 3 ∷ unmapped 4096 64 ∷ landed.shm_owner.trace;
  };
  server = record landed.server { server_fd = none; trace = closed 4 ∷ landed.server.trace };
}

main_runs :
    run_control sample_json sample_double
      (λ b. parse_error)
      (λ j k d. none)
      (λ j k d. none)
      as_double
      num
      (some system)
      plan
      none
      mission
    ≡ done (some (true, gone))
unfolding run_control load_config destroyed drop_server close_server deliver control_signal_handler
    open_ reset new_shm run_mission prepare wait_client schedule act main_step sim_step finish
    new_controller bind_and_listen accept new_server
main_runs = refl

control_main_releases_example : IsReleased sample_json sample_double 6 (omega arith) 3 gone
control_main_releases_example =
    control_main_releases sample_json sample_double 6 (omega arith) (λ b. parse_error)
      (λ j k d. none) (λ j k d. none) as_double num 3 system plan none mission true gone main_runs
