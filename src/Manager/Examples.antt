-- ===== src/Manager/Examples.antt =====
-- The manager at concrete inputs.
use x_pilot.Base.{◌≡◌, inl, refl, some, none, List, [], ◌∷◌, arith}
use x_pilot.Config.{Config}
use x_pilot.Manager.{
  ProcessInfo, Manager, new_manager, Forks, start_all, MonitorEvent, all_alive, died, monitor,
  monitor_step, take_child, WaitRound, late, exited, none_yet, reaped, signalled, sigterm, sigkill,
  forked, slept, shut_down, announced, crashed, run_manager, signal_handler, restart,
}
use x_pilot.Manager.Ledger.{alive, pids, IsLedger, monitor-IsLedger}
use x_pilot.Manager.Others.{here, there, still_alive, other}
use x_pilot.Manager.Policy.{elsewhere, again, for_good, Remains, restart_policy_each}
use x_pilot.Manager.Shutdown.{here as first}
use x_pilot.Manager.Run.{IsKilled, run_manager_ends_all}
use x_pilot.Signals

abbrev paths : Config
paths = record {
  server_ip = "10.0.0.1";
  server_port = 9000;
  comm_process_path = "./comm";
  control_process_path = "./control";
  view_process_path = "./view";
  log_level = "INFO";
  shm_path = "/x_pilot_shm";
  heartbeat_interval = 1;
  heartbeat_timeout = 5;
}

abbrev three : Forks
three = record { control = some 11; comm = some 12; view = some 13 }

abbrev crash : List MonitorEvent
crash = all_alive ∷ died 12 256 1000 (some 14) ∷ died 11 9 1010 none ∷ []

monitor-IsLedger_example : IsLedger (monitor (start_all (new_manager 10) paths three) crash)
monitor-IsLedger_example = monitor-IsLedger 10 paths three crash

crash_children :
    pids (monitor (start_all (new_manager 10) paths three) crash).children ≡ 13 ∷ 14 ∷ []
unfolding monitor monitor_step start_all new_manager
crash_children = refl

abbrev comm : ProcessInfo
comm = record {
  pid = 12;
  name = "comm";
  path = "./comm";
  restart_count = 2;
  last_restart_time = 1000;
}

abbrev only_comm : Manager
only_comm = record { children = comm ∷ []; orders = slept 2 ∷ forked 12 "./comm" ∷ [] }

abbrev control : ProcessInfo
control = record {
  pid = 11;
  name = "control";
  path = "./control";
  restart_count = 0;
  last_restart_time = 0;
}

-- The control process dies once, the communication process twice.
abbrev both_children : Manager
both_children = record { children = control ∷ comm ∷ []; orders = [] }

abbrev deaths : List MonitorEvent
deaths =
    died 11 9 4000 (some 30)
    ∷ died 12 256 5000 (some 20)
    ∷ all_alive
    ∷ died 20 256 5004 (some 21)
    ∷ all_alive
    ∷ []

restart_policy_each_example : Remains comm none (monitor both_children deaths)
unfolding monitor_step take_child restart
restart_policy_each_example =
    restart_policy_each both_children comm deaths none
      (there ((λ e. ground arith), (λ e. cc)) (here tt))
      (elsewhere (other (λ e. ground arith) (λ e. ground arith)) (
        again 256 5000 20 (inl (omega arith)) ((λ e. ground arith), tt)
          (elsewhere still_alive
            (for_good 256 5004 (some 21) (all_alive ∷ []) (omega arith) (omega arith)))))

abbrev ending : List WaitRound
ending = none_yet ∷ exited 11 ∷ late ∷ []

-- Process 12 dies and is not started again, a SIGINT comes, 11 is collected and 13 is not.
abbrev day : List (List Signals.Signal × MonitorEvent)
day =
    ([], all_alive)
    ∷ (Signals.sigpipe ∷ [], died 12 9 1000 none)
    ∷ (Signals.sigint ∷ [], all_alive)
    ∷ []

abbrev ended : Manager
ended = record {
  children = record control { pid = 13; name = "view_process"; path = "./view" } ∷ [];
  orders =
      signalled sigkill 13
      ∷ reaped 11
      ∷ signalled sigterm 13
      ∷ signalled sigterm 11
      ∷ slept 1
      ∷ slept 3
      ∷ crashed "comm_process" 9
      ∷ reaped 12
      ∷ slept 1
      ∷ forked 13 "./view"
      ∷ forked 12 "./comm"
      ∷ slept 2
      ∷ forked 11 "./control"
      ∷ announced 10
      ∷ [];
}

day_runs : run_manager 10 (some paths) three day ending (none ∷ []) ≡ some ended
unfolding run_manager Signals.rounds_made Signals.deliver_all Signals.deliver signal_handler monitor
    monitor_step start_all new_manager restart shut_down take_child
day_runs = refl

run_manager_ends_all_example : IsKilled 13 ended.orders
run_manager_ends_all_example =
    run_manager_ends_all 10 (some paths) three day ending (none ∷ []) ended 13 day_runs (first [])

one_zombie : alive (shut_down only_comm ending (none ∷ [])).orders ≡ 12 ∷ []
unfolding shut_down take_child
one_zombie = refl
