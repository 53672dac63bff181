-- ===== src/Comm/Examples.antt =====
-- The communication process at concrete inputs.
use x_pilot.Base.{◌≡◌, ◌++◌, refl, true, false, some, none, [], ◌∷◌, arith, done, ◌>>=◌}
use x_pilot.Platform.Sample.{sample_json, sample_socket, num}
use x_pilot.Effects.{wire, opened, closed, dialled, clocked, emitted, tcp_connect_success}
use x_pilot.Base.Word.{htonl}
use x_pilot.Protocol.Frame.{frame, frames}
use x_pilot.Tcp.{
  TcpClient, connected, at_once, on_data_received, check_heartbeat_timeout, try_connect,
  set_non_blocking, new_client, set_target, disconnected, close, drop_client,
}
use x_pilot.Tcp.Sending.{SendEnv, send, send_heartbeat}
use x_pilot.Tcp.Receiving.{would_block, data_chunk}
use x_pilot.Ipc.{
  client_recv_frame, connect_to_server, new_ipc_client, close_client, drop_ipc_client,
}
use x_pilot.Comm.{
  Comm, added_tcp, watching, unwatched, start, reconnect_tcp, reconnect_ipc, beat, clean_up,
}
use x_pilot.Comm.Events.{handle_all, handle, Event, tcp_readable, ipc_event}
use x_pilot.Comm.Rounds.{before_wait, Round, events, main_loop}
use x_pilot.Comm.Reconnection.{ipc_adds, ipc_never_reconnects}
use x_pilot.Comm.Relay.{one_command_per_event}
use x_pilot.Config.{Config}
use x_pilot.Signals.{sigpipe, sigint, rounds_made, deliver_all, deliver}
use x_pilot.Signals.Exit.{by_int, later}
use x_pilot.Comm.Main.{
  returned, destroyed, MainEnv, watched, after_epoll, comm_main, comm_signal_handler,
}
use x_pilot.Comm.Exit.{IsReleased, comm_main-IsReleased, comm_main_stops}

abbrev link : TcpClient
link = record {
  sock_fd = some 5;
  ip = "10.0.0.1";
  port = 9000;
  state = connected;
  backoff_seconds = 1;
  last_attempt_time = 0;
  heartbeat_interval = 1;
  heartbeat_limit = 5;
  last_send_time = 100;
  last_recv_time = 100;
  recv_buffer = [];
  trace = opened 5 ∷ [];
}

abbrev both_up : Comm
both_up = record {
  tcp = link;
  ipc = record { sock_fd = some 4; trace = opened 4 ∷ [] };
  polls = [];
}

abbrev command_event : Event sample_json sample_socket
command_event = record {
  fd = 5;
  readable = true;
  writable = false;
  broken = false;
  so_error = none;
  result_time = 0;
  recv_time = 0;
  data_time = 103;
  broken_time = 0;
  reset_send = 0;
  reset_recv = 0;
  chunks = data_chunk (0 ∷ 0 ∷ []) ∷ data_chunk (0 ∷ 1 ∷ 49 ∷ []) ∷ [];
  stop = would_block;
  header = some 4;
  payload = some 1;
  answer = record { header = some 4; payload = some 1; send_fail_time = 0 };
  reads = [];
}

-- Two commands that arrive together, behind a frame that is no JSON text: the second one stays.
abbrev two_commands : Event sample_json sample_socket
two_commands = record command_event {
  chunks =
      data_chunk (0 ∷ 0 ∷ 0 ∷ 0 ∷ 0 ∷ 0 ∷ [])
      ∷ data_chunk (0 ∷ 1 ∷ 49 ∷ 0 ∷ 0 ∷ 0 ∷ 1 ∷ 50 ∷ [])
      ∷ [];
}

one_command_per_event_example :
    (c' : Comm) × (tcp_readable sample_json sample_socket both_up two_commands ≡ done c')
    × (wire 4 c'.ipc.trace ≡ wire 4 both_up.ipc.trace ++ frame (49 ∷ []))
    × (c'.tcp ≡ on_data_received (record link { recv_buffer = 0 ∷ 0 ∷ 0 ∷ 1 ∷ 50 ∷ [] }) 103)
    × (c'.ipc.sock_fd ≡ some 4)
    × (c'.polls ≡ [])
unfolding frame htonl frames
one_command_per_event_example =
    one_command_per_event sample_json sample_socket both_up two_commands 4 5 ([] ∷ []) (49 ∷ [])
      (0 ∷ 0 ∷ 0 ∷ 1 ∷ 50 ∷ []) (num 49) refl refl refl refl ((omega arith, refl), tt) (omega arith)
      refl refl refl

abbrev telemetry_event : Event sample_json sample_socket
telemetry_event = record command_event { fd = 4; reads = 0 ∷ 0 ∷ 0 ∷ 1 ∷ 50 ∷ [] }

-- The control process has closed its end.
abbrev gone_event : Event sample_json sample_socket
gone_event = record telemetry_event { reads = [] }

abbrev no_answer : SendEnv
no_answer = record { header = none; payload = none; send_fail_time = 100 }

-- A round in which the ground station is called at once, and the control process hangs up.
abbrev round : Round sample_json sample_socket
round = record {
  connect_env = record {
    now = 100;
    socket = some 5;
    get_flags = some 2;
    set_flags = λ n. true;
    address_ok = true;
    connect = at_once;
    fail_time = 100;
  };
  add_ok = true;
  ipc_socket = some 9;
  ipc_connect_ok = true;
  beat_time = 0;
  beat_answer = no_answer;
  check_time = 1;
  fail_time = 1;
  wait = events (gone_event ∷ []);
}

abbrev after_rounds : Comm
after_rounds = record {
  tcp = record link {
    last_send_time = 0;
    last_recv_time = 0;
    trace =
        emitted (tcp_connect_success "10.0.0.1" 9000)
        ∷ dialled 5 "10.0.0.1" 9000
        ∷ clocked 100
        ∷ opened 5
        ∷ [];
  };
  ipc = record { sock_fd = some 4; trace = closed 4 ∷ closed 4 ∷ opened 4 ∷ [] };
  polls = added_tcp (some 5) ∷ [];
}

rounds_run :
    main_loop sample_json sample_socket (start "10.0.0.1" 9000 (some 4) true) (round ∷ round ∷ [])
    ≡ done after_rounds
unfolding main_loop start before_wait handle_all handle ipc_event client_recv_frame reconnect_tcp
    reconnect_ipc beat try_connect set_non_blocking new_client set_target connect_to_server
    new_ipc_client send_heartbeat send check_heartbeat_timeout
rounds_run = refl

ipc_never_reconnects_example :
    (after_rounds.ipc.sock_fd ≡ some 4) × (ipc_adds after_rounds.polls ≡ 0)
unfolding start connect_to_server
ipc_never_reconnects_example =
    ipc_never_reconnects sample_json sample_socket (round ∷ round ∷ [])
      (start "10.0.0.1" 9000 (some 4) true) after_rounds 4 rounds_run refl

abbrev station : Config
station = record {
  server_ip = "10.0.0.1";
  server_port = 9000;
  comm_process_path = "./comm";
  control_process_path = "./control";
  view_process_path = "./view";
  log_level = "INFO";
  shm_path = "/x_pilot_shm";
  heartbeat_interval = 1;
  heartbeat_timeout = 5;
}

-- Two rounds, then SIGINT.
abbrev whole_run : MainEnv sample_json sample_socket
whole_run = record {
  socket = some 4;
  connect_ok = true;
  epoll = some 3;
  arrivals =
      ([], round) ∷ (sigpipe ∷ [], round) ∷ (sigpipe ∷ sigint ∷ [], round) ∷ ([], round) ∷ [];
}

abbrev after_main : Comm
after_main = record {
  tcp = record after_rounds.tcp {
    sock_fd = none;
    state = disconnected;
    trace = closed 5 ∷ after_rounds.tcp.trace;
  };
  ipc = record { sock_fd = none; trace = closed 4 ∷ after_rounds.ipc.trace };
  polls = unwatched 3 ∷ added_tcp (some 5) ∷ watching 3 ∷ [];
}

whole_runs :
    comm_main sample_json sample_socket (some station) whole_run ≡ done (returned 0 after_main)
unfolding comm_main after_epoll comm_signal_handler rounds_made deliver_all deliver destroyed
    clean_up drop_client close drop_ipc_client close_client main_loop start before_wait handle_all
    handle ipc_event client_recv_frame reconnect_tcp reconnect_ipc beat try_connect set_non_blocking
    new_client set_target connect_to_server new_ipc_client send_heartbeat send
    check_heartbeat_timeout
whole_runs = refl

comm_main-IsReleased_example : IsReleased 5 (returned 0 after_main)
comm_main-IsReleased_example =
    comm_main-IsReleased 5 sample_json sample_socket (some station) whole_run
      (returned 0 after_main) whole_runs

comm_main_stops_example : comm_main sample_json sample_socket (some station) whole_run ≡ (
    main_loop sample_json sample_socket
      (watched 3 (start "10.0.0.1" 9000 (some 4) true))
      (round ∷ round ∷ [])
    >>= λ d. done (returned 0 (destroyed (clean_up sample_json 3 d))))
comm_main_stops_example =
    comm_main_stops sample_json sample_socket station whole_run
      (([], round) ∷ (sigpipe ∷ [], round) ∷ []) (([], round) ∷ []) (sigpipe ∷ sigint ∷ []) round 3
      refl refl (tt, ((refl, tt), tt)) (later sigpipe (by_int []))
