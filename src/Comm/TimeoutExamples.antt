-- ===== src/Comm/TimeoutExamples.antt =====
-- Silence and hostile input at concrete inputs.
use x_pilot.Base.{
  ℕ, ◌<◌, ◌≡◌, ◌↔◌, refl, inl, true, false, some, none, [], ◌∷◌, List, arith, done, threw,
}
use x_pilot.Base.Word.{ntohl, htonl}
use x_pilot.Platform.Sample.{sample_json, sample_socket}
use x_pilot.Effects.{closes, opened, closed, clocked, emitted, heartbeat_timeout, tcp_connect_fail}
use x_pilot.Protocol.{parse_frame}
use x_pilot.Protocol.Frame.{frame, frames}
use x_pilot.Tcp.{refused, connected, disconnected, check_heartbeat_timeout}
use x_pilot.Tcp.Sending.{send_heartbeat}
use x_pilot.Tcp.Receiving.{recv, drain, would_block, data_chunk}
use x_pilot.Comm.{Comm, reconnect_tcp, reconnect_ipc, beat}
use x_pilot.Comm.Events.{handle_all, handle, tcp_event, tcp_readable, Event}
use x_pilot.Comm.Rounds.{Round, Wait, events, interrupted_wait, before_wait, main_loop}
use x_pilot.Comm.Timeouts.{silence_closes}
use x_pilot.Comm.Robust.{IsKilledIn, main_loop_threw}
use x_pilot.Comm.Hostile.{hostile_frame_ends}

abbrev pub in_touch : Comm
in_touch = record {
  tcp = record {
    sock_fd = some 5;
    ip = "10.0.0.1";
    port = 9000;
    state = connected;
    backoff_seconds = 1;
    last_attempt_time = 0;
    heartbeat_interval = 1;
    heartbeat_limit = 5;
    last_send_time = 100;
    last_recv_time = 100;
    recv_buffer = [];
    trace = opened 5 ∷ [];
  };
  ipc = record { sock_fd = some 4; trace = opened 4 ∷ [] };
  polls = [];
}

-- A round with no new attempt and no heartbeat.
abbrev pub round_at : ℕ → Wait sample_json sample_socket → Round sample_json sample_socket
round_at t w = record {
  connect_env = record {
    now = t;
    socket = none;
    get_flags = none;
    set_flags = λ n. true;
    address_ok = true;
    connect = refused;
    fail_time = t;
  };
  add_ok = true;
  ipc_socket = none;
  ipc_connect_ok = false;
  beat_time = 100;
  beat_answer = record { header = none; payload = none; send_fail_time = t };
  check_time = t;
  fail_time = t;
  wait = w;
}

-- The data of the event, on the TCP connection.
abbrev pub data_event : List ℕ → Event sample_json sample_socket
data_event bytes = record {
  fd = 5;
  readable = true;
  writable = false;
  broken = false;
  so_error = none;
  result_time = 0;
  recv_time = 0;
  data_time = 103;
  broken_time = 0;
  reset_send = 0;
  reset_recv = 0;
  chunks = data_chunk bytes ∷ [];
  stop = would_block;
  header = some 4;
  payload = some 1;
  answer = record { header = some 4; payload = some 1; send_fail_time = 0 };
  reads = [];
}

abbrev out_of_touch : List ℕ → Comm
out_of_touch bytes = record in_touch {
  tcp = record in_touch.tcp {
    sock_fd = none;
    state = disconnected;
    backoff_seconds = 2;
    last_attempt_time = 105;
    recv_buffer = bytes;
    trace =
        emitted (tcp_connect_fail "10.0.0.1" 9000 2)
        ∷ clocked 105
        ∷ closed 5
        ∷ emitted (heartbeat_timeout "10.0.0.1" 9000)
        ∷ opened 5
        ∷ [];
  };
}

silence_runs :
    main_loop sample_json sample_socket in_touch
      (round_at 104 interrupted_wait ∷ round_at 105 interrupted_wait ∷ [])
    ≡ done (out_of_touch [])
unfolding main_loop before_wait reconnect_tcp reconnect_ipc beat send_heartbeat
    check_heartbeat_timeout
silence_runs = refl

silence_closes_example : closes 5 in_touch.tcp.trace < closes 5 (out_of_touch []).tcp.trace
silence_closes_example =
    silence_closes sample_json sample_socket (round_at 104 interrupted_wait ∷ []) []
      (round_at 105 interrupted_wait) in_touch (out_of_touch []) 5 refl refl (omega arith)
      (inl refl, tt) (omega arith) silence_runs

-- The number that no double holds, behind a frame that is no JSON text.
abbrev hostile_event : Event sample_json sample_socket
hostile_event = data_event (0 ∷ 0 ∷ 0 ∷ 0 ∷ 0 ∷ 0 ∷ 0 ∷ 1 ∷ 69 ∷ [])

hostile_frame_ends_example :
    main_loop sample_json sample_socket in_touch (round_at 101 (events (hostile_event ∷ [])) ∷ [])
    ≡ threw
unfolding before_wait reconnect_tcp reconnect_ipc beat send_heartbeat check_heartbeat_timeout frame
    frames htonl
hostile_frame_ends_example =
    hostile_frame_ends sample_json sample_socket in_touch
      (round_at 101 (events (hostile_event ∷ []))) [] hostile_event [] refl
      (record {
        up = refl;
        socket = refl;
        readable = refl;
        stays = refl;
        bad = [] ∷ [];
        text = 69 ∷ [];
        more = [];
        arrives = refl;
        all_bad = ((omega arith, refl), tt);
        small = omega arith;
        too_large = refl;
      })

hostile_runs :
    main_loop sample_json sample_socket in_touch
      (round_at 100 interrupted_wait ∷ round_at 101 (events (hostile_event ∷ [])) ∷ [])
    ≡ threw
unfolding main_loop before_wait reconnect_tcp reconnect_ipc beat send_heartbeat
    check_heartbeat_timeout handle_all handle tcp_event tcp_readable recv drain parse_frame ntohl
hostile_runs = refl

main_loop_threw_example :
    (main_loop sample_json sample_socket in_touch
        (round_at 100 interrupted_wait ∷ round_at 101 (events (hostile_event ∷ [])) ∷ [])
      ≡ threw)
    ↔ IsKilledIn sample_json sample_socket in_touch
        (round_at 100 interrupted_wait ∷ round_at 101 (events (hostile_event ∷ [])) ∷ [])
main_loop_threw_example =
    main_loop_threw sample_json sample_socket
      (round_at 100 interrupted_wait ∷ round_at 101 (events (hostile_event ∷ [])) ∷ []) in_touch
