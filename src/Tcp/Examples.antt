-- ===== src/Tcp/Examples.antt =====
-- Runs of the client, and its theorems at concrete inputs.
use x_pilot.Base.{
  ℕ, ◌+◌, ◌<◌, ◌≤◌, ◌≡◌, refl, ◌⊎◌, true, false, Option, some, none, List, [], ◌∷◌, ◌++◌, length,
  arith, done,
}
use x_pilot.Base.Word.{ntohl}
use x_pilot.Platform.Sample.{sample_json, Value, num}
use x_pilot.Effects.{
  opens, wire, tcp_connect_fail, heartbeat_timeout, emitted, closed, clocked, dialled, opened,
}
use x_pilot.Protocol.{parse_frame, max_body_len}
use x_pilot.Protocol.Scan.{IsOversized}
use x_pilot.Protocol.Frame.{frame}
use x_pilot.Tcp.{
  TcpClient, check_connection_result, reset_heartbeat_timer, ConnectEnv, in_progress, connected,
  disconnected, new_client, set_target, try_connect, check_heartbeat_timeout,
}
use x_pilot.Tcp.Sending.{SendEnv, send}
use x_pilot.Tcp.Receiving.{Chunk, data_chunk, drain, interrupted, would_block, recv}
use x_pilot.Tcp.Calls.{Call, run, step, reconnects, checks_result, resets_timer, checks_timeout}
use x_pilot.Tcp.Invariant.{Inv, run-Inv}
use x_pilot.Tcp.Descriptors.{IsBalanced, run-IsBalanced}
use x_pilot.Tcp.Reports.{report_kept}
use x_pilot.Tcp.Heartbeat.{send_delivers}
use x_pilot.Tcp.Bounds.{waiting_buffer_bound}
use x_pilot.Tcp.Receive.{deaf_for_ever}

abbrev target : TcpClient
unfolding new_client set_target
target = set_target new_client "127.0.0.1" 8888

abbrev dial_at : ℕ → ℕ → ConnectEnv
dial_at now fd = record {
  now = now;
  socket = some fd;
  get_flags = some 2;
  set_flags = λ _. true;
  address_ok = true;
  connect = in_progress;
  fail_time = now;
}

-- A client with a connection on descriptor 7, made at time 100.
abbrev linked : TcpClient
linked = record {
  sock_fd = some 7;
  ip = "127.0.0.1";
  port = 8888;
  state = connected;
  backoff_seconds = 1;
  last_attempt_time = 100;
  heartbeat_interval = 1;
  heartbeat_limit = 5;
  last_send_time = 100;
  last_recv_time = 100;
  recv_buffer = [];
  trace = [];
}

abbrev history : List (Call sample_json)
history =
    reconnects (dial_at 100 7)
    ∷ checks_result (some 0) 100
    ∷ resets_timer 100 100
    ∷ checks_timeout 105 105
    ∷ []

-- The client after the history: connected, silent for five seconds, and disconnected again.
abbrev lost : TcpClient
lost = record {
  sock_fd = none;
  ip = "127.0.0.1";
  port = 8888;
  state = disconnected;
  backoff_seconds = 2;
  last_attempt_time = 105;
  heartbeat_interval = 1;
  heartbeat_limit = 5;
  last_send_time = 100;
  last_recv_time = 100;
  recv_buffer = [];
  trace =
      emitted (tcp_connect_fail "127.0.0.1" 8888 2)
      ∷ clocked 105
      ∷ closed 7
      ∷ emitted (heartbeat_timeout "127.0.0.1" 8888)
      ∷ dialled 7 "127.0.0.1" 8888
      ∷ clocked 100
      ∷ opened 7
      ∷ [];
}

history_runs : run sample_json (set_target new_client "127.0.0.1" 8888) history ≡ done lost
unfolding run step new_client set_target check_heartbeat_timeout reset_heartbeat_timer
    check_connection_result try_connect
history_runs = refl

run-Inv_example : Inv lost
run-Inv_example = run-Inv sample_json "127.0.0.1" 8888 history lost history_runs

run-IsBalanced_example : IsBalanced 7 lost
run-IsBalanced_example = run-IsBalanced 7 sample_json "127.0.0.1" 8888 history lost history_runs

report_kept_example :
    (106 < 105 + 2 → try_connect lost (dial_at 106 9) ≡ lost)
    × (105 + 2 ≤ 106 → opens 9 (try_connect lost (dial_at 106 9)).trace ≡ opens 9 lost.trace + 1)
report_kept_example =
    report_kept "127.0.0.1" 8888 sample_json history lost 2 105 9 (dial_at 106 9) history_runs refl
      refl refl

abbrev took_it : SendEnv
took_it = record { header = some 4; payload = some 1; send_fail_time = 101 }

send_delivers_example :
    ((send sample_json linked (num 7) took_it).1 ≡ true
      → (wire 7 (send sample_json linked (num 7) took_it).0.trace
          ≡ wire 7 linked.trace ++ frame (7 ∷ []))
        × ((send sample_json linked (num 7) took_it).0
            ≡ record linked { trace = (send sample_json linked (num 7) took_it).0.trace }))
    × ((send sample_json linked (num 7) took_it).1 ≡ false
        → (send sample_json linked (num 7) took_it).0.state ≡ disconnected)
send_delivers_example = send_delivers sample_json linked (num 7) took_it 7 refl refl

abbrev first_piece : List Chunk
first_piece = data_chunk (0 ∷ 0 ∷ []) ∷ interrupted ∷ data_chunk (0 ∷ 1 ∷ []) ∷ []

abbrev whole_frame : List Chunk
whole_frame = data_chunk (0 ∷ 0 ∷ 0 ∷ 1 ∷ 7 ∷ []) ∷ []

abbrev half_read : TcpClient
half_read = record linked { recv_buffer = 0 ∷ 0 ∷ 0 ∷ 1 ∷ [] }

whole_read : recv sample_json linked whole_frame would_block 101 ≡ done (linked, some (num 7))
unfolding recv parse_frame ntohl drain
whole_read = refl

first_piece_read : recv sample_json linked first_piece would_block 101 ≡ done (half_read, none)
unfolding recv parse_frame ntohl drain
first_piece_read = refl

waiting_buffer_bound_example :
    IsOversized half_read.recv_buffer ⊎ (length half_read.recv_buffer < 4 + max_body_len)
waiting_buffer_bound_example =
    waiting_buffer_bound sample_json linked half_read first_piece 101 7 refl first_piece_read

abbrev deafened : TcpClient
deafened = record target { recv_buffer = 1 ∷ 0 ∷ 0 ∷ 0 ∷ [] }

abbrev deaf_history : List (Call sample_json)
deaf_history = reconnects (dial_at 100 7) ∷ checks_result (some 0) 100 ∷ resets_timer 100 100 ∷ []

-- Connected anew, with the bytes of the old connection still in front.
abbrev deaf_linked : TcpClient
deaf_linked = record linked {
  last_attempt_time = 100;
  recv_buffer = 1 ∷ 0 ∷ 0 ∷ 0 ∷ [];
  trace = dialled 7 "127.0.0.1" 8888 ∷ clocked 100 ∷ opened 7 ∷ [];
}

abbrev deaf_end : TcpClient
deaf_end = record deaf_linked { recv_buffer = 1 ∷ 0 ∷ 0 ∷ 0 ∷ 0 ∷ 0 ∷ 0 ∷ 1 ∷ 7 ∷ [] }

deaf_runs : run sample_json deafened deaf_history ≡ done deaf_linked
unfolding run step new_client set_target check_heartbeat_timeout reset_heartbeat_timer
    check_connection_result try_connect
deaf_runs = refl

deaf_recv : recv sample_json deaf_linked whole_frame would_block 110 ≡ done (deaf_end, none)
unfolding recv parse_frame ntohl drain
deaf_recv = refl

deaf_for_ever_example : ◌≡◌ {A = Option Value} none none
unfolding ntohl
deaf_for_ever_example =
    deaf_for_ever sample_json deafened deaf_linked deaf_end deaf_history whole_frame would_block 110
      none (record { header = omega arith; too_large = omega arith }) deaf_runs deaf_recv
