-- ===== src/Journey/Examples.antt =====
-- A command to spray, from the ground station to the robot.
use x_pilot.Base.{
  ℕ, ◌≡◌, ◌<◌, refl, ap, zero, suc, true, false, Option, some, none, List, [], ◌∷◌, ◌++◌, length,
  take, drop, done, arith,
}
use x_pilot.Base.Word.{Bytes, htonl, ntohl}
use x_pilot.Platform.Sample.{
  sample_json, sample_socket, sample_double, Value, num, word, obj, end, field,
}
use x_pilot.Effects.{sent, opened, wire}
use x_pilot.Protocol.{parse_frame}
use x_pilot.Protocol.Frame.{frame, frames}
use x_pilot.Protocol.Scan.{no_header}
use x_pilot.Tcp.{TcpClient, connected, on_data_received}
use x_pilot.Tcp.Receiving.{Chunk, would_block, data_chunk, interrupted, recv, drain}
use x_pilot.Ipc.{server_recv_frame, client_send_frame}
use x_pilot.Ipc.Delivery.{IsWaitall, IsSendable, ServerReads}
use x_pilot.Comm.{Comm}
use x_pilot.Comm.Events.{Event, tcp_readable, tcp_received, handle_all}
use x_pilot.Raii.{new_shm}
use x_pilot.Control.{FlightController, Robot, cruising, flight}
use x_pilot.Control.Handler.{frame_in, main_step}
use x_pilot.Control.Commands.{answer, start_spray, spray}
use x_pilot.Journey.{command_carried_out}
use x_pilot.Journey.Commands.{IsTcpData, Arrives, nothing, waits, gets, arrived, commands_in_order}

pub short_take : (n : ℕ) (xs : Bytes) → length xs < n → take n xs ≡ xs
short_take zero xs h = absurd (omega arith)
short_take (suc n) [] h = refl
short_take (suc n) (x ∷ xs) h = ap (◌∷◌ x) (short_take n xs (omega arith))

abbrev pub stream : IsWaitall sample_socket
stream = record {
  pending = λ c. c;
  reads = λ c n h. (drop n c, refl, refl);
  ends = λ c n h. (drop n c, ap (λ t. (some t, drop n c)) (short_take n c h));
}

abbrev command : Value
command = obj (field "cmd" (word "START_SPRAY") end)

command-IsSendable : IsSendable sample_json command
command-IsSendable = ground arith

-- The first half of the header is in the buffer already.
abbrev pub ground_link : TcpClient
ground_link = record {
  sock_fd = some 5;
  ip = "10.0.0.1";
  port = 9000;
  state = connected;
  backoff_seconds = 1;
  last_attempt_time = 0;
  heartbeat_interval = 1;
  heartbeat_limit = 5;
  last_send_time = 100;
  last_recv_time = 100;
  recv_buffer = 0 ∷ 0 ∷ [];
  trace = opened 5 ∷ [];
}

abbrev before : Comm
before = record {
  tcp = ground_link;
  ipc = record { sock_fd = some 4; trace = opened 4 ∷ [] };
  polls = [];
}

abbrev arrival : Event sample_json sample_socket
arrival = record {
  fd = 5;
  readable = true;
  writable = false;
  broken = false;
  so_error = none;
  result_time = 0;
  recv_time = 0;
  data_time = 103;
  broken_time = 0;
  reset_send = 0;
  reset_recv = 0;
  chunks = data_chunk (0 ∷ []) ∷ interrupted ∷ data_chunk (2 ∷ 65 ∷ 66 ∷ []) ∷ [];
  stop = would_block;
  header = some 4;
  payload = some 2;
  answer = record { header = none; payload = none; send_fail_time = 0 };
  reads = [];
}

abbrev after : Comm
after = record {
  tcp = record ground_link { recv_buffer = []; last_recv_time = 103 };
  ipc = record {
    sock_fd = some 4;
    trace = sent 4 (65 ∷ 66 ∷ []) ∷ sent 4 (0 ∷ 0 ∷ 0 ∷ 2 ∷ []) ∷ opened 4 ∷ [];
  };
  polls = [];
}

arrival_runs : tcp_readable sample_json sample_socket before arrival ≡ done after
unfolding tcp_readable tcp_received recv parse_frame drain ntohl htonl client_send_frame
    on_data_received
arrival_runs = refl

abbrev speed_of : Value → Option ℕ
speed_of (num n) = some n
speed_of _ = none

abbrev state : Robot sample_json sample_double
state = record {
  x = 0;
  y = 0;
  z = 100;
  speed = 15;
  battary = 0;
  is_spraying = false;
  sprayed_amount = 0;
  timestamp = 7;
}

abbrev pub pilot : FlightController sample_json sample_double
pilot = record {
  current_altitude = 100;
  current_state = cruising;
  server = record { server_fd = some 3; path = "/tmp/x_pilot.ipc"; trace = [] };
  client_fd = some 6;
  shm_owner = new_shm;
  shm = some state;
  loop_counter = 0;
  point = flight;
  trace = [];
}

command_carried_out_example :
    ((left : Bytes) × (server_recv_frame sample_json sample_socket (0 ∷ 0 ∷ 0 ∷ 2 ∷ 65 ∷ 66 ∷ [])
        ≡ done (some command, left))
      × (left ≡ []))
    × (main_step sample_json sample_double speed_of pilot (frame_in command)
        ≡ answer sample_json sample_double speed_of pilot state start_spray)
unfolding frame htonl
command_carried_out_example =
    command_carried_out sample_json sample_socket stream sample_double speed_of before after arrival
      4 5 command [] (0 ∷ 0 ∷ 0 ∷ 2 ∷ 65 ∷ 66 ∷ []) pilot state start_spray refl refl
      command-IsSendable refl refl refl refl arrival_runs refl refl refl (spray refl refl)

-- The command twice: one event with a byte of the header, one with the rest and the second frame, and one with
-- nothing more, which finds that frame in the buffer.
abbrev one_byte : Event sample_json sample_socket
one_byte = record arrival { chunks = data_chunk (0 ∷ []) ∷ [] }

abbrev both_frames : Event sample_json sample_socket
both_frames = record arrival {
  chunks = data_chunk (2 ∷ 65 ∷ 66 ∷ 0 ∷ 0 ∷ []) ∷ data_chunk (0 ∷ 2 ∷ 65 ∷ 66 ∷ []) ∷ [];
}

abbrev no_more : Event sample_json sample_socket
no_more = record arrival { chunks = [] }

is_data :
    (chunks : List Chunk)
    → IsTcpData sample_json sample_socket 5 (record arrival { chunks = chunks })
is_data chunks = record {
  on_tcp = refl;
  readable = refl;
  not_writable = refl;
  not_broken = refl;
  drained = refl;
}

two_commands :
    Arrives sample_json sample_socket 5
      (0 ∷ 0 ∷ [])
      (one_byte ∷ both_frames ∷ no_more ∷ [])
      (command ∷ command ∷ [])
      []
unfolding frame htonl
two_commands = waits (0 ∷ 0 ∷ []) one_byte (is_data one_byte.chunks) (no_header (omega arith)) (
    gets (0 ∷ 0 ∷ 0 ∷ []) (0 ∷ 0 ∷ 0 ∷ 2 ∷ 65 ∷ 66 ∷ []) both_frames command
      (is_data both_frames.chunks) command-IsSendable refl refl refl
      (gets (0 ∷ 0 ∷ 0 ∷ 2 ∷ 65 ∷ 66 ∷ []) [] no_more command (is_data []) command-IsSendable refl
        refl refl (nothing [])))

abbrev both_bytes : Bytes
both_bytes = 0 ∷ 0 ∷ 0 ∷ 2 ∷ 65 ∷ 66 ∷ 0 ∷ 0 ∷ 0 ∷ 2 ∷ 65 ∷ 66 ∷ []

commands_in_order_example :
    ((c' : Comm) × (handle_all sample_json sample_socket before
          (one_byte ∷ both_frames ∷ no_more ∷ [])
        ≡ done c')
      × (wire 4 c'.ipc.trace ≡ wire 4 before.ipc.trace ++ both_bytes)
      × (0 ∷ 0 ∷ arrived sample_json sample_socket (one_byte ∷ both_frames ∷ no_more ∷ [])
          ≡ both_bytes ++ c'.tcp.recv_buffer))
    × ((d : Bytes) × ServerReads sample_json sample_socket stream both_bytes
          (command ∷ command ∷ [])
          d
        × (d ≡ []))
unfolding frame htonl frames
commands_in_order_example =
    commands_in_order sample_json sample_socket stream 4 5 (one_byte ∷ both_frames ∷ no_more ∷ [])
      (command ∷ command ∷ []) before [] both_bytes refl refl refl two_commands refl
