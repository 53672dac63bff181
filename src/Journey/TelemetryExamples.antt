-- ===== src/Journey/TelemetryExamples.antt =====
-- A height on its way from the control process to the ground station.
use x_pilot.Base.{◌≡◌, ◌++◌, refl, true, false, some, none, [], ◌∷◌, arith}
use x_pilot.Base.Word.{htonl}
use x_pilot.Platform.{JsonLib, value}
use x_pilot.Platform.Sample.{
  sample_json, sample_socket, sample_double, Value, num, word, obj, end, field,
}
use x_pilot.Effects.{wire, opened}
use x_pilot.Protocol.Frame.{frame}
use x_pilot.Tcp.Sending.{send}
use x_pilot.Tcp.Receiving.{would_block}
use x_pilot.Ipc.{send_frame}
use x_pilot.Ipc.Delivery.{IsSendable}
use x_pilot.Comm.{Comm}
use x_pilot.Comm.Events.{Event, ipc_event}
use x_pilot.Raii.{new_shm}
use x_pilot.Control.{FlightController, climbing, flight}
use x_pilot.Control.Simulation.{fly, perform_climb, send_telemetry, telemetry}
use x_pilot.Journey.Examples.{stream, ground_link}
use x_pilot.Journey.Telemetry.{raised, height_reported}

abbrev message : Value
message = obj (field "state" (word "CLIMBING") (field "altitude" (num 200) end))

-- A library that reads the one message.
abbrev message_json : JsonLib
message_json = record sample_json { parse = λ b. value message }

abbrev climber : FlightController message_json sample_double
climber = record {
  current_altitude = 100;
  current_state = climbing;
  server = record { server_fd = some 3; path = "/tmp/x_pilot.ipc"; trace = [] };
  client_fd = some 6;
  shm_owner = new_shm;
  shm = none;
  loop_counter = 0;
  point = flight;
  trace = opened 6 ∷ [];
}

told :
    telemetry message_json sample_double num (raised message_json sample_double num climber)
    ≡ message
unfolding telemetry
told = refl

told-IsSendable :
    IsSendable message_json
      (telemetry message_json sample_double num (raised message_json sample_double num climber))
unfolding telemetry
told-IsSendable = record {
  not_empty = omega arith;
  small = omega arith;
  no_zero = ground arith;
  parses = refl;
}

abbrev linked : Comm
linked = record {
  tcp = ground_link;
  ipc = record { sock_fd = some 4; trace = opened 4 ∷ [] };
  polls = [];
}

abbrev height_event : Event message_json sample_socket
height_event = record {
  fd = 4;
  readable = true;
  writable = false;
  broken = false;
  so_error = none;
  result_time = 0;
  recv_time = 0;
  data_time = 0;
  broken_time = 0;
  reset_send = 0;
  reset_recv = 0;
  chunks = [];
  stop = would_block;
  header = none;
  payload = none;
  answer = record { header = some 4; payload = some 2; send_fail_time = 0 };
  reads = 0 ∷ 0 ∷ 0 ∷ 2 ∷ 65 ∷ 66 ∷ [];
}

height_reported_example :
    wire 5 (ipc_event message_json sample_socket linked height_event).tcp.trace
    ≡ wire 5 linked.tcp.trace ++ frame (65 ∷ 66 ∷ [])
unfolding fly perform_climb send_telemetry telemetry send_frame htonl send
height_reported_example =
    height_reported message_json sample_double num sample_socket stream climber 500 6 5 linked
      height_event refl refl refl (omega arith) told-IsSendable refl refl refl refl refl
