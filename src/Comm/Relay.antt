-- ===== src/Comm/Relay.antt =====
-- What is passed on between the ground station and the control process.
use x_pilot.Base.{ℕ, ◌≤◌, ◌≡◌, refl, ◌∙◌, true, Option, some, List, ◌++◌, length, All, done, arith}
use x_pilot.Base.Word.{Bytes, htonl, length-htonl}
use x_pilot.Platform.{JsonLib, SocketLib, value}
use x_pilot.Effects.{wire}
use x_pilot.Effects.Wire.{wire_two}
use x_pilot.Protocol.{max_body_len}
use x_pilot.Protocol.Frame.{frame, frames, IsBad, parse_frame-frame}
use x_pilot.Tcp.{TcpClient, connected, on_data_received}
use x_pilot.Tcp.Sending.{send}
use x_pilot.Tcp.Receiving.{Chunk, RecvEnd, would_block, recv}
use x_pilot.Tcp.Receive.{joined, recv-parse_frame}
use x_pilot.Tcp.Heartbeat.{send_delivers}
use x_pilot.Ipc.{client_send_frame, client_recv_frame}
use x_pilot.Comm.{Comm}
use x_pilot.Comm.Events.{Event, tcp_received, tcp_readable, ipc_event}

module _ (lib : JsonLib) (sock : SocketLib) where
  open lib use {Json, dump, parse}

  received_wire :
      (c : Comm) (fd now x : ℕ) (t : TcpClient) (j : Json)
      → c.ipc.sock_fd ≡ some x
      → wire x (tcp_received lib c fd now (some 4) (some (length (dump j))) (t, some j)).ipc.trace
        ≡ wire x c.ipc.trace ++ frame (dump j)
  unfolding tcp_received client_send_frame frame
  received_wire c fd now x t j s = ground (
    arith,
    length-htonl (length (dump j)),
    wire_two x 4 (length (dump j)) (htonl (length (dump j))) (dump j) c.ipc.trace,
  )

  received_fd :
      (c : Comm) (fd now : ℕ) (header payload : Option ℕ) (t : TcpClient) (j : Json)
      → (tcp_received lib c fd now header payload (t, some j)).ipc.sock_fd ≡ c.ipc.sock_fd
  unfolding tcp_received client_send_frame
  received_fd c fd now header payload t j = ground arith

  -- A value that `recv` gives goes on to the control process.
  pub command_passed_on :
      (c : Comm) (e : Event lib sock) (x : ℕ) (t : TcpClient) (j : Json)
      → c.ipc.sock_fd ≡ some x
      → recv lib c.tcp e.chunks e.stop e.recv_time ≡ done (t, some j)
      → e.header ≡ some 4
      → e.payload ≡ some (length (dump j))
      → (c' : Comm) × (tcp_readable lib sock c e ≡ done c')
        × (wire x c'.ipc.trace ≡ wire x c.ipc.trace ++ frame (dump j))
        × (c'.tcp ≡ on_data_received t e.data_time)
        × (c'.ipc.sock_fd ≡ some x)
        × (c'.polls ≡ c.polls)
  unfolding tcp_readable tcp_received
  command_passed_on c e x t j s r h p = (
    tcp_received lib c e.fd e.data_time e.header e.payload (t, some j),
    rw r refl,
    rw (h, p) (received_wire c e.fd e.data_time x t j s),
    refl,
    received_fd c e.fd e.data_time e.header e.payload t j ∙ s,
    refl,
  )

  pub recv_first :
      (t : TcpClient) (chunks : List Chunk) (stop : RecvEnd) (fail_time fd : ℕ) (bad : List Bytes)
      (b more : Bytes) (j : Json)
      → t.sock_fd ≡ some fd
      → stop ≡ would_block
      → t.recv_buffer ++ joined chunks ≡ frames bad ++ (frame b ++ more)
      → All (IsBad lib) bad
      → length b ≤ max_body_len
      → parse b ≡ value j
      → recv lib t chunks stop fail_time ≡ done (record t { recv_buffer = more }, some j)
  recv_first t chunks stop fail_time fd bad b more j s w e h l v =
      rw
        (
          w,
          recv-parse_frame lib t chunks fail_time fd s,
          e,
          parse_frame-frame lib bad b more j h l v,
        )
        refl

  -- An event on the TCP connection passes one command on, and no more: where the buffer and the data of the
  -- event are frames with bad bodies, then the frame of a command, then anything, the bad frames are dropped,
  -- exactly the frame of the command goes out to the control process if the kernel takes the bytes, and all
  -- that stands behind it, whole frames included, stays in the buffer.
  pub one_command_per_event :
      (c : Comm) (e : Event lib sock) (x fd : ℕ) (bad : List Bytes) (b more : Bytes) (j : Json)
      → c.ipc.sock_fd ≡ some x
      → c.tcp.sock_fd ≡ some fd
      → e.stop ≡ would_block
      → c.tcp.recv_buffer ++ joined e.chunks ≡ frames bad ++ (frame b ++ more)
      → All (IsBad lib) bad
      → length b ≤ max_body_len
      → parse b ≡ value j
      → e.header ≡ some 4
      → e.payload ≡ some (length (dump j))
      → (c' : Comm) × (tcp_readable lib sock c e ≡ done c')
        × (wire x c'.ipc.trace ≡ wire x c.ipc.trace ++ frame (dump j))
        × (c'.tcp ≡ on_data_received (record c.tcp { recv_buffer = more }) e.data_time)
        × (c'.ipc.sock_fd ≡ some x)
        × (c'.polls ≡ c.polls)
  one_command_per_event c e x fd bad b more j i s w e1 h l v header payload =
      command_passed_on c e x (record c.tcp { recv_buffer = more }) j i
        (recv_first c.tcp e.chunks e.stop e.recv_time fd bad b more j s w e1 h l v) header payload

  -- Telemetry that the IPC client reads goes on to the ground station: if the TCP client is connected and
  -- the kernel takes the bytes, exactly the frame of the value goes out behind what the TCP connection
  -- has carried so far, and the IPC client is untouched.
  pub telemetry_passed_on :
      (c : Comm) (e : Event lib sock) (y : ℕ) (j : Json)
      → c.tcp.state ≡ connected
      → c.tcp.sock_fd ≡ some y
      → e.readable ≡ true
      → (client_recv_frame lib sock e.reads).0 ≡ some j
      → (send lib c.tcp j e.answer).1 ≡ true
      → (wire y (ipc_event lib sock c e).tcp.trace ≡ wire y c.tcp.trace ++ frame (dump j))
        × ((ipc_event lib sock c e).ipc ≡ c.ipc)
  unfolding ipc_event
  telemetry_passed_on c e y j k s r g d =
      ground (arith, ((send_delivers lib c.tcp j e.answer y k s).0 d).0)
