-- ===== src/Comm/Events.antt =====
-- src/comm_main.cpp: what the loop does with an event of epoll, block D.
use x_pilot.Base.{
  ℕ, Bool, false, Option, none, some, List, [], ◌∷◌, ◌==◌, if◌then◌else◌, Outcome, done, ◌>>=◌,
}
use x_pilot.Platform.{JsonLib, SocketLib}
use x_pilot.Effects.{closed}
use x_pilot.Ipc.{UnixSocketClient, client_send_frame, client_recv_frame}
use x_pilot.Tcp.{
  TcpClient, is_connected, is_connecting, is_disconnected, check_connection_result, on_disconnected,
  on_data_received, reset_heartbeat_timer,
}
use x_pilot.Tcp.Sending.{SendEnv, send}
use x_pilot.Tcp.Receiving.{Chunk, RecvEnd, recv}
use x_pilot.Comm.{Comm, in_only, removed}

module _ (lib : JsonLib) where
  open lib use {Json}

  -- Case 1.1. The writable socket of a client that connects.
  unfoldable pub tcp_writable : Comm → ℕ → Option ℕ → ℕ → ℕ → ℕ → Comm
  tcp_writable c fd so_error fail_time t t' =
      let checked = check_connection_result c.tcp so_error fail_time in
      if is_connecting c.tcp.state
      then (if is_connected checked.state
          then record c { tcp = reset_heartbeat_timer checked t t'; polls = in_only fd ∷ c.polls }
          else record c { tcp = checked })
      else c

  forward : UnixSocketClient → Json → Option ℕ → Option ℕ → UnixSocketClient
  forward i j header payload = elim i.sock_fd [
    | none ↦ i
    | some fd ↦ (client_send_frame lib i j header payload).0
  ]

  -- What the TCP client received goes on to the control process.
  unfoldable pub tcp_received : Comm → ℕ → ℕ → Option ℕ → Option ℕ → TcpClient × Option Json → Comm
  unfolding forward
  tcp_received c fd now header payload (t, none) =
      if is_disconnected t.state
      then record c { tcp = t; polls = removed fd ∷ c.polls }
      else record c { tcp = t }
  tcp_received c fd now header payload (t, some j) = record c {
    tcp = on_data_received t now;
    ipc = forward c.ipc j header payload;
  }

  -- Case 1.3.
  unfoldable pub tcp_broken : Comm → ℕ → ℕ → Comm
  tcp_broken c fd fail_time = record c {
    tcp = on_disconnected c.tcp fail_time;
    polls = removed fd ∷ c.polls;
  }

  module _ (sock : SocketLib) where
    open sock use {Conn}

    -- One event of `epoll_wait`, with what the calls that answer it bring.
    pub record Event : Type 0 where
      pub fd : ℕ
      pub readable : Bool
      pub writable : Bool
      pub broken : Bool
      pub so_error : Option ℕ
      pub result_time : ℕ
      pub recv_time : ℕ
      pub data_time : ℕ
      pub broken_time : ℕ
      pub reset_send : ℕ
      pub reset_recv : ℕ
      pub chunks : List Chunk
      pub stop : RecvEnd
      pub header : Option ℕ
      pub payload : Option ℕ
      pub answer : SendEnv
      pub reads : Conn

    -- Case 1.2.
    unfoldable pub tcp_readable : Comm → Event → Outcome Comm
    unfolding tcp_received
    tcp_readable c e = recv lib c.tcp e.chunks e.stop e.recv_time >>= λ r.
        done (tcp_received c e.fd e.data_time e.header e.payload r)

    -- Case 1, in its three parts.
    unfoldable pub tcp_event : Comm → Event → Outcome Comm
    unfolding tcp_writable tcp_readable tcp_broken
    tcp_event c e =
        let one =
          if e.writable
          then tcp_writable c e.fd e.so_error e.result_time e.reset_send e.reset_recv
          else c in
        (if e.readable then tcp_readable one e else done one) >>= λ c'.
        done (if e.broken then tcp_broken c' e.fd e.broken_time else c')

    -- Case 2.2: `close(fd)`, which leaves m_sock_fd as it is.
    abbrev pub raw_close : Comm → ℕ → Comm
    raw_close c fd = record c { ipc = record c.ipc { trace = closed fd ∷ c.ipc.trace } }

    ipc_received : Comm → Event → Option Json → Comm
    unfolding tcp_broken
    ipc_received c e none = raw_close c e.fd
    ipc_received c e (some j) =
        if is_connected c.tcp.state then record c { tcp = (send lib c.tcp j e.answer).0 } else c

    unfoldable pub ipc_event : Comm → Event → Comm
    unfolding ipc_received
    ipc_event c e =
        if e.readable
        then ipc_received c e (client_recv_frame lib sock e.reads).0
        else if e.broken
        then raw_close c e.fd
        else c

    abbrev pub is_fd : Option ℕ → ℕ → Bool
    is_fd none fd = false
    is_fd (some x) fd = fd == x

    unfoldable pub handle : Comm → Event → Outcome Comm
    unfolding tcp_event ipc_event
    handle c e =
        if is_fd c.tcp.sock_fd e.fd
        then tcp_event c e
        else if is_fd c.ipc.sock_fd e.fd
        then done (ipc_event c e)
        else done c

    unfoldable pub handle_all : Comm → List Event → Outcome Comm
    handle_all c [] = done c
    handle_all c (e ∷ es) = handle c e >>= λ c'. handle_all c' es
