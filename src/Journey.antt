-- ===== src/Journey.antt =====
-- The way of a command through the system: from the bytes of the ground station (src/tcp_client.cpp,
-- src/protocol.cpp) through the communication process (src/comm_main.cpp) and the socket (src/ipc.cpp) to the
-- robot's state (src/control_main.cpp).
pub mod Telemetry
pub mod Commands
mod Examples
mod TelemetryExamples
use x_pilot.Base.{
  ℕ, ◌≡◌, refl, sym, ap, ◌∙◌, true, Option, some, List, [], ◌++◌, append-nil, length, drop,
  drop-append, done, done-injective,
}
use x_pilot.Base.Word.{Bytes}
use x_pilot.Platform.{JsonLib, DoubleLib, SocketLib}
use x_pilot.Effects.{wire}
use x_pilot.Protocol.Frame.{frame, frames}
use x_pilot.Tcp.{TcpClient}
use x_pilot.Tcp.Receiving.{Chunk, would_block, recv}
use x_pilot.Tcp.Receive.{joined}
use x_pilot.Ipc.{server_recv_frame}
use x_pilot.Ipc.Delivery.{IsWaitall, IsSendable, server_receives}
use x_pilot.Comm.{Comm}
use x_pilot.Comm.Events.{Event, tcp_readable}
use x_pilot.Comm.Relay.{recv_first, command_passed_on}
use x_pilot.Control.{FlightController, Robot, has_client}
use x_pilot.Control.Handler.{frame_in, main_step}
use x_pilot.Control.Commands.{Request, Asks, answer, handle_command_exact}

pub same_front : (xs ys zs : Bytes) → xs ++ ys ≡ xs ++ zs → ys ≡ zs
same_front xs ys zs h =
    sym (drop-append (length xs) xs ys refl)
    ∙ ap (drop (length xs)) h
    ∙ drop-append (length xs) xs zs refl

module _ (lib : JsonLib) (sock : SocketLib) (w : IsWaitall sock) where
  open lib use {Json, dump}
  open sock use {Conn}
  open w use {pending}

  -- The frame of a sendable value, however it is cut into pieces, is what `recv` gives.
  frame_received :
      (c : TcpClient) (cs : List Chunk) (t y : ℕ) (j : Json) (tail : Bytes)
      → c.sock_fd ≡ some y
      → IsSendable lib j
      → c.recv_buffer ++ joined cs ≡ frame (dump j) ++ tail
      → recv lib c cs would_block t ≡ done (record c { recv_buffer = tail }, some j)
  unfolding frames
  frame_received c cs t y j tail s k h =
      recv_first lib sock c cs would_block t y [] (dump j) tail j s refl h tt k.small k.parses

  -- If the kernel takes its bytes, the communication process has put the frame on the socket.
  frame_forwarded :
      (c c' : Comm) (e : Event lib sock) (x y : ℕ) (j : Json) (tail new : Bytes)
      → c.tcp.sock_fd ≡ some y
      → c.ipc.sock_fd ≡ some x
      → IsSendable lib j
      → c.tcp.recv_buffer ++ joined e.chunks ≡ frame (dump j) ++ tail
      → e.stop ≡ would_block
      → e.header ≡ some 4
      → e.payload ≡ some (length (dump j))
      → tcp_readable lib sock c e ≡ done c'
      → wire x c'.ipc.trace ≡ wire x c.ipc.trace ++ new
      → new ≡ frame (dump j)
  frame_forwarded c c' e x y j tail new s i k split stop h p run grown =
      let got = frame_received c.tcp e.chunks e.recv_time y j tail s k split in
      let (d, r, out, _, _, _) =
        command_passed_on lib sock c e x (record c.tcp { recv_buffer = tail }) j i (rw stop got) h
          p in
      let same : d ≡ c' = done-injective (sym r ∙ run) in
      same_front (wire x c.ipc.trace) new (frame (dump j))
        (sym grown ∙ sym (ap (λ (z : Comm). wire x z.ipc.trace) same) ∙ out)

  module _ (doubles : DoubleLib) (as_double : Json → Option doubles.Double) where
    -- Both connections of the communication process are up, the pieces that come in complete the frame of a
    -- sendable value in the buffer, and the kernel takes the bytes: then what the event adds to the socket
    -- is read by the control process as that value and nothing more, and a round of a control process with a
    -- client and a mapped robot answers the value as the protocol means it.
    pub command_carried_out :
        (c c' : Comm) (e : Event lib sock) (x y : ℕ) (j : Json) (tail : Bytes) (conn : Conn)
        (d : FlightController lib doubles) (r : Robot lib doubles)
        (q : Request lib doubles as_double)
        → c.tcp.sock_fd ≡ some y
        → c.ipc.sock_fd ≡ some x
        → IsSendable lib j
        → c.tcp.recv_buffer ++ joined e.chunks ≡ frame (dump j) ++ tail
        → e.stop ≡ would_block
        → e.header ≡ some 4
        → e.payload ≡ some (length (dump j))
        → tcp_readable lib sock c e ≡ done c'
        → wire x c'.ipc.trace ≡ wire x c.ipc.trace ++ pending conn
        → has_client d.client_fd ≡ true
        → d.shm ≡ some r
        → Asks lib doubles as_double j q
        → ((left : Conn) × (server_recv_frame lib sock conn ≡ done (some j, left))
            × (pending left ≡ []))
          × (main_step lib doubles as_double d (frame_in j) ≡ answer lib doubles as_double d r q)
    unfolding main_step
    command_carried_out c c' e x y j tail conn d r q s i k split stop h p run grown client m asks =
        (
          server_receives lib sock w conn j [] k (
              frame_forwarded c c' e x y j tail (pending conn) s i k split stop h p run grown
              ∙ sym (append-nil (frame (dump j)))),
          rw client (handle_command_exact lib doubles as_double d r j q m asks),
        )
