-- ===== src/Comm/Hostile.antt =====
-- A number that no double holds, on its way into the communication process.
use x_pilot.Base.{◌≤◌, ◌≡◌, refl, true, some, List, ◌∷◌, ◌++◌, length, All, threw, arith}
use x_pilot.Base.Word.{Bytes}
use x_pilot.Platform.{JsonLib, SocketLib, out_of_range}
use x_pilot.Protocol.{max_body_len}
use x_pilot.Protocol.Frame.{frame, frames, IsBad, parse_frame-hostile}
use x_pilot.Tcp.{TcpClient, connected}
use x_pilot.Tcp.Receiving.{would_block, recv}
use x_pilot.Tcp.Receive.{joined, recv-parse_frame}
use x_pilot.Comm.{Comm}
use x_pilot.Comm.Events.{Event, tcp_writable, tcp_readable, tcp_event, handle, handle_all}
use x_pilot.Comm.Rounds.{Round, events, before_wait, main_loop}

module _ (lib : JsonLib) (sock : SocketLib) where
  open lib use {parse}

  -- What the event adds to the buffer makes it start with frames that are dropped, and then the frame of
  -- a text in which a number is out of range.
  pub record IsHostile (c : TcpClient) (e : Event lib sock) : Type 0 where
    pub up : c.state ≡ connected
    pub socket : c.sock_fd ≡ some e.fd
    pub readable : e.readable ≡ true
    pub stays : e.stop ≡ would_block
    pub bad : List Bytes
    pub text : Bytes
    pub more : Bytes
    pub arrives : c.recv_buffer ++ joined e.chunks ≡ frames bad ++ (frame text ++ more)
    pub all_bad : All (IsBad lib) bad
    pub small : length text ≤ max_body_len
    pub too_large : parse text ≡ out_of_range

  recv_throws :
      (c : TcpClient) (e : Event lib sock)
      → IsHostile c e
      → recv lib c e.chunks e.stop e.recv_time ≡ threw
  recv_throws c e h =
      rw
        (
          h.stays,
          recv-parse_frame lib c e.chunks e.recv_time e.fd h.socket,
          h.arrives,
          parse_frame-hostile lib h.bad h.text h.more h.all_bad h.small h.too_large,
        )
        refl

  event_throws : (c : Comm) (e : Event lib sock) → IsHostile c.tcp e → handle lib sock c e ≡ threw
  unfolding handle tcp_event tcp_writable tcp_readable
  event_throws c e h = ground (arith, recv_throws c.tcp e h)

  -- One hostile number ends the communication process, whatever the rest of the loop would have met: where
  -- the first event of a round brings, to a connected client, frames with bad bodies and then the frame of a
  -- text of at most 1 MiB with a number out of range, the loop throws.
  pub hostile_frame_ends :
      (c : Comm) (r : Round lib sock) (rs : List (Round lib sock)) (e : Event lib sock)
      (es : List (Event lib sock))
      → r.wait ≡ events (e ∷ es)
      → IsHostile (before_wait lib sock c r).tcp e
      → main_loop lib sock c (r ∷ rs) ≡ threw
  unfolding main_loop handle_all
  hostile_frame_ends c r rs e es w h = ground (arith, event_throws (before_wait lib sock c r) e h)
