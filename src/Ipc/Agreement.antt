-- ===== src/Ipc/Agreement.antt =====
-- The two ends of the socket implement one protocol.
use x_pilot.Base.{
  Bool, if◌then◌else◌, ltb, ◌==◌, ℕ, ◌≡◌, ◌≢◌, ◌⊎◌, refl, true, false, Option, none, some, List, [],
  ◌∷◌, ◌++◌, length, done, threw, arith,
}
use x_pilot.Base.Word.{Bytes, ntohl, htonl, length-htonl}
use x_pilot.Platform.{JsonLib, SocketLib, parse_error}
use x_pilot.Effects.{Effect, wire}
use x_pilot.Effects.Wire.{wire_two}
use x_pilot.Protocol.{max_body_len}
use x_pilot.Protocol.Frame.{frame}
use x_pilot.Ipc.{
  UnixSocketClient, client_send_frame, c_str, send_frame, server_recv_frame, client_recv_frame,
  server_header, server_body, client_header, client_body, FrameReply,
}

module _ (lib : JsonLib) (sock : SocketLib) where
  open lib use {Json, parse}
  open sock use {Conn, recv_all}

  -- What the client makes of the same reads.
  abbrev pub Alike : FrameReply lib sock → Option Json × Conn → Type 0
  Alike (done r) s = s ≡ r
  Alike threw s = s.0 ≡ none

  body-Alike :
      parse [] ≡ parse_error
      → (len : ℕ) (r : Option Bytes × Conn)
      → Alike (server_body lib sock len r) (client_body lib sock len r)
  unfolding server_body client_body c_str
  body-Alike e len (none, c) = refl
  body-Alike e len (some [], c) = ground arith
  body-Alike e len (some (b ∷ bs), c) = ground arith

  if-Alike :
      (b : Bool) (r r' : FrameReply lib sock) (s s' : Option Json × Conn)
      → Alike r s
      → Alike r' s'
      → Alike (if b then r else r') (if b then s else s')
  if-Alike true r r' s s' h h' = h
  if-Alike false r r' s s' h h' = h'

  header-Alike :
      parse [] ≡ parse_error
      → (r : Option Bytes × Conn) → Alike (server_header lib sock r) (client_header lib sock r)
  unfolding server_header client_header
  header-Alike e (none, c) = refl
  header-Alike e (some head, c) =
      let len = ntohl head in
      if-Alike (length head == 4) _ _ _ _
        (if-Alike (ltb max_body_len len) _ _ _ _ refl (body-Alike e len (recv_all c len))) refl

  -- On the same connection and where parsing nothing is a parse error, the client's `recvFrame` returns
  -- what the server's returns, and false where the server's throws.
  pub client_like_server :
      (c : Conn)
      → parse [] ≡ parse_error
      → Alike (server_recv_frame lib sock c) (client_recv_frame lib sock c)
  unfolding server_recv_frame client_recv_frame
  client_like_server c e = header-Alike e (recv_all c 4)

-- The two `sendFrame` methods put the same on the wire.
pub client_send-eq-send :
    (lib : JsonLib) (c : UnixSocketClient) (fd : ℕ) (j : lib.Json) (header payload : Option ℕ)
    → c.sock_fd ≡ some fd
    → client_send_frame lib c j header payload ≡ (
      record c { trace = (send_frame lib fd j header payload c.trace).0 },
      (send_frame lib fd j header payload c.trace).1,
    )
unfolding client_send_frame send_frame
client_send-eq-send lib c fd j header payload s = ground arith

pub sock_fd-client_send :
    (lib : JsonLib) (c : UnixSocketClient) (j : lib.Json) (header payload : Option ℕ)
    → (client_send_frame lib c j header payload).0.sock_fd ≡ c.sock_fd
unfolding client_send_frame
sock_fd-client_send lib c j header payload = ground arith

-- `sendFrame` on a descriptor: true means that exactly the frame of the value went out behind what was
-- sent before, and false that the kernel did not take the four bytes of the header or not all of the
-- text.
pub send_frame_exact :
    (lib : JsonLib) (fd : ℕ) (j : lib.Json) (header payload : Option ℕ) (t : List Effect)
    → ((send_frame lib fd j header payload t).1 ≡ true
        → wire fd (send_frame lib fd j header payload t).0 ≡ wire fd t ++ frame (lib.dump j))
      × ((send_frame lib fd j header payload t).1 ≡ false
          → (header ≢ some 4) ⊎ (payload ≢ some (length (lib.dump j))))
unfolding send_frame frame
send_frame_exact lib fd j header payload t =
    let body = lib.dump j in
    ground
      (arith, length-htonl (length body), wire_two fd 4 (length body) (htonl (length body)) body t)
