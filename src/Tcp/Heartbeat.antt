-- ===== src/Tcp/Heartbeat.antt =====
-- Heartbeats, the timeout, and what a send puts on the wire.
use x_pilot.Base.{ℕ, ◌+◌, ◌≤◌, ◌<◌, ◌≡◌, ◌≢◌, ◌⊎◌, true, false, some, ◌++◌, length, arith}
use x_pilot.Base.Word.{htonl, length-htonl}
use x_pilot.Platform.{JsonLib}
use x_pilot.Effects.{wire}
use x_pilot.Effects.Wire.{wire_two}
use x_pilot.Protocol.Frame.{frame}
use x_pilot.Tcp.{
  TcpClient, ConnectEnv, at_once, disconnected, connected, try_connect, check_heartbeat_timeout,
  set_non_blocking,
}
use x_pilot.Tcp.Sending.{SendEnv, send, heartbeat, send_heartbeat}

-- While connected, the check disconnects exactly when at least `heartbeat_limit` seconds have passed
-- since the last data, or since the last heartbeat if there was no data yet; otherwise it stays
-- connected.
pub timeout_exact :
    (c : TcpClient) (now t last : ℕ)
    → c.state ≡ connected
    → ((c.last_recv_time ≢ 0) × (last ≡ c.last_recv_time))
      ⊎ ((c.last_recv_time ≡ 0) × (last ≡ c.last_send_time))
    → (last + c.heartbeat_limit ≤ now → (check_heartbeat_timeout c now t).state ≡ disconnected)
      × (now < last + c.heartbeat_limit → (check_heartbeat_timeout c now t).state ≡ connected)
unfolding check_heartbeat_timeout
timeout_exact c now t last h k = ground arith

-- The tryConnect that succeeds at once keeps the time of the last data, so that a check on the new
-- connection at a time of at least the limit after the last data of the old one closes it again.
pub stale_timer :
    (c : TcpClient) (env : ConnectEnv) (fd now t : ℕ)
    → c.state ≡ disconnected
    → c.last_attempt_time + c.backoff_seconds ≤ env.now
    → env.socket ≡ some fd
    → set_non_blocking env.get_flags env.set_flags ≡ true
    → env.address_ok ≡ true
    → env.connect ≡ at_once
    → c.last_recv_time ≢ 0
    → c.last_recv_time + c.heartbeat_limit ≤ now
    → ((try_connect c env).state ≡ connected)
      × ((check_heartbeat_timeout (try_connect c env) now t).state ≡ disconnected)
unfolding try_connect check_heartbeat_timeout
stale_timer c env fd now t h due s n a k z l = ground arith

module _ (lib : JsonLib) where
  open lib use {Json, dump}

  -- A `send` that returns true has put exactly the frame of the value behind what the connection has
  -- carried so far, and changed nothing else; one that returns false leaves the client disconnected if
  -- it was connected with a socket.
  pub send_delivers :
      (c : TcpClient) (j : Json) (env : SendEnv) (fd : ℕ)
      → c.state ≡ connected
      → c.sock_fd ≡ some fd
      → ((send lib c j env).1 ≡ true
          → (wire fd (send lib c j env).0.trace ≡ wire fd c.trace ++ frame (dump j))
            × ((send lib c j env).0 ≡ record c { trace = (send lib c j env).0.trace }))
        × ((send lib c j env).1 ≡ false → (send lib c j env).0.state ≡ disconnected)
  unfolding send frame
  send_delivers c j env fd h s = ground (
    arith,
    length-htonl (length (dump j)),
    wire_two fd 4 (length (dump j)) (htonl (length (dump j))) (dump j) c.trace,
  )

  -- While connected, `sendHeartbeat` changes nothing within the interval after the last heartbeat; from
  -- then on, if the kernel takes the bytes, it sends one heartbeat frame with the current time and notes
  -- that time.
  pub heartbeat_exact :
      (c : TcpClient) (now fd : ℕ) (env : SendEnv)
      → c.state ≡ connected
      → c.sock_fd ≡ some fd
      → (now < c.last_send_time + c.heartbeat_interval → send_heartbeat lib c now env ≡ c)
        × (c.last_send_time + c.heartbeat_interval ≤ now
            → env.header ≡ some 4
            → env.payload ≡ some (length (dump (heartbeat lib now)))
            → (wire fd (send_heartbeat lib c now env).trace
                ≡ wire fd c.trace ++ frame (dump (heartbeat lib now)))
              × ((send_heartbeat lib c now env).last_send_time ≡ now))
  unfolding send_heartbeat frame
  heartbeat_exact c now fd env h s =
      let body = dump (heartbeat lib now) in
      ground (
        arith,
        length-htonl (length body),
        wire_two fd 4 (length body) (htonl (length body)) body c.trace,
      )
