-- ===== src/Tcp/Sending.antt =====
-- src/tcp_client.cpp: the methods of TcpClient that send, `send` and `sendHeartbeat`.
use x_pilot.Base.{
  ℕ, ◌+◌, Bool, true, false, ◌&&◌, Option, none, some, ltb, if◌then◌else◌, is_some, length,
}
use x_pilot.Base.Word.{htonl}
use x_pilot.Platform.{JsonLib}
use x_pilot.Effects.{accepted, took_all}
use x_pilot.Protocol.{frame_header_len}
use x_pilot.Tcp.{TcpClient, is_connected, on_disconnected}

-- What two `::send` calls answer: the bytes that the kernel took, or `none` for -1.
pub record SendEnv : Type 0 where
  pub header : Option ℕ
  pub payload : Option ℕ
  pub send_fail_time : ℕ

module _ (lib : JsonLib) where
  open lib use {Json, dump, put, null, of_string, of_int}

  send_on : TcpClient → Json → SendEnv → ℕ → TcpClient × Bool
  unfolding on_disconnected
  send_on c j env fd =
      let body = dump j in
      let len = htonl (length body) in
      let one = record c { trace = accepted fd len env.header c.trace } in
      let two = record one { trace = accepted fd body env.payload one.trace } in
      if took_all env.header frame_header_len
      then if took_all env.payload (length body)
        then (two, true)
        else (on_disconnected two env.send_fail_time, false)
      else (on_disconnected one env.send_fail_time, false)

  unfoldable pub send : TcpClient → Json → SendEnv → TcpClient × Bool
  unfolding send_on
  send c j env =
      if is_connected c.state
      then elim c.sock_fd [ none ↦ (c, false) | some fd ↦ send_on c j env fd ]
      else (c, false)

  unfoldable pub heartbeat : ℕ → Json
  heartbeat now = put (put null "type" (of_string "heartbeat")) "timestamp" (of_int now)

  unfoldable pub send_heartbeat : TcpClient → ℕ → SendEnv → TcpClient
  unfolding send
  send_heartbeat c now env =
      let (c', ok) = send c (heartbeat now) env in
      if is_connected c.state && is_some c.sock_fd
      then if ltb now (c.last_send_time + c.heartbeat_interval)
        then c
        else if ok
        then record c' { last_send_time = now }
        else c'
      else c
