-- ===== src/Tcp/Descriptors.antt =====
-- Every descriptor that `socket` handed out is closed once, or still held.
use x_pilot.Base.{ℕ, ◌+◌, ◌≡◌, Option, List, done, arith, String}
use x_pilot.Platform.{JsonLib}
use x_pilot.Effects.{opens, closes, holds}
use x_pilot.Tcp.{
  TcpClient, ConnectEnv, new_client, set_target, close, try_connect, check_connection_result,
  on_disconnected, on_data_received, reset_heartbeat_timer, check_heartbeat_timeout,
}
use x_pilot.Tcp.Sending.{SendEnv, send, send_heartbeat}
use x_pilot.Tcp.Receiving.{Chunk, RecvEnd, recv}
use x_pilot.Tcp.Calls.{Call, run, AreKept, run_keeps}

-- The descriptor was handed out as often as it was closed, and once more while it is held.
abbrev pub IsBalanced : ℕ → TcpClient → Type 0
IsBalanced fd c = opens fd c.trace ≡ closes fd c.trace + holds fd c.sock_fd

module _ (fd : ℕ) where
  try_connect-IsBalanced :
      (c : TcpClient) (env : ConnectEnv) → IsBalanced fd c → IsBalanced fd (try_connect c env)
  unfolding try_connect
  try_connect-IsBalanced c env v = ground arith

  check_heartbeat_timeout-IsBalanced :
      (c : TcpClient) (now t : ℕ)
      → IsBalanced fd c
      → IsBalanced fd (check_heartbeat_timeout c now t)
  unfolding check_heartbeat_timeout
  check_heartbeat_timeout-IsBalanced c now t v = ground arith

  module _ (lib : JsonLib) where
    open lib use {Json}

    send-IsBalanced :
        (c : TcpClient) (j : Json) (env : SendEnv)
        → IsBalanced fd c
        → IsBalanced fd (send lib c j env).0
    unfolding send
    send-IsBalanced c j env v = ground arith

    send_heartbeat-IsBalanced :
        (c : TcpClient) (now : ℕ) (env : SendEnv)
        → IsBalanced fd c
        → IsBalanced fd (send_heartbeat lib c now env)
    unfolding send_heartbeat
    send_heartbeat-IsBalanced c now env v = ground arith

    recv-IsBalanced :
        (c c' : TcpClient) (j : Option Json) (cs : List Chunk) (stop : RecvEnd) (t : ℕ)
        → IsBalanced fd c
        → recv lib c cs stop t ≡ done (c', j)
        → IsBalanced fd c'
    unfolding recv
    recv-IsBalanced c c' j cs stop t v h = ground arith

    IsBalanced-AreKept : AreKept lib (IsBalanced fd)
    IsBalanced-AreKept = record {
      by_connect = λ c env d. try_connect-IsBalanced c env;
      by_result = λ c e t v. unfold check_connection_result in ground arith;
      by_send = send-IsBalanced;
      by_heartbeat = send_heartbeat-IsBalanced;
      by_timeout = check_heartbeat_timeout-IsBalanced;
      by_recv = recv-IsBalanced;
      by_data = λ c now v. unfold on_data_received in ground arith;
      by_reset = λ c t t' v. unfold reset_heartbeat_timer in ground arith;
      by_loss = λ c t v. unfold on_disconnected in ground arith;
      by_close = λ c v. unfold close in ground arith;
    }

    -- After every history of calls on a new client, each descriptor was closed as often as `socket`
    -- handed it out, or once less if the client holds it now: none is leaked and none is closed twice.
    pub run-IsBalanced :
        (ip : String) (port : ℕ) (es : List (Call lib)) (c : TcpClient)
        → run lib (set_target new_client ip port) es ≡ done c
        → IsBalanced fd c
    unfolding new_client set_target
    run-IsBalanced ip port es c h =
        run_keeps lib (IsBalanced fd) IsBalanced-AreKept es (set_target new_client ip port) c
          (omega arith) h
