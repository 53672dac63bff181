-- ===== src/Tcp/Invariant.antt =====
-- What holds of a TcpClient between two calls.
use x_pilot.Base.{ℕ, ◌≤◌, ◌≡◌, true, Option, none, List, is_some, done, arith, String}
use x_pilot.Platform.{JsonLib}
use x_pilot.Tcp.{
  TcpClient, ConnectEnv, disconnected, connecting, connected, new_client, set_target, close,
  handle_fail, try_connect, check_connection_result, on_disconnected, on_data_received,
  reset_heartbeat_timer, check_heartbeat_timeout,
}
use x_pilot.Tcp.Sending.{SendEnv, send, send_heartbeat}
use x_pilot.Tcp.Receiving.{Chunk, RecvEnd, recv}
use x_pilot.Tcp.Calls.{Call, run, AreKept, run_keeps}

pub record Inv (c : TcpClient) : Type 0 where
  pub backoff_low : 1 ≤ c.backoff_seconds
  pub backoff_high : c.backoff_seconds ≤ 60
  pub idle : c.state ≡ disconnected → c.sock_fd ≡ none
  pub opening : c.state ≡ connecting → is_some c.sock_fd ≡ true
  pub open_socket : c.state ≡ connected → is_some c.sock_fd ≡ true
  pub interval : c.heartbeat_interval ≡ 1
  pub limit : c.heartbeat_limit ≡ 5

pub new_client-Inv : (ip : String) (port : ℕ) → Inv (set_target new_client ip port)
unfolding new_client set_target
new_client-Inv ip port = ground arith

handle_fail-Inv : (c : TcpClient) (t : ℕ) → Inv c → Inv (handle_fail c t)
unfolding handle_fail
handle_fail-Inv c t v = ground arith

try_connect-Inv :
    (c : TcpClient) (env : ConnectEnv) → c.state ≡ disconnected → Inv c → Inv (try_connect c env)
unfolding try_connect
try_connect-Inv c env h v = ground arith

check_connection_result-Inv :
    (c : TcpClient) (e : Option ℕ) (t : ℕ) → Inv c → Inv (check_connection_result c e t)
unfolding check_connection_result
check_connection_result-Inv c e t v = ground arith

on_disconnected-Inv : (c : TcpClient) (t : ℕ) → Inv c → Inv (on_disconnected c t)
unfolding on_disconnected
on_disconnected-Inv c t v = ground arith

check_heartbeat_timeout-Inv :
    (c : TcpClient) (now t : ℕ) → Inv c → Inv (check_heartbeat_timeout c now t)
unfolding check_heartbeat_timeout
check_heartbeat_timeout-Inv c now t v = ground arith

module _ (lib : JsonLib) where
  open lib use {Json}

  send-Inv : (c : TcpClient) (j : Json) (env : SendEnv) → Inv c → Inv (send lib c j env).0
  unfolding send
  send-Inv c j env v = ground arith

  send_heartbeat-Inv :
      (c : TcpClient) (now : ℕ) (env : SendEnv) → Inv c → Inv (send_heartbeat lib c now env)
  unfolding send_heartbeat
  send_heartbeat-Inv c now env v = ground arith

  recv-Inv :
      (c c' : TcpClient) (j : Option Json) (cs : List Chunk) (stop : RecvEnd) (t : ℕ)
      → Inv c
      → recv lib c cs stop t ≡ done (c', j)
      → Inv c'
  unfolding recv
  recv-Inv c c' j cs stop t v h = ground arith

  Inv-AreKept : AreKept lib Inv
  Inv-AreKept = record {
    by_connect = try_connect-Inv;
    by_result = check_connection_result-Inv;
    by_send = send-Inv;
    by_heartbeat = send_heartbeat-Inv;
    by_timeout = check_heartbeat_timeout-Inv;
    by_recv = recv-Inv;
    by_data = λ c now v. unfold on_data_received in ground arith;
    by_reset = λ c t t' v. unfold reset_heartbeat_timer in ground arith;
    by_loss = on_disconnected-Inv;
    by_close = λ c v. unfold close in ground arith;
  }

  -- After every history of calls on a new client, reconnections with any answers of the kernel
  -- included, the waiting time lies between 1 and 60 seconds, the descriptor is -1 exactly in the
  -- state DISCONNECTED, and the heartbeat constants are still 1 and 5 seconds.
  pub run-Inv :
      (ip : String) (port : ℕ) (es : List (Call lib)) (c : TcpClient)
      → run lib (set_target new_client ip port) es ≡ done c
      → Inv c
  run-Inv ip port es c h =
      run_keeps lib Inv Inv-AreKept es (set_target new_client ip port) c (new_client-Inv ip port) h
