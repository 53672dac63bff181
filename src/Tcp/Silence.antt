-- ===== src/Tcp/Silence.antt =====
-- A connection on which nothing arrives: what each call makes of it.
use x_pilot.Base.{ℕ, ◌+◌, ◌≤◌, ◌<◌, ◌≡◌, ◌≢◌, ◌⊎◌, none, some, Option, List, done, arith}
use x_pilot.Platform.{JsonLib}
use x_pilot.Effects.{closes}
use x_pilot.Tcp.{
  TcpClient, connected, close, try_connect, check_connection_result, on_disconnected,
  on_data_received, reset_heartbeat_timer, check_heartbeat_timeout,
}
use x_pilot.Tcp.Sending.{SendEnv, send, send_heartbeat}
use x_pilot.Tcp.Receiving.{Chunk, RecvEnd, recv}
use x_pilot.Tcp.Calls.{Call, run, AreKept, run_keeps}

-- The descriptor was closed more than `k` times.
abbrev pub IsClosedMore : ℕ → ℕ → TcpClient → Type 0
IsClosedMore fd k c = k < closes fd c.trace

-- The connection on `fd` is up, and its last data came at the time `heard`; the descriptor was closed
-- `k` times before.
pub record IsWaiting (fd heard limit k : ℕ) (c : TcpClient) : Type 0 where
  pub up : c.state ≡ connected
  pub socket : c.sock_fd ≡ some fd
  pub last : c.last_recv_time ≡ heard
  pub patience : c.heartbeat_limit ≡ limit
  pub before : closes fd c.trace ≡ k

module _ (fd k : ℕ) (lib : JsonLib) where
  open lib use {Json}

  recv-IsClosedMore :
      (c c' : TcpClient) (j : Option Json) (cs : List Chunk) (stop : RecvEnd) (t : ℕ)
      → IsClosedMore fd k c
      → recv lib c cs stop t ≡ done (c', j)
      → IsClosedMore fd k c'
  unfolding recv on_disconnected
  recv-IsClosedMore c c' j cs stop t d h = ground arith

  IsClosedMore-AreKept : AreKept lib (IsClosedMore fd k)
  IsClosedMore-AreKept = record {
    by_connect = λ c env h d. unfold try_connect in ground arith;
    by_result = λ c e t d. unfold check_connection_result in ground arith;
    by_send = λ c j env d. unfold send in ground arith;
    by_heartbeat = λ c now env d. unfold send_heartbeat in ground arith;
    by_timeout = λ c now t d. unfold check_heartbeat_timeout in ground arith;
    by_recv = recv-IsClosedMore;
    by_data = λ c now d. unfold on_data_received in ground arith;
    by_reset = λ c t t' d. unfold reset_heartbeat_timer in ground arith;
    by_loss = λ c t d. unfold on_disconnected in ground arith;
    by_close = λ c d. unfold close in ground arith;
  }

  -- No call takes a close back.
  pub run-IsClosedMore :
      (es : List (Call lib)) (c c' : TcpClient)
      → IsClosedMore fd k c
      → run lib c es ≡ done c'
      → IsClosedMore fd k c'
  run-IsClosedMore = run_keeps lib (IsClosedMore fd k) IsClosedMore-AreKept

module _ (fd heard limit k : ℕ) where
  -- The connection is still up, or it was closed.
  abbrev pub Waits : TcpClient → Type 0
  Waits c = IsWaiting fd heard limit k c ⊎ IsClosedMore fd k c

  pub on_disconnected-closes :
      (c : TcpClient) (t : ℕ)
      → IsWaiting fd heard limit k c
      → IsClosedMore fd k (on_disconnected c t)
  unfolding on_disconnected
  on_disconnected-closes c t w = ground arith

  pub check_heartbeat_timeout-closes :
      (c : TcpClient) (now t : ℕ)
      → heard ≢ 0
      → heard + limit ≤ now
      → IsWaiting fd heard limit k c
      → IsClosedMore fd k (check_heartbeat_timeout c now t)
  unfolding check_heartbeat_timeout
  check_heartbeat_timeout-closes c now t z l w = ground arith

  pub check_heartbeat_timeout-Waits :
      (c : TcpClient) (now t : ℕ)
      → heard ≢ 0
      → IsWaiting fd heard limit k c
      → Waits (check_heartbeat_timeout c now t)
  unfolding check_heartbeat_timeout
  check_heartbeat_timeout-Waits c now t z w = ground arith

  module _ (lib : JsonLib) where
    open lib use {Json}

    pub send-Waits :
        (c : TcpClient) (j : Json) (env : SendEnv)
        → IsWaiting fd heard limit k c
        → Waits (send lib c j env).0
    unfolding send
    send-Waits c j env w = ground arith

    pub send_heartbeat-Waits :
        (c : TcpClient) (now : ℕ) (env : SendEnv)
        → IsWaiting fd heard limit k c
        → Waits (send_heartbeat lib c now env)
    unfolding send_heartbeat
    send_heartbeat-Waits c now env w = ground arith

    pub recv-Waits :
        (c c' : TcpClient) (cs : List Chunk) (stop : RecvEnd) (t : ℕ)
        → IsWaiting fd heard limit k c
        → recv lib c cs stop t ≡ done (c', none)
        → Waits c'
    unfolding recv on_disconnected
    recv-Waits c c' cs stop t w h = ground arith
