-- ===== src/Comm/Health/Client.antt =====
-- The methods of TcpClient that the loop calls, on a connection that is in order.
use x_pilot.Base.{ℕ, ◌+◌, ◌≤◌, ◌<◌, ◌≡◌, ◌≢◌, Option, some, List, length, done, arith}
use x_pilot.Platform.{JsonLib}
use x_pilot.Effects.{closes}
use x_pilot.Tcp.{TcpClient, connected, check_heartbeat_timeout}
use x_pilot.Tcp.Sending.{SendEnv, send, heartbeat, send_heartbeat}
use x_pilot.Tcp.Receiving.{Chunk, would_block, recv}

-- The connection on `fd` is up, no frame came before the time `heard` alone, and the descriptor was closed
-- `k` times before.
pub record IsHealthy (fd heard limit k : ℕ) (c : TcpClient) : Type 0 where
  pub up : c.state ≡ connected
  pub socket : c.sock_fd ≡ some fd
  pub last : heard ≤ c.last_recv_time
  pub patience : c.heartbeat_limit ≡ limit
  pub before : closes fd c.trace ≡ k

module _ (lib : JsonLib) where
  -- The kernel takes the whole frame of the value.
  abbrev pub IsTaken : SendEnv → lib.Json → Type 0
  IsTaken env j = (env.header ≡ some 4) × (env.payload ≡ some (length (lib.dump j)))

module _ (lib : JsonLib) (fd heard limit k : ℕ) where
  pub send-IsHealthy :
      (c : TcpClient) (j : lib.Json) (env : SendEnv)
      → IsTaken lib env j
      → IsHealthy fd heard limit k c
      → IsHealthy fd heard limit k (send lib c j env).0
  unfolding send
  send-IsHealthy c j env s h = ground arith

  pub send_heartbeat-IsHealthy :
      (c : TcpClient) (now : ℕ) (env : SendEnv)
      → IsTaken lib env (heartbeat lib now)
      → IsHealthy fd heard limit k c
      → IsHealthy fd heard limit k (send_heartbeat lib c now env)
  unfolding send_heartbeat
  send_heartbeat-IsHealthy c now env s h = ground arith

  pub check-IsHealthy :
      (c : TcpClient) (now t : ℕ)
      → heard ≢ 0
      → now < heard + limit
      → IsHealthy fd heard limit k c
      → IsHealthy fd heard limit k (check_heartbeat_timeout c now t)
  unfolding check_heartbeat_timeout
  check-IsHealthy c now t z l h = ground arith

  pub recv-IsHealthy :
      (c c' : TcpClient) (j : Option lib.Json) (cs : List Chunk) (t : ℕ)
      → IsHealthy fd heard limit k c
      → recv lib c cs would_block t ≡ done (c', j)
      → IsHealthy fd heard limit k c'
  unfolding recv
  recv-IsHealthy c c' j cs t h r = ground arith
