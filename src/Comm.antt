-- ===== src/Comm.antt =====
-- src/comm_main.cpp: the communication process. It passes the commands of the ground station on to the
-- control process, and the telemetry back. `polls` holds the calls of `epoll_ctl`, newest first; what
-- the kernel and the clock answer are arguments. LOG_* and std::cout lines are left
-- out.
pub mod Events
pub mod Rounds
pub mod Cases
pub mod Loop
pub mod Epoll
pub mod Main
pub mod Exit
pub mod Trace
pub mod Refinement
pub mod Relay
pub mod Reconnection
pub mod Hostile
pub mod Health
pub mod Poison
pub mod Robust
pub mod Silence
pub mod Timeouts
mod Examples
mod TimeoutExamples
mod HealthExamples
use x_pilot.Base.{[], ℕ, Bool, Option, none, some, List, ◌∷◌, String, if◌then◌else◌}
use x_pilot.Platform.{JsonLib}
use x_pilot.Ipc.{UnixSocketClient, new_ipc_client, connect_to_server, close_client}
use x_pilot.Tcp.{
  TcpClient, ConnectEnv, is_disconnected, new_client, set_target, close, try_connect,
  check_heartbeat_timeout,
}
use x_pilot.Tcp.Sending.{SendEnv, send_heartbeat}

-- A call of `epoll_ctl`, with the descriptor of the client it is made for; or the descriptor that
-- `epoll_create1` gave, and its close.
pub data Poll : Type 0 where
  added_tcp : Option ℕ → Poll
  added_ipc : Option ℕ → Poll
  in_only : ℕ → Poll
  removed : ℕ → Poll
  watching : ℕ → Poll
  unwatched : ℕ → Poll

pub record Comm : Type 0 where
  pub tcp : TcpClient
  pub ipc : UnixSocketClient
  pub polls : List Poll

-- Up to the loop, with the answers of `socket` and `connect` for the IPC client. Its descriptor is not
-- handed to epoll here.
unfoldable pub start : String → ℕ → Option ℕ → Bool → Comm
start ip port socket connect_ok = record {
  tcp = set_target new_client ip port;
  ipc = (connect_to_server new_ipc_client socket connect_ok).0;
  polls = [];
}

-- Block A. `add_ok` is what `epoll_ctl` answers.
unfoldable pub reconnect_tcp : Comm → ConnectEnv → Bool → Comm
reconnect_tcp c env add_ok =
    let t = try_connect c.tcp env in
    if is_disconnected c.tcp.state
    then (if is_disconnected t.state
        then record c { tcp = t }
        else if add_ok
        then record c { tcp = t; polls = added_tcp t.sock_fd ∷ c.polls }
        else record c { tcp = close t; polls = added_tcp t.sock_fd ∷ c.polls })
    else c

-- Block B.
unfoldable pub reconnect_ipc : Comm → Option ℕ → Bool → Comm
reconnect_ipc c socket connect_ok =
    let (i, ok) = connect_to_server c.ipc socket connect_ok in
    elim c.ipc.sock_fd [
      | some fd ↦ c
      | none ↦
          if ok
          then record c { ipc = i; polls = added_ipc i.sock_fd ∷ c.polls }
          else record c { ipc = i }
    ]

module _ (lib : JsonLib) where
  open lib use {Json}

  -- Block B2.
  unfoldable pub beat : Comm → ℕ → SendEnv → ℕ → ℕ → Comm
  beat c now env now' fail_time = record c {
    tcp = check_heartbeat_timeout (send_heartbeat lib c.tcp now env) now' fail_time;
  }

  -- The end of `main`.
  unfoldable pub clean_up : ℕ → Comm → Comm
  clean_up epoll_fd c = record c {
    tcp = close c.tcp;
    ipc = close_client c.ipc;
    polls = unwatched epoll_fd ∷ c.polls;
  }
