-- ===== src/Comm/Rounds.antt =====
-- src/comm_main.cpp: a round of the loop, and the loop.
use x_pilot.Base.{ℕ, Bool, Option, List, [], ◌∷◌, Outcome, done, ◌>>=◌}
use x_pilot.Platform.{JsonLib, SocketLib}
use x_pilot.Tcp.{ConnectEnv}
use x_pilot.Tcp.Sending.{SendEnv}
use x_pilot.Comm.{Comm, beat, reconnect_ipc, reconnect_tcp}
use x_pilot.Comm.Events.{Event, handle_all}

module _ (lib : JsonLib) (sock : SocketLib) where
  pub data Wait : Type 0 where
    wait_failed interrupted_wait : Wait
    events : List (Event lib sock) → Wait

  -- What one round of the loop meets.
  pub record Round : Type 0 where
    pub connect_env : ConnectEnv
    pub add_ok : Bool
    pub ipc_socket : Option ℕ
    pub ipc_connect_ok : Bool
    pub beat_time : ℕ
    pub beat_answer : SendEnv
    pub check_time : ℕ
    pub fail_time : ℕ
    pub wait : Wait

  -- Blocks A to B2.
  unfoldable pub before_wait : Comm → Round → Comm
  unfolding reconnect_tcp reconnect_ipc beat
  before_wait c r =
      beat lib
        (reconnect_ipc (reconnect_tcp c r.connect_env r.add_ok) r.ipc_socket r.ipc_connect_ok)
        r.beat_time r.beat_answer r.check_time r.fail_time

  -- The loop, until `g_should_exit` is set where the rounds end, or `epoll_wait` fails.
  unfoldable pub main_loop : Comm → List Round → Outcome Comm
  main_loop c [] = done c
  main_loop c (r ∷ rs) = elim r.wait [
    | wait_failed ↦ done (before_wait c r)
    | interrupted_wait ↦ main_loop (before_wait c r) rs
    | events es ↦ handle_all lib sock (before_wait c r) es >>= λ c'. main_loop c' rs
  ]
