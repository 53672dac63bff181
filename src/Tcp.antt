-- ===== src/Tcp.antt =====
-- include/tcp_client.h and src/tcp_client.cpp: the connection to the ground station. A method returns
-- the new object; what the kernel and the clock answer are arguments; `trace` holds the effects on the
-- outside, newest first. A descriptor of -1 is `none`; times are seconds, and `now - t < d` is written
-- `now < t + d`. LOG_* lines are left out.
pub mod Sending
pub mod Receiving
pub mod Calls
pub mod Invariant
pub mod Descriptors
pub mod Backoff
pub mod Heartbeat
pub mod Receive
pub mod Bounds
pub mod Machine
pub mod Simulation
pub mod Reports
pub mod Silence
mod Examples
use Prim.Native.Nat.{bit_or}
use x_pilot.Base.{
  [], ℕ, ◌+◌, ◌*◌, ◌%◌, ◌^◌, Bool, true, false, Option, none, some, List, ◌∷◌, String, ltb, leb,
  ◌==◌, if◌then◌else◌,
}
use x_pilot.Base.Word.{Bytes}
use x_pilot.Effects.{
  Effect, opened, dialled, closed, clocked, emitted, close_if, tcp_connect_success,
  tcp_connect_fail, heartbeat_timeout,
}

pub data TcpState : Type 0 where
  disconnected connecting connected : TcpState

abbrev pub is_connected : TcpState → Bool
is_connected connected = true
is_connected _ = false

abbrev pub is_connecting : TcpState → Bool
is_connecting connecting = true
is_connecting _ = false

abbrev pub is_disconnected : TcpState → Bool
is_disconnected disconnected = true
is_disconnected _ = false

pub record TcpClient : Type 0 where
  pub sock_fd : Option ℕ
  pub ip : String
  pub port : ℕ
  pub state : TcpState
  pub backoff_seconds : ℕ
  pub last_attempt_time : ℕ
  pub heartbeat_interval : ℕ
  pub heartbeat_limit : ℕ  -- m_heartbeat_timeout
  pub last_send_time : ℕ
  pub last_recv_time : ℕ
  pub recv_buffer : Bytes
  pub trace : List Effect

-- The constructor.
unfoldable pub new_client : TcpClient
new_client = record {
  sock_fd = none;
  ip = "";
  port = 0;
  state = disconnected;
  backoff_seconds = 1;
  last_attempt_time = 0;
  heartbeat_interval = 1;
  heartbeat_limit = 5;
  last_send_time = 0;
  last_recv_time = 0;
  recv_buffer = [];
  trace = [];
}

unfoldable pub set_target : TcpClient → String → ℕ → TcpClient
set_target c ip port = record c { ip = ip; port = port }

-- `fcntl(fd, F_GETFL)` answers the flags or fails; `fcntl(fd, F_SETFL, ·)` succeeds or fails.
unfoldable pub set_non_blocking : Option ℕ → (ℕ → Bool) → Bool
set_non_blocking none set_flags = false
set_non_blocking (some flags) set_flags = set_flags (bit_or flags 0o4000)

unfoldable pub close : TcpClient → TcpClient
close c = record c { sock_fd = none; state = disconnected; trace = close_if c.sock_fd c.trace }

-- The destructor.
unfoldable pub drop_client : TcpClient → TcpClient
unfolding close
drop_client c = close c

abbrev max_backoff : ℕ
max_backoff = 60

abbrev pub doubled : ℕ → ℕ
doubled b = if ltb max_backoff (b * 2) then max_backoff else b * 2

unfoldable pub handle_fail : TcpClient → ℕ → TcpClient
unfolding close
handle_fail c now =
    let shut = close c in
    let backoff = doubled c.backoff_seconds in
    record shut {
      state = disconnected;
      last_attempt_time = now;
      backoff_seconds = backoff;
      trace = emitted (tcp_connect_fail c.ip c.port backoff) ∷ clocked now ∷ shut.trace;
    }

pub data ConnectResult : Type 0 where
  at_once in_progress refused : ConnectResult

-- What the calls in `tryConnect` answer.
pub record ConnectEnv : Type 0 where
  pub now : ℕ
  pub socket : Option ℕ
  pub get_flags : Option ℕ
  pub set_flags : ℕ → Bool
  pub address_ok : Bool
  pub connect : ConnectResult
  pub fail_time : ℕ

-- The tail of `tryConnect`, after `::connect`.
after_connect : TcpClient → ConnectEnv → ConnectResult → TcpClient
unfolding handle_fail
after_connect c env at_once = record c {
  state = connected;
  backoff_seconds = 1;
  trace = emitted (tcp_connect_success c.ip c.port) ∷ c.trace;
}
after_connect c env in_progress = record c { state = connecting; last_attempt_time = env.now }
after_connect c env refused = handle_fail c env.fail_time

-- From the new socket on. The early returns close it again, and leave the state as it was.
use_socket : TcpClient → ConnectEnv → ℕ → TcpClient
unfolding set_non_blocking after_connect
use_socket c env fd =
    let got = record c { sock_fd = some fd; trace = opened fd ∷ c.trace } in
    let dropped = record c { sock_fd = none; trace = closed fd ∷ opened fd ∷ c.trace } in
    let dialling = record got {
      trace = dialled fd c.ip (c.port % 2 ^ 16) ∷ clocked env.now ∷ got.trace;
    } in
    if set_non_blocking env.get_flags env.set_flags
    then if env.address_ok then after_connect dialling env env.connect else dropped
    else dropped

unfoldable pub try_connect : TcpClient → ConnectEnv → TcpClient
unfolding use_socket
try_connect c env =
    let cleaned = record c { sock_fd = none; trace = close_if c.sock_fd c.trace } in
    if is_connected c.state
    then c
    else if ltb env.now (c.last_attempt_time + c.backoff_seconds)
    then c
    else elim env.socket [ none ↦ cleaned | some fd ↦ use_socket cleaned env fd ]

-- `so_error` is what `getsockopt` stores, or `none` where it fails.
unfoldable pub check_connection_result : TcpClient → Option ℕ → ℕ → TcpClient
unfolding handle_fail
check_connection_result c so_error fail_time =
    if is_connecting c.state
    then elim so_error [
      | none ↦ handle_fail c fail_time
      | some e ↦
          if e == 0
          then record c { state = connected; backoff_seconds = 1 }
          else handle_fail c fail_time
    ]
    else c

unfoldable pub on_disconnected : TcpClient → ℕ → TcpClient
unfolding handle_fail
on_disconnected c fail_time = if is_disconnected c.state then c else handle_fail c fail_time

unfoldable pub on_data_received : TcpClient → ℕ → TcpClient
on_data_received c now = record c { last_recv_time = now }

unfoldable pub reset_heartbeat_timer : TcpClient → ℕ → ℕ → TcpClient
reset_heartbeat_timer c t t' = record c { last_send_time = t; last_recv_time = t' }

unfoldable pub check_heartbeat_timeout : TcpClient → ℕ → ℕ → TcpClient
unfolding on_disconnected
check_heartbeat_timeout c now fail_time =
    let last = if c.last_recv_time == 0 then c.last_send_time else c.last_recv_time in
    let timed = record c { last_recv_time = last } in
    let reported = record timed { trace = emitted (heartbeat_timeout c.ip c.port) ∷ c.trace } in
    if is_connected c.state
    then if leb (last + c.heartbeat_limit) now then on_disconnected reported fail_time else timed
    else c
