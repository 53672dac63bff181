-- ===== src/Tcp/Calls.antt =====
-- The calls that the communication process makes on its TcpClient, and histories of them.
use x_pilot.Base.{
  Bool, true, false, refl, arith, ℕ, Option, List, [], ◌∷◌, if◌then◌else◌, Outcome, done, ◌>>=◌,
  ◌≡◌, >>=-eq-done, done-injective,
}
use mathlib.Core.Path.{subst}
use x_pilot.Platform.{JsonLib}
use x_pilot.Tcp.{
  disconnected, TcpClient, ConnectEnv, is_disconnected, close, try_connect, check_connection_result,
  on_disconnected, on_data_received, reset_heartbeat_timer, check_heartbeat_timeout,
}
use x_pilot.Tcp.Sending.{SendEnv, send, send_heartbeat}
use x_pilot.Tcp.Receiving.{Chunk, RecvEnd, recv}

module _ (lib : JsonLib) where
  open lib use {Json}

  pub data Call : Type 0 where
    reconnects : ConnectEnv → Call
    checks_result : Option ℕ → ℕ → Call
    sends : Json → SendEnv → Call
    beats : ℕ → SendEnv → Call
    checks_timeout : ℕ → ℕ → Call
    receives : List Chunk → RecvEnd → ℕ → Call
    notes_data : ℕ → Call
    resets_timer : ℕ → ℕ → Call
    loses_peer : ℕ → Call
    closes_socket : Call

  -- `reconnects` has the test of the main loop in front: only a disconnected client connects.
  unfoldable pub step : TcpClient → Call → Outcome TcpClient
  step c (reconnects env) = done (if is_disconnected c.state then try_connect c env else c)
  step c (checks_result so_error t) = done (check_connection_result c so_error t)
  step c (sends j env) = done (send lib c j env).0
  step c (beats now env) = done (send_heartbeat lib c now env)
  step c (checks_timeout now t) = done (check_heartbeat_timeout c now t)
  step c (receives chunks stop t) = recv lib c chunks stop t >>= λ r. done r.0
  step c (notes_data now) = done (on_data_received c now)
  step c (resets_timer t t') = done (reset_heartbeat_timer c t t')
  step c (loses_peer t) = done (on_disconnected c t)
  step c closes_socket = done (close c)

  -- An exception ends the process, so no call comes after it.
  unfoldable pub run : TcpClient → List Call → Outcome TcpClient
  run c [] = done c
  run c (e ∷ es) = step c e >>= λ c'. run c' es

  -- Each method keeps a property.
  pub record AreKept (P : TcpClient → Type 0) : Type 0 where
    pub by_connect :
        (c : TcpClient) (env : ConnectEnv) → c.state ≡ disconnected → P c → P (try_connect c env)
    pub by_result : (c : TcpClient) (e : Option ℕ) (t : ℕ) → P c → P (check_connection_result c e t)
    pub by_send : (c : TcpClient) (j : Json) (env : SendEnv) → P c → P (send lib c j env).0
    pub by_heartbeat :
        (c : TcpClient) (now : ℕ) (env : SendEnv) → P c → P (send_heartbeat lib c now env)
    pub by_timeout : (c : TcpClient) (now t : ℕ) → P c → P (check_heartbeat_timeout c now t)
    pub by_recv :
        (c c' : TcpClient) (j : Option Json) (cs : List Chunk) (stop : RecvEnd) (t : ℕ)
        → P c
        → recv lib c cs stop t ≡ done (c', j)
        → P c'
    pub by_data : (c : TcpClient) (now : ℕ) → P c → P (on_data_received c now)
    pub by_reset : (c : TcpClient) (t t' : ℕ) → P c → P (reset_heartbeat_timer c t t')
    pub by_loss : (c : TcpClient) (t : ℕ) → P c → P (on_disconnected c t)
    pub by_close : (c : TcpClient) → P c → P (close c)

  module _ (P : TcpClient → Type 0) (kept : AreKept P) where
    open kept use {
      by_connect, by_result, by_send, by_heartbeat, by_timeout, by_recv, by_data, by_reset, by_loss,
      by_close,
    }

    connect_keeps :
        (b : Bool) (c : TcpClient) (env : ConnectEnv)
        → is_disconnected c.state ≡ b
        → P c
        → P (if b then try_connect c env else c)
    connect_keeps true c env d p = by_connect c env (ground arith) p
    connect_keeps false c env d p = p

    step_keeps : (c c' : TcpClient) (e : Call) → P c → step c e ≡ done c' → P c'
    unfolding step
    step_keeps c c' (reconnects env) p h =
        subst P (done-injective h) (connect_keeps (is_disconnected c.state) c env refl p)
    step_keeps c c' (checks_result e t) p h = subst P (done-injective h) (by_result c e t p)
    step_keeps c c' (sends j env) p h = subst P (done-injective h) (by_send c j env p)
    step_keeps c c' (beats now env) p h = subst P (done-injective h) (by_heartbeat c now env p)
    step_keeps c c' (checks_timeout now t) p h = subst P (done-injective h) (by_timeout c now t p)
    step_keeps c c' (receives cs stop t) p h =
        let ((d, j), e, f) = >>=-eq-done (recv lib c cs stop t) (λ r. done r.0) h in
        subst P (done-injective f) (by_recv c d j cs stop t p e)
    step_keeps c c' (notes_data now) p h = subst P (done-injective h) (by_data c now p)
    step_keeps c c' (resets_timer t t') p h = subst P (done-injective h) (by_reset c t t' p)
    step_keeps c c' (loses_peer t) p h = subst P (done-injective h) (by_loss c t p)
    step_keeps c c' closes_socket p h = subst P (done-injective h) (by_close c p)

    -- What every method keeps holds after every history.
    pub run_keeps : (es : List Call) (c c' : TcpClient) → P c → run c es ≡ done c' → P c'
    unfolding run
    run_keeps [] c c' p h = subst P (done-injective h) p
    run_keeps (e ∷ es) c c' p h =
        let (d, first, later) = >>=-eq-done (step c e) (λ d. run d es) h in
        run_keeps es d c' (step_keeps c d e p first) later
