-- ===== src/Tcp/Simulation.antt =====
-- TcpClient is an implementation of the abstract machine: every call on it is a move.
mod Moving
mod Methods
use mathlib.Core.Path.{subst}
use native.Mathlib.Nat.{pow-suc}
use x_pilot.Base.{ℕ, ◌≡◌, inl, inr, refl, sym, ◌&&◌, Bool-cases, String, Option, List, done, arith}
use x_pilot.Platform.{JsonLib}
use x_pilot.Tcp.{
  TcpClient, is_connected, is_disconnected, new_client, set_target, on_disconnected,
  on_data_received, reset_heartbeat_timer,
}
use x_pilot.Tcp.Sending.{SendEnv, send, send_heartbeat}
use x_pilot.Tcp.Receiving.{Chunk, RecvEnd, recv}
use x_pilot.Tcp.Calls.{Call, run, AreKept, run_keeps}
use x_pilot.Tcp.Machine.{
  Link, down, dialling, up, Trace, begins, moves, seen_of, Shows, shows_down, shows_dialling,
  shows_up,
}
use x_pilot.Tcp.Simulation.Moving.{
  TcpState-cases, link_of, IsLinked, Moved, stays, by_failure, by_loss,
}
use x_pilot.Tcp.Simulation.Methods.{
  close-Moved, on_disconnected-Moved, check_connection_result-Moved, check_heartbeat_timeout-Moved,
  try_connect-Moved,
}

module _ (ip : String) (port : ℕ) where
  module _ (lib : JsonLib) where
    open lib use {Json}

    send-Moved :
        (c : TcpClient) (n : ℕ) (j : Json) (env : SendEnv)
        → IsLinked ip port c n
        → Moved ip port c n (send lib c j env).0
    unfolding send
    send-Moved c n j env v =
        let c' = (send lib c j env).0 in
        elim (Bool-cases (is_connected c.state && is_disconnected c'.state)) [
          | inl d ↦ by_loss ip port {t = env.send_fail_time} c n c' (ground arith)
          | inr d ↦ stays ip port c n c' (ground arith)
        ]

    send_heartbeat-Moved :
        (c : TcpClient) (n now : ℕ) (env : SendEnv)
        → IsLinked ip port c n
        → Moved ip port c n (send_heartbeat lib c now env)
    unfolding send_heartbeat
    send_heartbeat-Moved c n now env v =
        let c' = send_heartbeat lib c now env in
        elim (Bool-cases (is_connected c.state && is_disconnected c'.state)) [
          | inl d ↦ by_loss ip port {t = env.send_fail_time} c n c' (ground arith)
          | inr d ↦ stays ip port c n c' (ground arith)
        ]

    recv-Moved :
        (c : TcpClient) (n : ℕ) (c' : TcpClient) (j : Option Json) (cs : List Chunk)
        (stop : RecvEnd) (t : ℕ)
        → IsLinked ip port c n
        → recv lib c cs stop t ≡ done (c', j)
        → Moved ip port c n c'
    unfolding recv on_disconnected
    recv-Moved c n c' j cs stop t v h = elim (TcpState-cases c.state) [
      | inl d ↦ stays ip port c n c' (ground arith)
      | inr (inl d) ↦ elim (Bool-cases (is_disconnected c'.state)) [
        | inl k ↦ by_failure ip port {t = t} c n c' (ground (arith, pow-suc 2 n))
        | inr k ↦ stays ip port c n c' (ground arith)
      ]
      | inr (inr d) ↦ elim (Bool-cases (is_disconnected c'.state)) [
        | inl k ↦ by_loss ip port {t = t} c n c' (ground arith)
        | inr k ↦ stays ip port c n c' (ground arith)
      ]
    ]

    on_data_received-Moved :
        (c : TcpClient) (n now : ℕ)
        → IsLinked ip port c n
        → Moved ip port c n (on_data_received c now)
    unfolding on_data_received
    on_data_received-Moved c n now v = stays ip port c n (on_data_received c now) (ground arith)

    reset_heartbeat_timer-Moved :
        (c : TcpClient) (n t t' : ℕ)
        → IsLinked ip port c n
        → Moved ip port c n (reset_heartbeat_timer c t t')
    unfolding reset_heartbeat_timer
    reset_heartbeat_timer-Moved c n t t' v =
        stays ip port c n (reset_heartbeat_timer c t t') (ground arith)

    -- The client, and what was seen of it so far.
    abbrev Follows : TcpClient → Type 0
    Follows c = (n : ℕ) × IsLinked ip port c n × Trace ip port (seen_of c.trace) (link_of c n)

    go_on :
        (c : TcpClient) (n : ℕ) (c' : TcpClient)
        → Trace ip port (seen_of c.trace) (link_of c n)
        → Moved ip port c n c'
        → Follows c'
    go_on c n c' t m = (m.count, m.linked, rw m.seen (moves t m.moved))

    Follows-AreKept : AreKept lib Follows
    Follows-AreKept = record {
      by_connect = λ c env d (n, v, t). go_on c n _ t (try_connect-Moved ip port c n env d v);
      by_result =
          λ c e s (n, v, t). go_on c n _ t (check_connection_result-Moved ip port c n e s v);
      by_send = λ c j env (n, v, t). go_on c n _ t (send-Moved c n j env v);
      by_heartbeat = λ c now env (n, v, t). go_on c n _ t (send_heartbeat-Moved c n now env v);
      by_timeout =
          λ c now s (n, v, t). go_on c n _ t (check_heartbeat_timeout-Moved ip port c n now s v);
      by_recv = λ c c' j cs stop s (n, v, t) h. go_on c n c' t (recv-Moved c n c' j cs stop s v h);
      by_data = λ c now (n, v, t). go_on c n _ t (on_data_received-Moved c n now v);
      by_reset = λ c s s' (n, v, t). go_on c n _ t (reset_heartbeat_timer-Moved c n s s' v);
      by_loss = λ c s (n, v, t). go_on c n _ t (on_disconnected-Moved ip port c n s v);
      by_close = λ c (n, v, t). go_on c n _ t (close-Moved ip port c n v);
    }

    shown : (c : TcpClient) (n : ℕ) → IsLinked ip port c n → Shows c (link_of c n)
    shown c n v = elim (TcpState-cases c.state) [
      | inl d ↦
          let e : link_of c n ≡ down c.last_attempt_time n = ground arith in
          subst (Shows c) (sym e) (shows_down n d v.paused)
      | inr (inl d) ↦
          let e : link_of c n ≡ dialling c.last_attempt_time n = ground arith in
          subst (Shows c) (sym e) (shows_dialling n d v.paused)
      | inr (inr d) ↦
          let e : link_of c n ≡ up c.last_attempt_time = ground arith in
          subst (Shows c) (sym e) (shows_up d (ground arith))
    ]

    new_client-Follows : Follows (set_target new_client ip port)
    unfolding new_client set_target
    new_client-Follows =
        (0, record { target = refl; target_port = refl; paused = refl; reset = λ k. refl }, begins)

    pub run-Trace :
        (es : List (Call lib)) (c : TcpClient)
        → run lib (set_target new_client ip port) es ≡ done c
        → (l : Link) × Trace ip port (seen_of c.trace) l × Shows c l
    run-Trace es c h =
        let (n, v, t) =
          run_keeps lib Follows Follows-AreKept es (set_target new_client ip port) c
            new_client-Follows h in
        (link_of c n, t, shown c n v)
