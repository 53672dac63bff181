-- ===== src/Tcp/Simulation/Methods.antt =====
-- The methods of TcpClient that change its state, one by one, as moves of the abstract machine.
use native.Mathlib.Nat.{pow-suc}
use x_pilot.Base.{
  ℕ, zero, suc, ◌+◌, ◌≤◌, ◌≡◌, ◌≢◌, ◌⊎◌, inl, inr, refl, ◌&&◌, Bool-cases, ltb, Option-cases,
  String, true, Option, none, some, arith,
}
use x_pilot.Tcp.{
  TcpClient, ConnectEnv, ConnectResult, at_once, in_progress, refused, set_non_blocking,
  disconnected, is_connected, is_disconnected, close, try_connect, check_connection_result,
  on_disconnected, check_heartbeat_timeout,
}
use x_pilot.Tcp.Machine.{
  pause, down, dialling, up, dials, is_up_at_once, is_refused, answers, is_silent, hangs_up,
  gives_up,
}
use x_pilot.Tcp.Simulation.Moving.{
  TcpState-cases, IsLinked, Moved, by_move, stays, by_failure, by_loss,
}

ConnectResult-cases : (r : ConnectResult) → (r ≡ at_once) ⊎ (r ≡ in_progress) ⊎ (r ≡ refused)
ConnectResult-cases r = ground arith

-- The answer of `getsockopt` is the error 0, or it is not.
answer-cases : (e : Option ℕ) → (e ≡ some 0) ⊎ (e ≢ some 0)
answer-cases none = inr cc
answer-cases (some zero) = inl refl
answer-cases (some (suc n)) = inr (λ h. ground arith)

module _ (ip : String) (port : ℕ) where
  pub close-Moved : (c : TcpClient) (n : ℕ) → IsLinked ip port c n → Moved ip port c n (close c)
  unfolding close
  close-Moved c n v = elim (TcpState-cases c.state) [
    | inl d ↦ stays ip port c n (close c) (ground arith)
    | inr (inl d) ↦
        by_move ip port {l = dialling c.last_attempt_time n} c n (close c) n gives_up (ground arith)
    | inr (inr d) ↦
        by_move ip port {l = up c.last_attempt_time} c n (close c) 0 hangs_up (ground arith)
  ]

  pub on_disconnected-Moved :
      (c : TcpClient) (n t : ℕ) → IsLinked ip port c n → Moved ip port c n (on_disconnected c t)
  unfolding on_disconnected
  on_disconnected-Moved c n t v =
      let c' = on_disconnected c t in
      elim (TcpState-cases c.state) [
        | inl d ↦ stays ip port c n c' (ground arith)
        | inr (inl d) ↦ by_failure ip port {t = t} c n c' (ground (arith, pow-suc 2 n))
        | inr (inr d) ↦ by_loss ip port {t = t} c n c' (ground arith)
      ]

  pub check_connection_result-Moved :
      (c : TcpClient) (n : ℕ) (e : Option ℕ) (t : ℕ)
      → IsLinked ip port c n
      → Moved ip port c n (check_connection_result c e t)
  unfolding check_connection_result
  check_connection_result-Moved c n e t v =
      let c' = check_connection_result c e t in
      elim (TcpState-cases c.state) [
        | inl d ↦ stays ip port c n c' (ground arith)
        | inr (inl d) ↦ elim (answer-cases e) [
          | inl ok ↦
              by_move ip port {l = dialling c.last_attempt_time n} c n c' 0 answers (ground arith)
          | inr bad ↦ by_failure ip port {t = t} c n c' (ground (arith, pow-suc 2 n))
        ]
        | inr (inr d) ↦ stays ip port c n c' (ground arith)
      ]

  pub check_heartbeat_timeout-Moved :
      (c : TcpClient) (n now t : ℕ)
      → IsLinked ip port c n
      → Moved ip port c n (check_heartbeat_timeout c now t)
  unfolding check_heartbeat_timeout
  check_heartbeat_timeout-Moved c n now t v =
      let c' = check_heartbeat_timeout c now t in
      elim (Bool-cases (is_connected c.state && is_disconnected c'.state)) [
        | inl d ↦
            by_move ip port {l = up c.last_attempt_time} c n c' 1 (is_silent {t = t}) (ground arith)
        | inr d ↦ stays ip port c n c' (ground arith)
      ]

  -- The call gets as far as `::connect`.
  record Dialled (c : TcpClient) (env : ConnectEnv) (fd : ℕ) : Type 0 where
    due : c.last_attempt_time + c.backoff_seconds ≤ env.now
    socket_ok : env.socket ≡ some fd
    ready : set_non_blocking env.get_flags env.set_flags && env.address_ok ≡ true

  Dialled-Moved :
      (c : TcpClient) (n : ℕ) (env : ConnectEnv) (fd : ℕ)
      → c.state ≡ disconnected
      → IsLinked ip port c n
      → Dialled c env fd
      → Moved ip port c n (try_connect c env)
  unfolding try_connect
  Dialled-Moved c n env fd d v x =
      let due : c.last_attempt_time + pause n ≤ env.now = omega (arith, x.due, v.paused) in
      let l = down c.last_attempt_time n in
      let c' = try_connect c env in
      elim (ConnectResult-cases env.connect) [
        | inl k ↦ by_move ip port {l = l} c n c' 0 (is_up_at_once fd due) (ground arith)
        | inr (inl k) ↦ by_move ip port {l = l} c n c' n (dials fd due) (ground arith)
        | inr (inr k) ↦
            by_move ip port {l = l} c n c' (suc n) (is_refused {t = env.fail_time} fd due)
              (ground (arith, pow-suc 2 n))
      ]

  pub try_connect-Moved :
      (c : TcpClient) (n : ℕ) (env : ConnectEnv)
      → c.state ≡ disconnected
      → IsLinked ip port c n
      → Moved ip port c n (try_connect c env)
  unfolding try_connect
  try_connect-Moved c n env d v =
      let ready = set_non_blocking env.get_flags env.set_flags && env.address_ok in
      let c' = try_connect c env in
      elim (Bool-cases (ltb env.now (c.last_attempt_time + c.backoff_seconds))) [
        | inl early ↦ stays ip port c n c' (ground arith)
        | inr late ↦ elim (Option-cases env.socket) [
          | inl s ↦ stays ip port c n c' (ground arith)
          | inr (fd, s) ↦ elim (Bool-cases ready) [
            | inl r ↦
                Dialled-Moved c n env fd d v
                  (record { due = ground arith; socket_ok = s; ready = r })
            | inr r ↦ stays ip port c n c' (ground arith)
          ]
        ]
      ]
