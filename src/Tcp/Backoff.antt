-- ===== src/Tcp/Backoff.antt =====
-- Reconnection with exponential backoff.
use native.Mathlib.Nat.{pow-suc}
use x_pilot.Base.{
  ℕ, suc, ◌+◌, ◌^◌, ◌≤◌, ◌<◌, ◌≡◌, ap, ◌∙◌, true, some, List, [], ◌∷◌, length, arith, min,
}
use x_pilot.Effects.{opens}
use x_pilot.Tcp.{
  TcpClient, ConnectEnv, refused, disconnected, doubled, try_connect, handle_fail, set_non_blocking,
}

-- The call dials: the waiting time is over, nothing before `::connect` fails, and the server refuses.
pub record IsRefused (c : TcpClient) (env : ConnectEnv) : Type 0 where
  pub due : c.last_attempt_time + c.backoff_seconds ≤ env.now
  pub fd : ℕ
  pub socket_ok : env.socket ≡ some fd
  pub non_blocking : set_non_blocking env.get_flags env.set_flags ≡ true
  pub address : env.address_ok ≡ true
  pub answer : env.connect ≡ refused

-- `tryConnect` again and again.
unfoldable pub attempts : TcpClient → List ConnectEnv → TcpClient
attempts c [] = c
attempts c (env ∷ es) = attempts (try_connect c env) es

abbrev pub AllRefused : TcpClient → List ConnectEnv → Type 0
AllRefused c [] = Unit {0}
AllRefused c (env ∷ es) = IsRefused c env × AllRefused (try_connect c env) es

refused_lem :
    (c : TcpClient) (env : ConnectEnv)
    → c.state ≡ disconnected
    → IsRefused c env
    → ((try_connect c env).state ≡ disconnected)
      × ((try_connect c env).backoff_seconds ≡ doubled c.backoff_seconds)
      × ((try_connect c env).last_attempt_time ≡ env.fail_time)
unfolding try_connect
refused_lem c env h r = ground arith

doubled-min : (k : ℕ) → doubled (min 60 (2 ^ k)) ≡ min 60 (2 ^ suc k)
doubled-min k = ground (arith, pow-suc 2 k)

attempts_from :
    (k : ℕ) (es : List ConnectEnv) (c : TcpClient)
    → c.state ≡ disconnected
    → c.backoff_seconds ≡ min 60 (2 ^ k)
    → AllRefused c es
    → ((attempts c es).state ≡ disconnected)
      × ((attempts c es).backoff_seconds ≡ min 60 (2 ^ (k + length es)))
unfolding attempts
attempts_from k [] c h b r = let e : k + 0 ≡ k = omega arith in rw e (h, b)
attempts_from k (env ∷ es) c h b r =
    let (s, doubles, _) = refused_lem c env h r.0 in
    let e : k + suc (length es) ≡ suc k + length es = omega arith in
    rw e
      (attempts_from (suc k) es (try_connect c env) s (doubles ∙ ap doubled b ∙ doubled-min k) r.1)

-- From a waiting time of one second, n refused attempts in a row make it 2 ^ n seconds, but 60 at most.
pub attempts_backoff :
    (c : TcpClient) (es : List ConnectEnv)
    → c.state ≡ disconnected
    → c.backoff_seconds ≡ 1
    → AllRefused c es
    → ((attempts c es).state ≡ disconnected)
      × ((attempts c es).backoff_seconds ≡ min 60 (2 ^ length es))
attempts_backoff c es h b r =
    let e : 0 + length es ≡ length es = omega arith in
    rw e at (attempts_from 0 es c h (omega (arith, b)) r)

-- After a failure at time `t` no attempt is made before the doubled waiting time is over, and the
-- first call after that opens the socket that the kernel gives.
pub retry_exact :
    (c : TcpClient) (t fd : ℕ) (env : ConnectEnv)
    → env.socket ≡ some fd
    → (env.now < t + doubled c.backoff_seconds
        → try_connect (handle_fail c t) env ≡ handle_fail c t)
      × (t + doubled c.backoff_seconds ≤ env.now
          → opens fd (try_connect (handle_fail c t) env).trace
            ≡ opens fd (handle_fail c t).trace + 1)
unfolding try_connect
retry_exact c t fd env e = ground arith
