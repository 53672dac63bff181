-- ===== src/Tcp/Simulation/Moving.antt =====
-- What it means that a call on TcpClient is a move of the abstract machine.
use mathlib.Core.Path.{subst}
use x_pilot.Base.{ℕ, suc, ◌≡◌, ◌⊎◌, sym, String, List, [], ◌∷◌, ◌++◌, arith}
use x_pilot.Effects.{Effect, emitted, clocked, tcp_connect_fail}
use x_pilot.Tcp.{TcpState, TcpClient, disconnected, connecting, connected}
use x_pilot.Tcp.Machine.{Link, pause, down, dialling, up, Move, rests, fails, is_lost, seen_of}

pub TcpState-cases : (s : TcpState) → (s ≡ disconnected) ⊎ (s ≡ connecting) ⊎ (s ≡ connected)
TcpState-cases s = ground arith

-- The state of the machine after `n` failures in a row.
abbrev pub link_of : TcpClient → ℕ → Link
link_of c n = elim c.state [
  | disconnected ↦ down c.last_attempt_time n
  | connecting ↦ dialling c.last_attempt_time n
  | connected ↦ up c.last_attempt_time
]

module _ (ip : String) (port : ℕ) where
  -- The target is set, and there were `n` failures in a row.
  pub record IsLinked (c : TcpClient) (n : ℕ) : Type 0 where
    pub target : c.ip ≡ ip
    pub target_port : c.port ≡ port
    pub paused : c.backoff_seconds ≡ pause n
    pub reset : c.state ≡ connected → n ≡ 0

  -- The second client is a move behind the first.
  pub record Moved (c : TcpClient) (n : ℕ) (c' : TcpClient) : Type 0 where
    pub count : ℕ
    pub shown : List Effect
    pub moved : Move ip port (link_of c n) shown (link_of c' count)
    pub seen : seen_of c'.trace ≡ shown ++ seen_of c.trace
    pub linked : IsLinked c' count

  abbrev pub After : TcpClient → ℕ → TcpClient → ℕ → List Effect → Link → Link → Type 0
  After c n c' n' es l l' =
      (link_of c n ≡ l)
      × (link_of c' n' ≡ l')
      × (seen_of c'.trace ≡ es ++ seen_of c.trace)
      × (c'.ip ≡ ip)
      × (c'.port ≡ port)
      × (c'.backoff_seconds ≡ pause n')
      × (c'.state ≡ connected → n' ≡ 0)

  pub by_move :
      {es : List Effect} {l l' : Link} (c : TcpClient) (n : ℕ) (c' : TcpClient) (n' : ℕ)
      → Move ip port l es l'
      → After c n c' n' es l l'
      → Moved c n c'
  by_move {es} {l} {l'} c n c' n' m (from, to, s, i, p, b, r) = record {
    count = n';
    shown = es;
    moved =
        subst (λ x. Move ip port x es (link_of c' n')) (sym from)
          (subst (Move ip port l es) (sym to) m);
    seen = s;
    linked = record { target = i; target_port = p; paused = b; reset = r };
  }

  pub stays :
      (c : TcpClient) (n : ℕ) (c' : TcpClient)
      → After c n c' n [] (link_of c n) (link_of c n)
      → Moved c n c'
  stays c n c' a = by_move c n c' n rests a

  -- An attempt that fails is one failure more; a lost connection is the first one.
  pub by_failure :
      {t : ℕ} (c : TcpClient) (n : ℕ) (c' : TcpClient)
      → After c n c'
          (suc n)
          (emitted (tcp_connect_fail ip port (pause (suc n))) ∷ clocked t ∷ [])
          (dialling c.last_attempt_time n)
          (down t (suc n))
      → Moved c n c'
  by_failure c n c' a = by_move c n c' (suc n) fails a

  pub by_loss :
      {t : ℕ} (c : TcpClient) (n : ℕ) (c' : TcpClient)
      → After c n c' 1
          (emitted (tcp_connect_fail ip port (pause 1)) ∷ clocked t ∷ [])
          (up c.last_attempt_time)
          (down t 1)
      → Moved c n c'
  by_loss c n c' a = by_move c n c' 1 is_lost a
