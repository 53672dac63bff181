-- ===== src/Tcp/Reports.antt =====
-- The pause that an event tcp_connect_fail names, and the next attempt.
use x_pilot.Base.{
  ℕ, ◌+◌, ◌≤◌, ◌<◌, ◌≡◌, refl, sym, ◌∙◌, String, Option, none, some, List, ◌∷◌, done, arith,
}
use x_pilot.Platform.{JsonLib}
use x_pilot.Effects.{Effect, opens, emitted, clocked, tcp_connect_fail}
use x_pilot.Tcp.{TcpClient, ConnectEnv, disconnected, new_client, set_target, try_connect}
use x_pilot.Tcp.Calls.{Call, run}
use x_pilot.Tcp.Machine.{
  Link, pause, down, dialling, up, rests, dials, is_up_at_once, is_refused, answers, fails, is_lost,
  is_silent, hangs_up, gives_up, Trace, begins, moves, seen_of, Shows, shows_down, shows_dialling,
  shows_up,
}
use x_pilot.Tcp.Simulation.{run-Trace}

-- The pause that the newest of the dials and events reports, if that is a failure, and the time of the
-- failure.
abbrev pub said : List Effect → Option (ℕ × ℕ)
said (emitted (tcp_connect_fail ip port b) ∷ clocked t ∷ _) = some (b, t)
said _ = none

-- Only a machine that is down has a failure as the last thing that was seen, and its pause and time are
-- the ones reported.
abbrev Agrees : Link → Option (ℕ × ℕ) → Type 0
Agrees (down since n) o = (b t : ℕ) → o ≡ some (b, t) → (b ≡ pause n) × (t ≡ since)
Agrees (dialling since n) o = o ≡ none
Agrees (up since) o = o ≡ none

module _ (ip : String) (port : ℕ) where
  Trace-Agrees : (seen : List Effect) (l : Link) → Trace ip port seen l → Agrees l (said seen)
  Trace-Agrees _ _ begins = λ b s e. ground arith
  Trace-Agrees _ l (moves {seen} t rests) = Trace-Agrees seen l t
  Trace-Agrees _ _ (moves t (dials fd due)) = refl
  Trace-Agrees _ _ (moves t (is_up_at_once fd due)) = refl
  Trace-Agrees _ _ (moves t (is_refused fd due)) = λ b s e. ground arith
  Trace-Agrees _ _ (moves {seen} {l = l} t answers) = Trace-Agrees seen l t
  Trace-Agrees _ _ (moves t fails) = λ b s e. ground arith
  Trace-Agrees _ _ (moves t is_lost) = λ b s e. ground arith
  Trace-Agrees _ _ (moves t is_silent) = λ b s e. ground arith
  Trace-Agrees _ _ (moves {seen} {l = l} t hangs_up) =
      let h = Trace-Agrees seen l t in λ b s e. ground arith
  Trace-Agrees _ _ (moves {seen} {l = l} t gives_up) =
      let h = Trace-Agrees seen l t in λ b s e. ground arith

  agreed :
      (c : TcpClient) (l : Link) (b t : ℕ) (seen : List Effect)
      → Shows c l
      → Agrees l (said seen)
      → c.state ≡ disconnected
      → said seen ≡ some (b, t)
      → (c.backoff_seconds ≡ b) × (c.last_attempt_time ≡ t)
  agreed c _ b t seen (shows_down n d p) a s e =
      let (same, when) = a b t e in (p ∙ sym same, sym when)
  agreed c _ b t seen (shows_dialling n d p) a s e = cc
  agreed c _ b t seen (shows_up d p) a s e = cc

  module _ (lib : JsonLib) where
    -- The pause that is reported is the one that is kept: after any history of calls on a new client, if the
    -- newest dial or event is a tcp_connect_fail with a backoff of b seconds, at the time t of the clock, and the client is
    -- disconnected, a `tryConnect` does nothing before b seconds after t are over, and one later opens the socket
    -- that the kernel gives.
    pub report_kept :
        (es : List (Call lib)) (c : TcpClient) (b t fd : ℕ) (env : ConnectEnv)
        → run lib (set_target new_client ip port) es ≡ done c
        → c.state ≡ disconnected
        → said (seen_of c.trace) ≡ some (b, t)
        → env.socket ≡ some fd
        → (env.now < t + b → try_connect c env ≡ c)
          × (t + b ≤ env.now → opens fd (try_connect c env).trace ≡ opens fd c.trace + 1)
    unfolding try_connect
    report_kept es c b t fd env h d r k =
        let (l, seen, s) = run-Trace ip port lib es c h in
        let (same, when) =
          agreed c l b t (seen_of c.trace) s (Trace-Agrees (seen_of c.trace) l seen) d r in
        ground arith
