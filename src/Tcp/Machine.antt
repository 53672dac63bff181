-- ===== src/Tcp/Machine.antt =====
-- The connection to the ground station as an abstract machine: TcpClient without sockets, buffers and
-- heartbeats. The machine knows when the last attempt or failure was and how many failures there were in a row,
-- and shows what the station and metrics.log get to see.
use x_pilot.Base.{ℕ, suc, ◌+◌, ◌%◌, ◌^◌, ◌≤◌, ◌≡◌, min, String, List, [], ◌∷◌, ◌++◌}
use x_pilot.Effects.{
  Effect, opened, dialled, sent, closed, unlinked, emitted, clocked, tcp_connect_success,
  tcp_connect_fail, heartbeat_timeout,
}
use x_pilot.Tcp.{TcpClient, disconnected, connecting, connected}

-- The seconds between two attempts, after so many failures in a row.
abbrev pub pause : ℕ → ℕ
pause failures = min 60 (2 ^ failures)

-- The time of the last attempt or failure, and the failures in a row.
pub data Link : Type 0 where
  down : (since failures : ℕ) → Link
  dialling : (since failures : ℕ) → Link
  up : (since : ℕ) → Link

module _ (ip : String) (port : ℕ) where
  -- A move, with what it shows, newest first: in front of a dial and of a failure stands what the clock
  -- answered, which is the time of that attempt or failure. A lost connection counts as the first failure.
  pub data Move : Link → List Effect → Link → Type 0 where
    rests : {l : Link} → Move l [] l
    dials :
        {since n now : ℕ} (fd : ℕ)
        → since + pause n ≤ now
        → Move (down since n) (dialled fd ip (port % 2 ^ 16) ∷ clocked now ∷ []) (dialling now n)
    is_up_at_once :
        {since n now : ℕ} (fd : ℕ)
        → since + pause n ≤ now
        → Move
            (down since n)
            (emitted (tcp_connect_success ip port)
              ∷ dialled fd ip (port % 2 ^ 16)
              ∷ clocked now
              ∷ [])
            (up since)
    is_refused :
        {since n now t : ℕ} (fd : ℕ)
        → since + pause n ≤ now
        → Move
            (down since n)
            (emitted (tcp_connect_fail ip port (pause (suc n)))
              ∷ clocked t
              ∷ dialled fd ip (port % 2 ^ 16)
              ∷ clocked now
              ∷ [])
            (down t (suc n))
    answers : {since n : ℕ} → Move (dialling since n) [] (up since)
    fails :
        {since n t : ℕ}
        → Move
            (dialling since n)
            (emitted (tcp_connect_fail ip port (pause (suc n))) ∷ clocked t ∷ [])
            (down t (suc n))
    is_lost :
        {since t : ℕ}
        → Move (up since) (emitted (tcp_connect_fail ip port (pause 1)) ∷ clocked t ∷ []) (down t 1)
    is_silent :
        {since t : ℕ}
        → Move
            (up since)
            (emitted (tcp_connect_fail ip port (pause 1))
              ∷ clocked t
              ∷ emitted (heartbeat_timeout ip port)
              ∷ [])
            (down t 1)
    hangs_up : {since : ℕ} → Move (up since) [] (down since 0)
    gives_up : {since n : ℕ} → Move (dialling since n) [] (down since n)

  -- What can be seen up to a state that the machine reaches.
  pub data Trace : List Effect → Link → Type 0 where
    begins : Trace [] (down 0 0)
    moves :
        {seen es : List Effect} {l l' : Link} → Trace seen l → Move l es l' → Trace (es ++ seen) l'

-- Dials and events, with the clock's answers to them; what happens to descriptors otherwise and the bytes are not seen.
abbrev pub seen_of : List Effect → List Effect
seen_of [] = []
seen_of (dialled fd ip port ∷ t) = dialled fd ip port ∷ seen_of t
seen_of (emitted m ∷ t) = emitted m ∷ seen_of t
seen_of (clocked t ∷ es) = clocked t ∷ seen_of es
seen_of (opened _ ∷ t) = seen_of t
seen_of (sent _ _ ∷ t) = seen_of t
seen_of (closed _ ∷ t) = seen_of t
seen_of (unlinked _ ∷ t) = seen_of t

-- The machine's state is that of the client: the state itself, the time of the last attempt, and the
-- failures in a row as the pause that the client has computed from them.
pub data Shows (c : TcpClient) : Link → Type 0 where
  shows_down :
      (failures : ℕ)
      → c.state ≡ disconnected
      → c.backoff_seconds ≡ pause failures
      → Shows c (down c.last_attempt_time failures)
  shows_dialling :
      (failures : ℕ)
      → c.state ≡ connecting
      → c.backoff_seconds ≡ pause failures
      → Shows c (dialling c.last_attempt_time failures)
  shows_up : c.state ≡ connected → c.backoff_seconds ≡ 1 → Shows c (up c.last_attempt_time)
