-- ===== src/Comm/Timeouts.antt =====
-- The loop closes a connection to the ground station on which no frame arrives any more.
use mathlib.Core.Path.{subst}
use x_pilot.Base.{
  ℕ, ◌+◌, ◌≤◌, ◌<◌, ◌≡◌, ◌≢◌, ◌⊎◌, inl, inr, refl, false, some, List, [], ◌∷◌, ◌++◌, All, done,
  arith, >>=-eq-done, done-injective,
}
use x_pilot.Platform.{JsonLib, SocketLib}
use x_pilot.Effects.{closes}
use x_pilot.Tcp.{TcpClient, connected}
use x_pilot.Tcp.Calls.{AreKept, run_keeps}
use x_pilot.Tcp.Silence.{IsClosedMore, Waits}
use x_pilot.Comm.Cases.{wait_cases}
use x_pilot.Comm.Refinement.{Follows, handle-Follows, after_wait-Follows, before_wait-Follows}
use x_pilot.Comm.{Comm}
use x_pilot.Comm.Events.{Event, handle, handle_all}
use x_pilot.Comm.Rounds.{Round, wait_failed, interrupted_wait, events, before_wait, main_loop}
use x_pilot.Tcp.Receive.{IsDeaf, IsDeaf-AreKept, deaf_now}
use x_pilot.Comm.Silence.{stays_closed, before_wait-Waits, BringsNone, handle-Waits}

module _ (lib : JsonLib) (sock : SocketLib) where
  -- A round that goes on, and brings only events of a kind.
  abbrev pub IsQuietRound : (Event lib sock → Type 0) → Round lib sock → Type 0
  IsQuietRound S r =
      (r.wait ≡ interrupted_wait) ⊎ ((es : List (Event lib sock)) × (r.wait ≡ events es) × All S es)

-- Events of a kind `S` that brings no frame to a client with `Q`, which all calls keep.
module _ (lib : JsonLib) (sock : SocketLib) (fd heard limit k : ℕ) (Q : TcpClient → Type 0)
    (keep : AreKept lib Q) (S : Event lib sock → Type 0)
    (quiet : (c : TcpClient) (e : Event lib sock)
      → Q c
      → S e
      → BringsNone lib sock fd heard limit k c e) where
  abbrev Hopeful : Comm → Type 0
  Hopeful c = Q c.tcp × Waits fd heard limit k c.tcp

  kept : (c c' : TcpClient) → Q c → Follows lib c c' → Q c'
  kept c c' q (es, r) = run_keeps lib Q keep es c c' q r

  handle-Hopeful :
      (c c' : Comm) (e : Event lib sock)
      → Hopeful c
      → S e
      → handle lib sock c e ≡ done c'
      → Hopeful c'
  handle-Hopeful c c' e (q, h) s r =
      let f = handle-Follows lib sock c c' e r in
      (
        kept c.tcp c'.tcp q f,
        elim h [
          | inl w ↦ handle-Waits lib sock fd heard limit k c c' e w (quiet c.tcp e q s) r
          | inr g ↦ inr (stays_closed lib sock fd heard limit k c.tcp c'.tcp g f)
        ],
      )

  handle_all-Hopeful :
      (es : List (Event lib sock)) (c c' : Comm)
      → Hopeful c
      → All S es
      → handle_all lib sock c es ≡ done c'
      → Hopeful c'
  unfolding handle_all
  handle_all-Hopeful [] c c' p s h = subst Hopeful (done-injective h) p
  handle_all-Hopeful (e ∷ es) c c' p s h =
      let (d, first, later) = >>=-eq-done (handle lib sock c e) (λ d. handle_all lib sock d es) h in
      handle_all-Hopeful es d c' (handle-Hopeful c d e p s.0 first) s.1 later

  before_wait-Hopeful :
      (c : Comm) (r : Round lib sock)
      → heard ≢ 0
      → Hopeful c
      → Hopeful (before_wait lib sock c r)
        × (heard + limit ≤ r.check_time → IsClosedMore fd k (before_wait lib sock c r).tcp)
  before_wait-Hopeful c r z (q, h) =
      let f = before_wait-Follows lib sock c r in
      let q' = kept c.tcp (before_wait lib sock c r).tcp q f in
      elim h [
        | inl w ↦ let (h', g) = before_wait-Waits lib sock fd heard limit k c r z w in ((q', h'), g)
        | inr g ↦
            let g' =
              stays_closed lib sock fd heard limit k c.tcp (before_wait lib sock c r).tcp g f in
            ((q', inr g'), λ l. g')
      ]

  loop_closes :
      (rs rs' : List (Round lib sock)) (r : Round lib sock) (c c' : Comm)
      → heard ≢ 0
      → Hopeful c
      → All (IsQuietRound lib sock S) rs
      → heard + limit ≤ r.check_time
      → main_loop lib sock c (rs ++ r ∷ rs') ≡ done c'
      → IsClosedMore fd k c'.tcp
  unfolding main_loop
  loop_closes [] rs' r c c' z p s l h =
      stays_closed lib sock fd heard limit k (before_wait lib sock c r).tcp c'.tcp
        ((before_wait-Hopeful c r z p).1 l) (after_wait-Follows lib sock rs' r c c' h)
  loop_closes (r0 ∷ rs) rs' r c c' z p (inl i, s) l h =
      loop_closes rs rs' r (before_wait lib sock c r0) c' z (before_wait-Hopeful c r0 z p).0 s l
        (ground arith)
  loop_closes (r0 ∷ rs) rs' r c c' z p (inr (es, i, all), s) l h =
      let b = before_wait lib sock c r0 in
      let (d, first, later) =
        >>=-eq-done (handle_all lib sock b es) (λ d. main_loop lib sock d (rs ++ r ∷ rs'))
          (ground arith) in
      loop_closes rs rs' r d c' z
        (handle_all-Hopeful es b d (before_wait-Hopeful c r0 z p).0 all first) s l later

module _ (lib : JsonLib) (sock : SocketLib) where
  -- The event does not say that there is data on the descriptor.
  abbrev pub IsSilent : ℕ → Event lib sock → Type 0
  IsSilent fd e = e.fd ≡ fd → e.readable ≡ false

  any_events : (es : List (Event lib sock)) → All (λ e. Unit {0}) es
  any_events [] = tt
  any_events (e ∷ es) = (tt, any_events es)

  goes_on :
      (rs : List (Round lib sock))
      → All (λ (r : Round lib sock). r.wait ≢ wait_failed) rs
      → All (IsQuietRound lib sock (λ e. Unit {0})) rs
  goes_on [] h = tt
  goes_on (r ∷ rs) (w, h) = (
    elim (wait_cases lib sock r.wait) [
      | inl k ↦ absurd (w k)
      | inr (inl k) ↦ inl k
      | inr (inr (es, k)) ↦ inr (es, k, any_events es)
    ],
    goes_on rs h,
  )

  unit-AreKept : AreKept lib (λ c. Unit {0})
  unit-AreKept = record {
    by_connect = λ c env d p. tt;
    by_result = λ c e t p. tt;
    by_send = λ c j env p. tt;
    by_heartbeat = λ c now env p. tt;
    by_timeout = λ c now t p. tt;
    by_recv = λ c c' j cs stop t p h. tt;
    by_data = λ c now p. tt;
    by_reset = λ c t t' p. tt;
    by_loss = λ c t p. tt;
    by_close = λ c p. tt;
  }

  -- A silent connection does not last: where the TCP connection is up and its last frame came at a time other
  -- than 0, and no event says that there is data on it, the first round whose check comes `heartbeat_limit`
  -- seconds after that frame, or a round before it, closes its descriptor, whatever the rounds meet otherwise
  -- and whatever comes later.
  pub silence_closes :
      (rs rs' : List (Round lib sock)) (r : Round lib sock) (c c' : Comm) (fd : ℕ)
      → c.tcp.state ≡ connected
      → c.tcp.sock_fd ≡ some fd
      → c.tcp.last_recv_time ≢ 0
      → All (IsQuietRound lib sock (IsSilent fd)) rs
      → c.tcp.last_recv_time + c.tcp.heartbeat_limit ≤ r.check_time
      → main_loop lib sock c (rs ++ r ∷ rs') ≡ done c'
      → closes fd c.tcp.trace < closes fd c'.tcp.trace
  silence_closes rs rs' r c c' fd u s z q l h =
      loop_closes lib sock fd c.tcp.last_recv_time c.tcp.heartbeat_limit (closes fd c.tcp.trace)
        (λ t. Unit {0}) unit-AreKept (IsSilent fd) (λ d e p k t j m n o. let x = k m in cc) rs rs' r
        c c' z
        (tt, inl (record { up = u; socket = s; last = refl; patience = refl; before = refl })) q l h

  -- Once a header of more than 1 MiB stands at the front of the buffer, the connection does not last either,
  -- whatever the station sends: while `epoll_wait` works, the first round whose check comes
  -- `heartbeat_limit` seconds after the last frame, or a round before it, closes its descriptor.
  pub deaf_closes :
      (rs rs' : List (Round lib sock)) (r : Round lib sock) (c c' : Comm) (fd : ℕ)
      → c.tcp.state ≡ connected
      → c.tcp.sock_fd ≡ some fd
      → c.tcp.last_recv_time ≢ 0
      → IsDeaf c.tcp
      → All (λ (r : Round lib sock). r.wait ≢ wait_failed) rs
      → c.tcp.last_recv_time + c.tcp.heartbeat_limit ≤ r.check_time
      → main_loop lib sock c (rs ++ r ∷ rs') ≡ done c'
      → closes fd c.tcp.trace < closes fd c'.tcp.trace
  deaf_closes rs rs' r c c' fd u s z x q l h =
      loop_closes lib sock fd c.tcp.last_recv_time c.tcp.heartbeat_limit (closes fd c.tcp.trace)
        IsDeaf (IsDeaf-AreKept lib) (λ e. Unit {0})
        (λ d e p k t j m n o. deaf_now lib d t e.chunks e.stop e.recv_time j p o) rs rs' r c c' z
        (x, inl (record { up = u; socket = s; last = refl; patience = refl; before = refl }))
        (goes_on rs q) l h
