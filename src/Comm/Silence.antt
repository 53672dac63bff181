-- ===== src/Comm/Silence.antt =====
-- A connection to the ground station on which no frame arrives any more, in the loop.
use mathlib.Core.Path.{subst}
use x_pilot.Base.{
  ℕ, ◌+◌, ◌≤◌, ◌≡◌, ◌≢◌, inl, inr, refl, sym, Bool, Bool-cases, Option-cases, true, false, Option,
  none, some, [], ◌∷◌, done, arith, >>=-eq-done, done-injective, if◌then◌else◌,
}
use x_pilot.Platform.{JsonLib, SocketLib}
use x_pilot.Tcp.{TcpClient, on_disconnected, check_heartbeat_timeout, connected}
use x_pilot.Tcp.Sending.{send_heartbeat}
use x_pilot.Tcp.Receiving.{recv}
use x_pilot.Tcp.Calls.{checks_timeout, loses_peer, step, run}
use x_pilot.Tcp.Silence.{
  IsClosedMore, IsWaiting, Waits, run-IsClosedMore, on_disconnected-closes,
  check_heartbeat_timeout-closes, check_heartbeat_timeout-Waits, send-Waits, send_heartbeat-Waits,
  recv-Waits,
}
use x_pilot.Ipc.{client_recv_frame}
use x_pilot.Comm.Refinement.{Follows}
use x_pilot.Comm.Cases.{by_kind, connected_parts}
use x_pilot.Comm.{Comm, reconnect_tcp, reconnect_ipc, beat}
use x_pilot.Comm.Events.{
  tcp_received, tcp_broken, Event, tcp_readable, tcp_event, ipc_event, handle,
}
use x_pilot.Comm.Rounds.{Round, before_wait}

module _ (lib : JsonLib) (sock : SocketLib) (fd heard limit k : ℕ) where
  abbrev Hopes : Comm → Type 0
  Hopes c = Waits fd heard limit k c.tcp

  pub stays_closed :
      (c c' : TcpClient) → IsClosedMore fd k c → Follows lib c c' → IsClosedMore fd k c'
  stays_closed c c' h (es, r) = run-IsClosedMore fd k lib es c c' h r

  reconnected :
      (c : Comm) (r : Round lib sock)
      → c.tcp.state ≡ connected
      → (reconnect_ipc (reconnect_tcp c r.connect_env r.add_ok) r.ipc_socket r.ipc_connect_ok).tcp
        ≡ c.tcp
  unfolding reconnect_ipc reconnect_tcp
  reconnected c r h = ground arith

  -- The checks of a round.
  beat-Waits :
      (c : Comm) (r : Round lib sock)
      → heard ≢ 0
      → IsWaiting fd heard limit k c.tcp
      → Hopes (beat lib c r.beat_time r.beat_answer r.check_time r.fail_time)
        × (heard + limit ≤ r.check_time
            → IsClosedMore fd k (beat lib c r.beat_time r.beat_answer r.check_time r.fail_time).tcp)
  unfolding beat run step
  beat-Waits c r z w =
      let t = send_heartbeat lib c.tcp r.beat_time r.beat_answer in
      elim (send_heartbeat-Waits fd heard limit k lib c.tcp r.beat_time r.beat_answer w) [
        | inl w' ↦ (
          check_heartbeat_timeout-Waits fd heard limit k t r.check_time r.fail_time z w',
          λ l. check_heartbeat_timeout-closes fd heard limit k t r.check_time r.fail_time z l w',
        )
        | inr g ↦
            let g' =
              stays_closed t (check_heartbeat_timeout t r.check_time r.fail_time) g
                (checks_timeout r.check_time r.fail_time ∷ [], refl) in
            (inr g', λ l. g')
      ]

  pub before_wait-Waits :
      (c : Comm) (r : Round lib sock)
      → heard ≢ 0
      → IsWaiting fd heard limit k c.tcp
      → Hopes (before_wait lib sock c r)
        × (heard + limit ≤ r.check_time → IsClosedMore fd k (before_wait lib sock c r).tcp)
  unfolding before_wait
  before_wait-Waits c r z w =
      let d =
        reconnect_ipc (reconnect_tcp c r.connect_env r.add_ok) r.ipc_socket r.ipc_connect_ok in
      beat-Waits d r z (subst (IsWaiting fd heard limit k) (sym (reconnected c r w.up)) w)

  broken-Waits :
      (b : Bool) (c : Comm) (t : ℕ) → Hopes c → Hopes (if b then tcp_broken lib c fd t else c)
  unfolding tcp_broken run step
  broken-Waits true c t (inl w) = inr (on_disconnected-closes fd heard limit k c.tcp t w)
  broken-Waits true c t (inr g) =
      inr (stays_closed c.tcp (on_disconnected c.tcp t) g (loses_peer t ∷ [], refl))
  broken-Waits false c t h = h

  received-Waits :
      (c : Comm) (e : Event lib sock) (r : TcpClient × Option lib.Json)
      → Waits fd heard limit k r.0
      → r.1 ≡ none
      → Hopes (tcp_received lib c e.fd e.data_time e.header e.payload r)
  unfolding tcp_received
  received-Waits c e (t, none) h n = ground arith
  received-Waits c e (t, some j) h n = cc

  -- No frame comes in with the event.
  abbrev pub BringsNone : TcpClient → Event lib sock → Type 0
  BringsNone c e =
      (t : TcpClient) (j : Option lib.Json)
      → e.fd ≡ fd
      → e.readable ≡ true
      → recv lib c e.chunks e.stop e.recv_time ≡ done (t, j)
      → j ≡ none

  readable-Waits :
      (c d : Comm) (e : Event lib sock)
      → e.fd ≡ fd
      → IsWaiting fd heard limit k c.tcp
      → BringsNone c.tcp e
      → (if e.readable then tcp_readable lib sock c e else done c) ≡ done d
      → Hopes d
  unfolding tcp_readable
  readable-Waits c d e s w q h = elim (Bool-cases e.readable) [
    | inl r ↦
        let read : tcp_readable lib sock c e ≡ done d = ground arith in
        let ((t, j), got, rest) =
          >>=-eq-done (recv lib c.tcp e.chunks e.stop e.recv_time)
            (λ r. done (tcp_received lib c e.fd e.data_time e.header e.payload r)) read in
        let nothing = q t j s r got in
        let left : recv lib c.tcp e.chunks e.stop e.recv_time ≡ done (t, none) = cc in
        subst Hopes (done-injective rest) (
          received-Waits c e (t, j)
            (recv-Waits fd heard limit k lib c.tcp t e.chunks e.stop e.recv_time w left) nothing)
    | inr r ↦ let same : c ≡ d = ground arith in subst Hopes same (inl w)
  ]

  tcp_event-Waits :
      (c d : Comm) (e : Event lib sock)
      → e.fd ≡ fd
      → IsWaiting fd heard limit k c.tcp
      → BringsNone c.tcp e
      → tcp_event lib sock c e ≡ done d
      → Hopes d
  tcp_event-Waits c d e s w q h =
      let (m, got, end) = connected_parts lib sock c d e w.up h in
      subst Hopes end (
        subst (λ x. Hopes (if e.broken then tcp_broken lib m x e.broken_time else m)) (sym s)
          (broken-Waits e.broken m e.broken_time (readable-Waits c m e s w q got)))

  ipc_event-Waits :
      (c : Comm) (e : Event lib sock)
      → IsWaiting fd heard limit k c.tcp
      → Hopes (ipc_event lib sock c e)
  unfolding ipc_event
  ipc_event-Waits c e w = elim (Bool-cases e.readable) [
    | inl r ↦ elim (Option-cases (client_recv_frame lib sock e.reads).0) [
      | inl n ↦ ground arith
      | inr (j, n) ↦ let s = send-Waits fd heard limit k lib c.tcp j e.answer w in ground arith
    ]
    | inr r ↦ ground arith
  ]

  pub handle-Waits :
      (c c' : Comm) (e : Event lib sock)
      → IsWaiting fd heard limit k c.tcp
      → BringsNone c.tcp e
      → handle lib sock c e ≡ done c'
      → Hopes c'
  handle-Waits c c' e w q h =
      by_kind lib sock Hopes c c' e (λ t k. tcp_event-Waits c c' e (ground arith) w q k)
        (ipc_event-Waits c e w) (inl w) h
