-- ===== src/Comm/Health.antt =====
-- A connection to the ground station that is in order, in the loop.
mod Client
use mathlib.Core.Path.{subst}
use x_pilot.Base.{
  ℕ, ◌+◌, ◌≤◌, ◌<◌, ◌≡◌, ◌≢◌, inl, inr, refl, sym, Bool-cases, Option-cases, false, Option, none,
  some, List, [], ◌∷◌, All, done, arith, ◌>>=◌, >>=-eq-done, done-injective, if◌then◌else◌,
}
use x_pilot.Platform.{JsonLib, SocketLib}
use x_pilot.Effects.{closes}
use x_pilot.Tcp.{on_data_received, TcpClient, connected}
use x_pilot.Tcp.Sending.{heartbeat, send_heartbeat}
use x_pilot.Tcp.Receiving.{would_block, recv}
use x_pilot.Ipc.{client_recv_frame}
use x_pilot.Comm.Cases.{wait_cases, by_kind, connected_parts}
use x_pilot.Comm.{Comm, reconnect_tcp, reconnect_ipc, beat}
use x_pilot.Comm.Events.{
  tcp_received, Event, tcp_readable, tcp_event, ipc_event, handle, handle_all,
}
use x_pilot.Comm.Rounds.{Round, events, before_wait, main_loop}
use x_pilot.Comm.Health.Client.{
  IsHealthy, IsTaken, send-IsHealthy, send_heartbeat-IsHealthy, check-IsHealthy, recv-IsHealthy,
}

module _ (lib : JsonLib) (sock : SocketLib) (fd heard limit : ℕ) where
  -- Nothing is wrong with the descriptor, the clock does not run backwards, and the kernel takes what is
  -- passed on to the station.
  pub record IsFine (e : Event lib sock) : Type 0 where
    pub whole : e.fd ≡ fd → (e.broken ≡ false) × (e.stop ≡ would_block)
    pub later : heard ≤ e.data_time
    pub taken :
        (j : lib.Json) → (client_recv_frame lib sock e.reads).0 ≡ some j → IsTaken lib e.answer j

  pub record IsFineRound (r : Round lib sock) : Type 0 where
    pub beat_taken : IsTaken lib r.beat_answer (heartbeat lib r.beat_time)
    pub in_time : r.check_time < heard + limit
    pub all_fine : (es : List (Event lib sock)) → r.wait ≡ events es → All IsFine es

module _ (lib : JsonLib) (fd heard limit k : ℕ) where
  module _ (sock : SocketLib) where
    abbrev InOrder : Comm → Type 0
    InOrder c = IsHealthy fd heard limit k c.tcp

    before_wait-InOrder :
        (c : Comm) (r : Round lib sock)
        → heard ≢ 0
        → IsFineRound lib sock fd heard limit r
        → InOrder c
        → InOrder (before_wait lib sock c r)
    unfolding before_wait beat
    before_wait-InOrder c r z f h =
        let d =
          reconnect_ipc (reconnect_tcp c r.connect_env r.add_ok) r.ipc_socket r.ipc_connect_ok in
        let same : d.tcp ≡ c.tcp = unfold reconnect_ipc reconnect_tcp in ground arith in
        check-IsHealthy lib fd heard limit k (send_heartbeat lib d.tcp r.beat_time r.beat_answer)
          r.check_time r.fail_time z f.in_time
          (send_heartbeat-IsHealthy lib fd heard limit k d.tcp r.beat_time r.beat_answer
            f.beat_taken (subst (IsHealthy fd heard limit k) (sym same) h))

    received-InOrder :
        (c : Comm) (e : Event lib sock) (r : TcpClient × Option lib.Json)
        → heard ≤ e.data_time
        → IsHealthy fd heard limit k r.0
        → InOrder (tcp_received lib c e.fd e.data_time e.header e.payload r)
    unfolding tcp_received
    received-InOrder c e (t, none) l h = ground arith
    received-InOrder c e (t, some j) l h = unfold on_data_received in ground arith

    readable-InOrder :
        (c d : Comm) (e : Event lib sock)
        → e.stop ≡ would_block
        → heard ≤ e.data_time
        → InOrder c
        → (if e.readable then tcp_readable lib sock c e else done c) ≡ done d
        → InOrder d
    unfolding tcp_readable
    readable-InOrder c d e w l h r = elim (Bool-cases e.readable) [
      | inl b ↦
          let read : tcp_readable lib sock c e ≡ done d = ground arith in
          let ((t, j), got, rest) =
            >>=-eq-done (recv lib c.tcp e.chunks e.stop e.recv_time)
              (λ r. done (tcp_received lib c e.fd e.data_time e.header e.payload r)) read in
          let stayed : recv lib c.tcp e.chunks would_block e.recv_time ≡ done (t, j) = rw⁻¹ w got in
          subst InOrder (done-injective rest) (
            received-InOrder c e (t, j) l
              (recv-IsHealthy lib fd heard limit k c.tcp t j e.chunks e.recv_time h stayed))
      | inr b ↦ let same : c ≡ d = ground arith in subst InOrder same h
    ]

    tcp_event-InOrder :
        (c d : Comm) (e : Event lib sock)
        → e.fd ≡ fd
        → IsFine lib sock fd heard limit e
        → InOrder c
        → tcp_event lib sock c e ≡ done d
        → InOrder d
    tcp_event-InOrder c d e s f h r =
        let (m, got, end) = connected_parts lib sock c d e h.up r in
        let (unbroken, stays) = f.whole s in
        let same : m ≡ d = ground arith in
        subst InOrder same (readable-InOrder c m e stays f.later h got)

    ipc_event-InOrder :
        (c : Comm) (e : Event lib sock)
        → IsFine lib sock fd heard limit e
        → InOrder c
        → InOrder (ipc_event lib sock c e)
    unfolding ipc_event
    ipc_event-InOrder c e f h = elim (Bool-cases e.readable) [
      | inl r ↦ elim (Option-cases (client_recv_frame lib sock e.reads).0) [
        | inl n ↦ ground arith
        | inr (j, n) ↦
            let s = send-IsHealthy lib fd heard limit k c.tcp j e.answer (f.taken j n) h in
            ground arith
      ]
      | inr r ↦ ground arith
    ]

    handle-InOrder :
        (c c' : Comm) (e : Event lib sock)
        → IsFine lib sock fd heard limit e
        → InOrder c
        → handle lib sock c e ≡ done c'
        → InOrder c'
    handle-InOrder c c' e f h r =
        by_kind lib sock InOrder c c' e (λ t k. tcp_event-InOrder c c' e (ground arith) f h k)
          (ipc_event-InOrder c e f h) h r

    handle_all-InOrder :
        (es : List (Event lib sock)) (c c' : Comm)
        → All (IsFine lib sock fd heard limit) es
        → InOrder c
        → handle_all lib sock c es ≡ done c'
        → InOrder c'
    unfolding handle_all
    handle_all-InOrder [] c c' f h r = subst InOrder (done-injective r) h
    handle_all-InOrder (e ∷ es) c c' f h r =
        let (d, first, later) =
          >>=-eq-done (handle lib sock c e) (λ d. handle_all lib sock d es) r in
        handle_all-InOrder es d c' f.1 (handle-InOrder c d e f.0 h first) later

    pub main_loop-InOrder :
        (rs : List (Round lib sock)) (c c' : Comm)
        → heard ≢ 0
        → All (IsFineRound lib sock fd heard limit) rs
        → InOrder c
        → main_loop lib sock c rs ≡ done c'
        → InOrder c'
    unfolding main_loop
    main_loop-InOrder [] c c' z f h r = subst InOrder (done-injective r) h
    main_loop-InOrder (r ∷ rs) c c' z (f, fs) h e =
        let b = before_wait lib sock c r in
        let h' = before_wait-InOrder c r z f h in
        elim (wait_cases lib sock r.wait) [
          | inl w ↦ let same : b ≡ c' = ground arith in subst InOrder same h'
          | inr (inl w) ↦ main_loop-InOrder rs b c' z fs h' (ground arith)
          | inr (inr (es, w)) ↦
              let (d, first, later) =
                >>=-eq-done (handle_all lib sock b es) (λ d. main_loop lib sock d rs)
                  (ground arith) in
              main_loop-InOrder rs d c' z fs (handle_all-InOrder es b d (f.all_fine es w) h' first)
                later
        ]

module _ (lib : JsonLib) (sock : SocketLib) where
  -- No false alarm: a TCP connection that is up stays up and its descriptor is not closed, as long as each check
  -- comes less than `heartbeat_limit` seconds after the last frame that was there at the start, the kernel
  -- takes what is sent to the station, nothing is wrong with the descriptor and the clock does not run
  -- backwards; whatever arrives otherwise, and whatever happens to the control process.
  pub no_false_alarm :
      (rs : List (Round lib sock)) (c c' : Comm) (fd : ℕ)
      → c.tcp.state ≡ connected
      → c.tcp.sock_fd ≡ some fd
      → c.tcp.last_recv_time ≢ 0
      → All (IsFineRound lib sock fd c.tcp.last_recv_time c.tcp.heartbeat_limit) rs
      → main_loop lib sock c rs ≡ done c'
      → (c'.tcp.state ≡ connected)
        × (c'.tcp.sock_fd ≡ some fd)
        × (closes fd c'.tcp.trace ≡ closes fd c.tcp.trace)
        × (c.tcp.last_recv_time ≤ c'.tcp.last_recv_time)
  no_false_alarm rs c c' fd u s z f h =
      let k = closes fd c.tcp.trace in
      let start : IsHealthy fd c.tcp.last_recv_time c.tcp.heartbeat_limit k c.tcp = record {
        up = u;
        socket = s;
        last = omega arith;
        patience = refl;
        before = refl;
      } in
      let end =
        main_loop-InOrder lib fd c.tcp.last_recv_time c.tcp.heartbeat_limit k sock rs c c' z f start
          h in
      (end.up, end.socket, end.before, end.last)
