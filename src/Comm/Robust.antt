-- ===== src/Comm/Robust.antt =====
-- When the loop of the communication process ends by an exception.
use x_pilot.Base.{
  ◌≡◌, ◌↔◌, true, inl, inr, refl, Bool-cases, List, [], ◌∷◌, done, threw, arith, >>=-eq-threw,
  if◌then◌else◌,
}
use x_pilot.Platform.{JsonLib, SocketLib}
use x_pilot.Tcp.Receiving.{recv}
use x_pilot.Comm.Cases.{wait_cases}
use x_pilot.Comm.{Comm}
use x_pilot.Comm.Events.{
  Event, tcp_writable, tcp_received, tcp_readable, tcp_broken, tcp_event, handle, handle_all, is_fd,
}
use x_pilot.Comm.Rounds.{Round, events, interrupted_wait, before_wait, main_loop}
use x_pilot.Comm.Poison.{IsReadToDeath, recv-IsReadToDeath, read_to_death}

module _ (lib : JsonLib) where
  module _ (sock : SocketLib) where
    -- The state in which an event is read: after its part for writable sockets.
    abbrev pub at_read : Comm → Event lib sock → Comm
    at_read c e =
        if e.writable
        then tcp_writable lib c e.fd e.so_error e.result_time e.reset_send e.reset_recv
        else c

    -- The event is for the TCP connection, and what is read kills the client.
    pub record IsKilledBy (c : Comm) (e : Event lib sock) : Type 0 where
      pub own : is_fd lib sock c.tcp.sock_fd e.fd ≡ true
      pub readable : e.readable ≡ true
      pub read : IsReadToDeath lib (at_read c e).tcp e.chunks e.stop

    readable_threw :
        (c : Comm) (e : Event lib sock)
        → (if e.readable then tcp_readable lib sock c e else done c) ≡ threw
        → (e.readable ≡ true) × IsReadToDeath lib c.tcp e.chunks e.stop
    unfolding tcp_readable
    readable_threw c e h = elim (Bool-cases e.readable) [
      | inl r ↦
          let read : tcp_readable lib sock c e ≡ threw = ground arith in
          elim (>>=-eq-threw (recv lib c.tcp e.chunks e.stop e.recv_time)
            (λ r. done (tcp_received lib c e.fd e.data_time e.header e.payload r)) read) [
              | inl k ↦ (r, recv-IsReadToDeath lib c.tcp e.chunks e.stop e.recv_time k)
              | inr (x, got, k) ↦ cc
            ]
      | inr r ↦ absurd (ground arith)
    ]

    tcp_event_threw :
        (c : Comm) (e : Event lib sock)
        → is_fd lib sock c.tcp.sock_fd e.fd ≡ true
        → tcp_event lib sock c e ≡ threw
        → IsKilledBy c e
    unfolding tcp_event
    tcp_event_threw c e own h =
        let one = at_read c e in
        elim (>>=-eq-threw (if e.readable then tcp_readable lib sock one e else done one)
          (λ d. done (if e.broken then tcp_broken lib d e.fd e.broken_time else d)) h) [
            | inl k ↦
                let (r, d) = readable_threw one e k in record { own = own; readable = r; read = d }
            | inr (x, got, k) ↦ cc
          ]

    handle_threw : (c : Comm) (e : Event lib sock) → handle lib sock c e ≡ threw → IsKilledBy c e
    unfolding handle
    handle_threw c e h = elim (Bool-cases (is_fd lib sock c.tcp.sock_fd e.fd)) [
      | inl t ↦ tcp_event_threw c e t (ground arith)
      | inr t ↦ absurd (ground arith)
    ]

    handle_throws : (c : Comm) (e : Event lib sock) → IsKilledBy c e → handle lib sock c e ≡ threw
    unfolding handle tcp_event tcp_readable
    handle_throws c e d =
        rw (d.own, d.readable)
          let k = read_to_death lib (at_read c e).tcp e.chunks e.stop e.recv_time d.read in
            rw k refl

    -- The events are handled in order, up to one that kills the client.
    pub data AreKilling : Comm → List (Event lib sock) → Type 0 where
      this :
          (c : Comm) (e : Event lib sock) (es : List (Event lib sock))
          → IsKilledBy c e
          → AreKilling c (e ∷ es)
      next :
          (c d : Comm) (e : Event lib sock) (es : List (Event lib sock))
          → handle lib sock c e ≡ done d
          → AreKilling d es
          → AreKilling c (e ∷ es)

    handle_all_threw :
        (es : List (Event lib sock)) (c : Comm) → handle_all lib sock c es ≡ threw → AreKilling c es
    unfolding handle_all
    handle_all_threw [] c h = cc
    handle_all_threw (e ∷ es) c h =
        elim (>>=-eq-threw (handle lib sock c e) (λ d. handle_all lib sock d es) h) [
          | inl k ↦ this c e es (handle_threw c e k)
          | inr (d, first, k) ↦ next c d e es first (handle_all_threw es d k)
        ]

    handle_all_throws :
        (es : List (Event lib sock)) (c : Comm) → AreKilling c es → handle_all lib sock c es ≡ threw
    unfolding handle_all
    handle_all_throws _ _ (this c e es k) = rw (handle_throws c e k) refl
    handle_all_throws _ _ (next c d e es first k) = rw first (handle_all_throws es d k)

    -- The rounds are made in order, up to one whose events kill the client.
    pub data IsKilledIn : Comm → List (Round lib sock) → Type 0 where
      in_this :
          (c : Comm) (r : Round lib sock) (rs : List (Round lib sock)) (es : List (Event lib sock))
          → r.wait ≡ events es
          → AreKilling (before_wait lib sock c r) es
          → IsKilledIn c (r ∷ rs)
      behind_interrupted :
          (c : Comm) (r : Round lib sock) (rs : List (Round lib sock))
          → r.wait ≡ interrupted_wait
          → IsKilledIn (before_wait lib sock c r) rs
          → IsKilledIn c (r ∷ rs)
      behind :
          (c d : Comm) (r : Round lib sock) (rs : List (Round lib sock))
          (es : List (Event lib sock))
          → r.wait ≡ events es
          → handle_all lib sock (before_wait lib sock c r) es ≡ done d
          → IsKilledIn d rs
          → IsKilledIn c (r ∷ rs)

    loop_threw :
        (rs : List (Round lib sock)) (c : Comm) → main_loop lib sock c rs ≡ threw → IsKilledIn c rs
    unfolding main_loop
    loop_threw [] c h = cc
    loop_threw (r ∷ rs) c h =
        let b = before_wait lib sock c r in
        elim (wait_cases lib sock r.wait) [
          | inl w ↦ absurd (ground arith)
          | inr (inl w) ↦ behind_interrupted c r rs w (loop_threw rs b (ground arith))
          | inr (inr (es, w)) ↦
              elim (>>=-eq-threw (handle_all lib sock b es) (λ d. main_loop lib sock d rs)
                (ground arith)) [
                  | inl k ↦ in_this c r rs es w (handle_all_threw es b k)
                  | inr (d, first, k) ↦ behind c d r rs es w first (loop_threw rs d k)
                ]
        ]

    loop_throws :
        (rs : List (Round lib sock)) (c : Comm) → IsKilledIn c rs → main_loop lib sock c rs ≡ threw
    unfolding main_loop
    loop_throws _ _ (in_this c r rs es w k) =
        rw (w, handle_all_throws es (before_wait lib sock c r) k) refl
    loop_throws _ _ (behind_interrupted c r rs w k) =
        rw w (loop_throws rs (before_wait lib sock c r) k)
    loop_throws _ _ (behind c d r rs es w first k) = rw (w, first) (loop_throws rs d k)

    -- Only a number that no double holds ends the loop by an exception, and it always does: the loop throws
    -- exactly if, with its rounds made and their events handled in order, an event for the TCP connection
    -- comes that is readable while the descriptor is open and the peer stays, whose data, behind what the client
    -- has in its buffer right then, completes frames that are no JSON text and behind them the frame of a
    -- text with such a number. In every other case the loop returns.
    pub main_loop_threw :
        (rs : List (Round lib sock)) (c : Comm)
        → (main_loop lib sock c rs ≡ threw) ↔ IsKilledIn c rs
    main_loop_threw rs c = (loop_threw rs c, loop_throws rs c)
