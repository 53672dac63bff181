-- ===== src/Comm/Epoll.antt =====
-- The descriptor of epoll itself, through the rounds of the loop.
use mathlib.Core.Path.{subst}
use x_pilot.Base.{
  ℕ, ◌≡◌, refl, ◌∙◌, Option, none, some, List, [], ◌∷◌, ◌+◌, ◌==◌, Bool-cases, inl, inr,
  if◌then◌else◌, done, >>=-eq-done, done-injective, arith,
}
use x_pilot.Platform.{JsonLib, SocketLib}
use x_pilot.Tcp.{TcpClient}
use x_pilot.Tcp.Receiving.{recv}
use x_pilot.Comm.{Comm, Poll, watching, unwatched, reconnect_tcp, reconnect_ipc, beat}
use x_pilot.Comm.Events.{
  tcp_writable, tcp_received, tcp_broken, Event, tcp_readable, tcp_event, ipc_event,
}
use x_pilot.Comm.Rounds.{Round, before_wait, main_loop}
use x_pilot.Comm.Loop.{main_loop-keeps}

module _ (fd : ℕ) where
  -- How often epoll gave out the descriptor, and how often it was closed.
  abbrev pub watches : List Poll → ℕ
  watches [] = 0
  watches (watching x ∷ ps) = (if x == fd then 1 else 0) + watches ps
  watches (_ ∷ ps) = watches ps

  abbrev pub unwatches : List Poll → ℕ
  unwatches [] = 0
  unwatches (unwatched x ∷ ps) = (if x == fd then 1 else 0) + unwatches ps
  unwatches (_ ∷ ps) = unwatches ps

  abbrev pub KeepsEpoll : Comm → Comm → Type 0
  KeepsEpoll c c' = (watches c'.polls ≡ watches c.polls) × (unwatches c'.polls ≡ unwatches c.polls)

  module _ (lib : JsonLib) (sock : SocketLib) where
    then-KeepsEpoll : (a b c : Comm) → KeepsEpoll a b → KeepsEpoll b c → KeepsEpoll a c
    then-KeepsEpoll a b c f g = (g.0 ∙ f.0, g.1 ∙ f.1)

    before_wait-KeepsEpoll :
        (c : Comm) (r : Round lib sock) → KeepsEpoll c (before_wait lib sock c r)
    unfolding before_wait reconnect_tcp reconnect_ipc beat
    before_wait-KeepsEpoll c r = ground arith

    received-KeepsEpoll :
        (c : Comm) (x now : ℕ) (h p : Option ℕ) (t : TcpClient) (o : Option lib.Json)
        → KeepsEpoll c (tcp_received lib c x now h p (t, o))
    unfolding tcp_received
    received-KeepsEpoll c x now h p t none = ground arith
    received-KeepsEpoll c x now h p t (some j) = ground arith

    readable-KeepsEpoll :
        (c d : Comm) (e : Event lib sock) → tcp_readable lib sock c e ≡ done d → KeepsEpoll c d
    unfolding tcp_readable
    readable-KeepsEpoll c d e k =
        let (r, got, rest) =
          >>=-eq-done (recv lib c.tcp e.chunks e.stop e.recv_time)
            (λ r. done (tcp_received lib c e.fd e.data_time e.header e.payload r)) k in
        subst (KeepsEpoll c) (done-injective rest)
          (received-KeepsEpoll c e.fd e.data_time e.header e.payload r.0 r.1)

    tcp_event-KeepsEpoll :
        (c c' : Comm) (e : Event lib sock) → tcp_event lib sock c e ≡ done c' → KeepsEpoll c c'
    unfolding tcp_event tcp_writable tcp_broken
    tcp_event-KeepsEpoll c c' e k =
        let one : Comm =
          if e.writable
          then tcp_writable lib c e.fd e.so_error e.result_time e.reset_send e.reset_recv
          else c in
        let (d, got, rest) =
          >>=-eq-done (if e.readable then tcp_readable lib sock one e else done one)
            (λ d. done (if e.broken then tcp_broken lib d e.fd e.broken_time else d)) k in
        elim (Bool-cases e.readable) [
          | inl r ↦ ground (arith, readable-KeepsEpoll one d e (ground arith))
          | inr r ↦ ground arith
        ]

    ipc_event-KeepsEpoll : (c : Comm) (e : Event lib sock) → KeepsEpoll c (ipc_event lib sock c e)
    unfolding ipc_event
    ipc_event-KeepsEpoll c e = ground arith

    pub main_loop-KeepsEpoll :
        (rs : List (Round lib sock)) (c c' : Comm)
        → main_loop lib sock c rs ≡ done c'
        → KeepsEpoll c c'
    main_loop-KeepsEpoll = main_loop-keeps lib sock KeepsEpoll (record {
      same = λ c. (refl, refl);
      both = then-KeepsEpoll;
      wait = before_wait-KeepsEpoll;
      tcp = tcp_event-KeepsEpoll;
      ipc = ipc_event-KeepsEpoll;
    })
