-- ===== src/Comm/Reconnection.antt =====
-- What becomes of the connection to the control process.
use x_pilot.Base.{
  ℕ, suc, ◌≡◌, Option, inl, inr, refl, ◌∙◌, Bool-cases, true, some, none, List, [], ◌∷◌, String,
  done, >>=-eq-done, done-injective, arith, if◌then◌else◌,
}
use x_pilot.Platform.{JsonLib, SocketLib}
use mathlib.Core.Path.{subst}
use x_pilot.Tcp.{TcpClient}
use x_pilot.Tcp.Receiving.{recv}
use x_pilot.Ipc.Agreement.{sock_fd-client_send}
use x_pilot.Ipc.{connect_to_server}
use x_pilot.Comm.{
  Comm, Poll, added_tcp, added_ipc, in_only, removed, watching, unwatched, start, reconnect_tcp,
  reconnect_ipc, beat,
}
use x_pilot.Comm.Events.{
  tcp_writable, tcp_received, tcp_broken, Event, tcp_readable, tcp_event, ipc_event,
}
use x_pilot.Comm.Rounds.{Round, before_wait, main_loop}
use x_pilot.Comm.Loop.{main_loop-keeps}

-- How often a descriptor of the IPC client was handed to epoll.
abbrev pub ipc_adds : List Poll → ℕ
ipc_adds [] = 0
ipc_adds (added_ipc fd ∷ ps) = suc (ipc_adds ps)
ipc_adds (added_tcp fd ∷ ps) = ipc_adds ps
ipc_adds (in_only fd ∷ ps) = ipc_adds ps
ipc_adds (removed fd ∷ ps) = ipc_adds ps
ipc_adds (watching fd ∷ ps) = ipc_adds ps
ipc_adds (unwatched fd ∷ ps) = ipc_adds ps

-- Where the IPC client of the first has a descriptor, the second has the same one, and epoll was given no
-- new one.
abbrev pub KeepsIpc : Comm → Comm → Type 0
KeepsIpc c c' =
    (fd : ℕ)
    → c.ipc.sock_fd ≡ some fd
    → (c'.ipc.sock_fd ≡ some fd) × (ipc_adds c'.polls ≡ ipc_adds c.polls)

module _ (lib : JsonLib) (sock : SocketLib) where
  then-KeepsIpc : (a b c : Comm) → KeepsIpc a b → KeepsIpc b c → KeepsIpc a c
  then-KeepsIpc a b c f g fd h = let (s, n) = f fd h in let (s', n') = g fd s in (s', n' ∙ n)

  before_wait-KeepsIpc : (c : Comm) (r : Round lib sock) → KeepsIpc c (before_wait lib sock c r)
  unfolding before_wait reconnect_tcp reconnect_ipc beat
  before_wait-KeepsIpc c r fd h = ground arith

  received-KeepsIpc :
      (c : Comm) (fd now : ℕ) (h p : Option ℕ) (t : TcpClient) (o : Option lib.Json)
      → KeepsIpc c (tcp_received lib c fd now h p (t, o))
  unfolding tcp_received
  received-KeepsIpc c fd now h p t none x s = ground arith
  received-KeepsIpc c fd now h p t (some j) x s =
      ground (arith, sock_fd-client_send lib c.ipc j h p)

  tcp_received-KeepsIpc :
      (c d : Comm) (e : Event lib sock) → tcp_readable lib sock c e ≡ done d → KeepsIpc c d
  unfolding tcp_readable
  tcp_received-KeepsIpc c d e k =
      let (r, got, rest) =
        >>=-eq-done (recv lib c.tcp e.chunks e.stop e.recv_time)
          (λ r. done (tcp_received lib c e.fd e.data_time e.header e.payload r)) k in
      subst (KeepsIpc c) (done-injective rest)
        (received-KeepsIpc c e.fd e.data_time e.header e.payload r.0 r.1)

  tcp_event-KeepsIpc :
      (c c' : Comm) (e : Event lib sock) → tcp_event lib sock c e ≡ done c' → KeepsIpc c c'
  unfolding tcp_event tcp_writable tcp_broken
  tcp_event-KeepsIpc c c' e k fd h =
      let one : Comm =
        if e.writable
        then tcp_writable lib c e.fd e.so_error e.result_time e.reset_send e.reset_recv
        else c in
      let (d, got, rest) =
        >>=-eq-done (if e.readable then tcp_readable lib sock one e else done one)
          (λ d. done (if e.broken then tcp_broken lib d e.fd e.broken_time else d)) k in
      elim (Bool-cases e.readable) [
        | inl r ↦ ground (arith, tcp_received-KeepsIpc one d e (ground arith) fd (ground arith))
        | inr r ↦ ground arith
      ]

  ipc_event-KeepsIpc : (c : Comm) (e : Event lib sock) → KeepsIpc c (ipc_event lib sock c e)
  unfolding ipc_event
  ipc_event-KeepsIpc c e fd h = ground arith

  -- Once the IPC client has connected, no round of the loop connects it again or hands a descriptor of it
  -- to epoll, whatever happens to the connection: its descriptor is the same for ever.
  pub ipc_never_reconnects :
      (rs : List (Round lib sock)) (c c' : Comm) (fd : ℕ)
      → main_loop lib sock c rs ≡ done c'
      → c.ipc.sock_fd ≡ some fd
      → (c'.ipc.sock_fd ≡ some fd) × (ipc_adds c'.polls ≡ ipc_adds c.polls)
  ipc_never_reconnects rs c c' fd h =
      main_loop-keeps lib sock KeepsIpc
        (record {
          same = λ c fd h. (h, refl);
          both = then-KeepsIpc;
          wait = before_wait-KeepsIpc;
          tcp = tcp_event-KeepsIpc;
          ipc = ipc_event-KeepsIpc;
        })
        rs c c' h fd

  -- Where the IPC client connects before the loop, its descriptor is never handed to epoll,
  -- whatever the rounds of the loop meet.
  pub first_connection_unwatched :
      (ip : String) (port fd : ℕ) (rs : List (Round lib sock)) (c : Comm)
      → main_loop lib sock (start ip port (some fd) true) rs ≡ done c
      → (c.ipc.sock_fd ≡ some fd) × (ipc_adds c.polls ≡ 0)
  unfolding start connect_to_server
  first_connection_unwatched ip port fd rs c h =
      ipc_never_reconnects rs (start ip port (some fd) true) c fd h refl
