-- ===== src/Comm/Cases.antt =====
-- The branches of the loop of the communication process, as rules.
use mathlib.Core.Path.{subst}
use x_pilot.Base.{
  ◌≡◌, ◌⊎◌, inl, inr, refl, true, Bool-cases, List, done, >>=-eq-done, done-injective, arith,
  if◌then◌else◌,
}
use x_pilot.Platform.{JsonLib, SocketLib}
use x_pilot.Tcp.{connected}
use x_pilot.Comm.{Comm}
use x_pilot.Comm.Events.{
  Event, tcp_writable, tcp_readable, tcp_broken, tcp_event, ipc_event, handle, is_fd,
}
use x_pilot.Comm.Rounds.{Wait, wait_failed, interrupted_wait, events}

module _ (lib : JsonLib) (sock : SocketLib) where
  pub wait_cases :
      (w : Wait lib sock)
      → (w ≡ wait_failed)
        ⊎ ((w ≡ interrupted_wait) ⊎ ((es : List (Event lib sock)) × (w ≡ events es)))
  wait_cases wait_failed = inl refl
  wait_cases interrupted_wait = inr (inl refl)
  wait_cases (events es) = inr (inr (es, refl))

  -- What both kinds of events bring about, and what holds where the event is nobody's.
  pub by_kind :
      (P : Comm → Type 0) (c c' : Comm) (e : Event lib sock)
      → (is_fd lib sock c.tcp.sock_fd e.fd ≡ true → tcp_event lib sock c e ≡ done c' → P c')
      → P (ipc_event lib sock c e)
      → P c
      → handle lib sock c e ≡ done c'
      → P c'
  unfolding handle
  by_kind P c c' e tcp ipc nobody h = elim (Bool-cases (is_fd lib sock c.tcp.sock_fd e.fd)) [
    | inl k ↦ tcp k (ground arith)
    | inr k ↦ elim (Bool-cases (is_fd lib sock c.ipc.sock_fd e.fd)) [
      | inl l ↦ let q : ipc_event lib sock c e ≡ c' = ground arith in subst P q ipc
      | inr l ↦ let q : c ≡ c' = ground arith in subst P q nobody
    ]
  ]

  -- An event on a connection that is up: the part for writable sockets does nothing.
  pub connected_parts :
      (c d : Comm) (e : Event lib sock)
      → c.tcp.state ≡ connected
      → tcp_event lib sock c e ≡ done d
      → (m : Comm) × ((if e.readable then tcp_readable lib sock c e else done c) ≡ done m)
        × ((if e.broken then tcp_broken lib m e.fd e.broken_time else m) ≡ d)
  unfolding tcp_event
  connected_parts c d e up h =
      let one : Comm =
        if e.writable
        then tcp_writable lib c e.fd e.so_error e.result_time e.reset_send e.reset_recv
        else c in
      let same : one ≡ c = unfold tcp_writable in ground arith in
      let (m, got, rest) =
        >>=-eq-done (if e.readable then tcp_readable lib sock one e else done one)
          (λ d. done (if e.broken then tcp_broken lib d e.fd e.broken_time else d)) h in
      (
        m,
        subst (λ (x : Comm). (if e.readable then tcp_readable lib sock x e else done x) ≡ done m)
            same got,
        done-injective rest,
      )
