-- ===== src/Comm/Refinement.antt =====
-- The loop of the communication process as a history of calls on its TCP client.
use mathlib.Core.Path.{subst}
use x_pilot.Base.{
  ℕ, ◌≡◌, Option-cases, inl, inr, refl, sym, Bool, Bool-cases, true, false, Option, some, none,
  List, [], ◌∷◌, done, >>=-eq-done, done-injective, arith, if◌then◌else◌,
}
use x_pilot.Platform.{JsonLib, SocketLib}
use x_pilot.Tcp.{
  TcpClient, ConnectEnv, is_disconnected, is_connecting, is_connected, try_connect,
  check_connection_result,
}
use x_pilot.Tcp.Sending.{SendEnv}
use x_pilot.Tcp.Receiving.{recv}
use x_pilot.Tcp.Calls.{
  Call, reconnects, checks_result, sends, beats, checks_timeout, receives, notes_data, resets_timer,
  loses_peer, closes_socket, step, run,
}
use x_pilot.Ipc.{client_recv_frame}
use x_pilot.Comm.Loop.{
  IsRespected, handle-keeps, handle_all-keeps, main_loop-keeps, after_wait-keeps,
}
use x_pilot.Comm.{Comm, reconnect_tcp, reconnect_ipc, beat}
use x_pilot.Comm.Events.{
  tcp_writable, tcp_received, tcp_broken, Event, tcp_readable, tcp_event, ipc_event, handle,
  handle_all,
}
use x_pilot.Comm.Rounds.{Round, before_wait, main_loop}

module _ (lib : JsonLib) where
  open lib use {Json}

  -- Some calls lead from the first client to the second.
  abbrev pub Follows : TcpClient → TcpClient → Type 0
  Follows c c' = (es : List (Call lib)) × (run lib c es ≡ done c')

  follow :
      (es : List (Call lib)) (a b c : TcpClient) → run lib a es ≡ done b → Follows b c → Follows a c
  unfolding run
  follow [] a b c h f = subst (λ x. Follows x c) (sym (done-injective h)) f
  follow (e ∷ es) a b c h f =
      let (d, first, later) = >>=-eq-done (step lib a e) (λ d. run lib d es) h in
      let (fs, g) = follow es d b c later f in (e ∷ fs, rw first g)

  pub stay : (c : TcpClient) → Follows c c
  unfolding run
  stay c = ([], refl)

  once : (c c' : TcpClient) (e : Call lib) → step lib c e ≡ done c' → Follows c c'
  unfolding run
  once c c' e h = (e ∷ [], rw h refl)

  pub and_then : (a b c : TcpClient) → Follows a b → Follows b c → Follows a c
  and_then a b c f g = follow f.0 a b c f.1 g

  reconnect_tcp-Follows :
      (c : Comm) (env : ConnectEnv) (ok : Bool) → Follows c.tcp (reconnect_tcp c env ok).tcp
  unfolding reconnect_tcp run step
  reconnect_tcp-Follows c env true = (reconnects env ∷ [], ground arith)
  reconnect_tcp-Follows c env false = elim (Bool-cases (is_disconnected c.tcp.state)) [
    | inl e ↦ elim (Bool-cases (is_disconnected (try_connect c.tcp env).state)) [
      | inl k ↦ (reconnects env ∷ [], ground arith)
      | inr k ↦ (reconnects env ∷ closes_socket ∷ [], ground arith)
    ]
    | inr e ↦ (reconnects env ∷ [], ground arith)
  ]

  reconnect_ipc-Follows :
      (c : Comm) (socket : Option ℕ) (ok : Bool) → Follows c.tcp (reconnect_ipc c socket ok).tcp
  unfolding reconnect_ipc run
  reconnect_ipc-Follows c socket ok = ([], ground arith)

  beat-Follows :
      (c : Comm) (now : ℕ) (env : SendEnv) (now' t : ℕ)
      → Follows c.tcp (beat lib c now env now' t).tcp
  unfolding beat run step
  beat-Follows c now env now' t = (beats now env ∷ checks_timeout now' t ∷ [], refl)

  tcp_writable-Follows :
      (c : Comm) (fd : ℕ) (so_error : Option ℕ) (t r r' : ℕ)
      → Follows c.tcp (tcp_writable lib c fd so_error t r r').tcp
  unfolding tcp_writable run step
  tcp_writable-Follows c fd so_error t r r' = elim (Bool-cases (is_connecting c.tcp.state)) [
    | inl e ↦ elim (Bool-cases (is_connected (check_connection_result c.tcp so_error t).state)) [
      | inl k ↦ (checks_result so_error t ∷ resets_timer r r' ∷ [], ground arith)
      | inr k ↦ (checks_result so_error t ∷ [], ground arith)
    ]
    | inr e ↦ ([], ground arith)
  ]

  tcp_received-Follows :
      (c : Comm) (fd now : ℕ) (h p : Option ℕ) (t : TcpClient) (j : Option Json)
      → Follows t (tcp_received lib c fd now h p (t, j)).tcp
  unfolding tcp_received run step
  tcp_received-Follows c fd now h p t none = ([], ground arith)
  tcp_received-Follows c fd now h p t (some j) = (notes_data now ∷ [], refl)

  tcp_broken-Follows : (c : Comm) (fd t : ℕ) → Follows c.tcp (tcp_broken lib c fd t).tcp
  unfolding tcp_broken run step
  tcp_broken-Follows c fd t = (loses_peer t ∷ [], refl)

  module _ (sock : SocketLib) where
    tcp_readable-Follows :
        (c c' : Comm) (e : Event lib sock)
        → tcp_readable lib sock c e ≡ done c'
        → Follows c.tcp c'.tcp
    unfolding tcp_readable run step
    tcp_readable-Follows c c' e h =
        let (r, got, rest) =
          >>=-eq-done (recv lib c.tcp e.chunks e.stop e.recv_time)
            (λ r. done (tcp_received lib c e.fd e.data_time e.header e.payload r)) h in
        let first : run lib c.tcp (receives e.chunks e.stop e.recv_time ∷ []) ≡ done r.0 =
          rw got refl in
        subst (λ (x : Comm). Follows c.tcp x.tcp) (done-injective rest)
          (follow (receives e.chunks e.stop e.recv_time ∷ []) c.tcp r.0 _ first
            (tcp_received-Follows c e.fd e.data_time e.header e.payload r.0 r.1))

    pub writable-Follows :
        (b : Bool) (c : Comm) (fd : ℕ) (so_error : Option ℕ) (t r r' : ℕ)
        → Follows c.tcp (if b then tcp_writable lib c fd so_error t r r' else c).tcp
    writable-Follows true c fd so_error t r r' = tcp_writable-Follows c fd so_error t r r'
    writable-Follows false c fd so_error t r r' = stay c.tcp

    readable-Follows :
        (b : Bool) (c c' : Comm) (e : Event lib sock)
        → (if b then tcp_readable lib sock c e else done c) ≡ done c'
        → Follows c.tcp c'.tcp
    readable-Follows true c c' e h = tcp_readable-Follows c c' e h
    readable-Follows false c c' e h =
        subst (λ (x : Comm). Follows c.tcp x.tcp) (done-injective h) (stay c.tcp)

    broken-Follows :
        (b : Bool) (c : Comm) (fd t : ℕ)
        → Follows c.tcp (if b then tcp_broken lib c fd t else c).tcp
    broken-Follows true c fd t = tcp_broken-Follows c fd t
    broken-Follows false c fd t = stay c.tcp

    tcp_event-Follows :
        (c c' : Comm) (e : Event lib sock) → tcp_event lib sock c e ≡ done c' → Follows c.tcp c'.tcp
    unfolding tcp_event
    tcp_event-Follows c c' e h =
        let one : Comm =
          if e.writable
          then tcp_writable lib c e.fd e.so_error e.result_time e.reset_send e.reset_recv
          else c in
        let (d, got, rest) =
          >>=-eq-done (if e.readable then tcp_readable lib sock one e else done one)
            (λ d. done (if e.broken then tcp_broken lib d e.fd e.broken_time else d)) h in
        and_then c.tcp one.tcp c'.tcp
          (writable-Follows e.writable c e.fd e.so_error e.result_time e.reset_send e.reset_recv)
          (and_then one.tcp d.tcp c'.tcp (readable-Follows e.readable one d e got) (
            subst (λ x. Follows d.tcp x.tcp) (done-injective rest)
              (broken-Follows e.broken d e.fd e.broken_time)))

    ipc_event-Follows : (c : Comm) (e : Event lib sock) → Follows c.tcp (ipc_event lib sock c e).tcp
    unfolding ipc_event run step
    ipc_event-Follows c e = elim (Bool-cases e.readable) [
      | inl r ↦ elim (Option-cases (client_recv_frame lib sock e.reads).0) [
        | inl k ↦ ([], ground arith)
        | inr (j, k) ↦ elim (Bool-cases (is_connected c.tcp.state)) [
          | inl s ↦ (sends j e.answer ∷ [], ground arith)
          | inr s ↦ ([], ground arith)
        ]
      ]
      | inr r ↦ ([], ground arith)
    ]

    pub before_wait-Follows :
        (c : Comm) (r : Round lib sock) → Follows c.tcp (before_wait lib sock c r).tcp
    unfolding before_wait
    before_wait-Follows c r =
        let one = reconnect_tcp c r.connect_env r.add_ok in
        let two = reconnect_ipc one r.ipc_socket r.ipc_connect_ok in
        and_then c.tcp one.tcp _ (reconnect_tcp-Follows c r.connect_env r.add_ok) (
          and_then one.tcp two.tcp _ (reconnect_ipc-Follows one r.ipc_socket r.ipc_connect_ok)
            (beat-Follows two r.beat_time r.beat_answer r.check_time r.fail_time))

    abbrev FollowsTcp : Comm → Comm → Type 0
    FollowsTcp c c' = Follows c.tcp c'.tcp

    Follows-IsRespected : IsRespected lib sock FollowsTcp
    Follows-IsRespected = record {
      same = λ c. stay c.tcp;
      both = λ a b c. and_then a.tcp b.tcp c.tcp;
      wait = before_wait-Follows;
      tcp = tcp_event-Follows;
      ipc = ipc_event-Follows;
    }

    pub handle-Follows :
        (c c' : Comm) (e : Event lib sock) → handle lib sock c e ≡ done c' → Follows c.tcp c'.tcp
    handle-Follows = handle-keeps lib sock FollowsTcp Follows-IsRespected

    pub handle_all-Follows :
        (es : List (Event lib sock)) (c c' : Comm)
        → handle_all lib sock c es ≡ done c'
        → Follows c.tcp c'.tcp
    handle_all-Follows = handle_all-keeps lib sock FollowsTcp Follows-IsRespected

    pub after_wait-Follows :
        (rs : List (Round lib sock)) (r : Round lib sock) (c c' : Comm)
        → main_loop lib sock c (r ∷ rs) ≡ done c'
        → Follows (before_wait lib sock c r).tcp c'.tcp
    after_wait-Follows = after_wait-keeps lib sock FollowsTcp Follows-IsRespected

    -- Whatever the kernel answers: what the loop does to its TCP client is a history of calls of the kind that
    -- the theorems on the client are about.
    pub main_loop_refines :
        (rs : List (Round lib sock)) (c c' : Comm)
        → main_loop lib sock c rs ≡ done c'
        → Follows c.tcp c'.tcp
    main_loop_refines = main_loop-keeps lib sock FollowsTcp Follows-IsRespected
