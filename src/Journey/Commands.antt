-- ===== src/Journey/Commands.antt =====
-- Many commands on their way, over any number of events.
use mathlib.Core.Path.{subst}
use x_pilot.Base.{
  ℕ, ◌≡◌, refl, sym, ap, ◌∙◌, true, false, some, List, [], ◌∷◌, ◌++◌, append_assoc, append-nil, map,
  length, Bool, if◌then◌else◌, All, Outcome, done, threw, ◌>>=◌, arith,
}
use x_pilot.Base.Word.{Bytes}
use x_pilot.Platform.{JsonLib, SocketLib}
use x_pilot.Effects.{wire}
use x_pilot.Protocol.Frame.{frame, frames}
use x_pilot.Protocol.Scan.{IsHalf, half_waits}
use x_pilot.Tcp.{TcpClient, connected, on_data_received}
use x_pilot.Tcp.Receiving.{would_block}
use x_pilot.Tcp.Receive.{joined, recv-parse_frame}
use x_pilot.Ipc.Delivery.{IsWaitall, IsSendable, ServerReads, frames_arrive}
use x_pilot.Comm.{Comm}
use x_pilot.Comm.Events.{
  Event, tcp_received, tcp_readable, tcp_event, ipc_event, is_fd, handle, handle_all,
}
use x_pilot.Comm.Relay.{one_command_per_event}

module _ (lib : JsonLib) (sock : SocketLib) where
  open lib use {Json, dump}

  -- Data has come in on the descriptor, all that is there now is read, and the connection stays.
  pub record IsTcpData (y : ℕ) (e : Event lib sock) : Type 0 where
    pub on_tcp : e.fd ≡ y
    pub readable : e.readable ≡ true
    pub not_writable : e.writable ≡ false
    pub not_broken : e.broken ≡ false
    pub drained : e.stop ≡ would_block

  -- What a buffer and the data of some events hold: each event completes the frame of a command, which the kernel
  -- takes on its way to the control process, or leaves half a frame. The last index is what the buffer is left
  -- with.
  pub data Arrives (y : ℕ) : Bytes → List (Event lib sock) → List Json → Bytes → Type 0 where
    nothing : (buf : Bytes) → Arrives y buf [] [] buf
    waits :
        (buf : Bytes) (e : Event lib sock) {es : List (Event lib sock)} {js : List Json}
        {left : Bytes}
        → IsTcpData y e
        → IsHalf (buf ++ joined e.chunks)
        → Arrives y (buf ++ joined e.chunks) es js left
        → Arrives y buf (e ∷ es) js left
    gets :
        (buf more : Bytes) (e : Event lib sock) (j : Json) {es : List (Event lib sock)}
        {js : List Json} {left : Bytes}
        → IsTcpData y e
        → IsSendable lib j
        → buf ++ joined e.chunks ≡ frame (dump j) ++ more
        → e.header ≡ some 4
        → e.payload ≡ some (length (dump j))
        → Arrives y more es js left
        → Arrives y buf (e ∷ es) (j ∷ js) left

  -- The data of the events, in order.
  abbrev pub arrived : List (Event lib sock) → Bytes
  arrived [] = []
  arrived (e ∷ es) = joined e.chunks ++ arrived es

  >>=-done : (m : Outcome Comm) → (m >>= λ c. done c) ≡ m
  >>=-done (done c) = refl
  >>=-done threw = refl

  on_fd :
      (c : Comm) (e : Event lib sock) (y : ℕ)
      → c.tcp.sock_fd ≡ some y
      → e.fd ≡ y
      → is_fd lib sock c.tcp.sock_fd e.fd ≡ true
  on_fd c e y s i = ground arith

  data_event :
      (c : Comm) (e : Event lib sock) (y : ℕ)
      → IsTcpData y e
      → tcp_event lib sock c e ≡ tcp_readable lib sock c e
  unfolding tcp_event
  data_event c e y i =
      rw (i.readable, i.not_writable, i.not_broken) (>>=-done (tcp_readable lib sock c e))

  handle-tcp :
      (c : Comm) (e : Event lib sock) (y : ℕ)
      → c.tcp.sock_fd ≡ some y
      → IsTcpData y e
      → handle lib sock c e ≡ tcp_readable lib sock c e
  unfolding handle
  handle-tcp c e y s i =
      ap
        (λ (b : Bool).
          if b
          then tcp_event lib sock c e
          else if is_fd lib sock c.ipc.sock_fd e.fd
          then done (ipc_event lib sock c e)
          else done c)
        (on_fd c e y s i.on_tcp)
      ∙ data_event c e y i

  waits_more :
      (c : Comm) (e : Event lib sock) (y : ℕ)
      → c.tcp.state ≡ connected
      → c.tcp.sock_fd ≡ some y
      → IsTcpData y e
      → IsHalf (c.tcp.recv_buffer ++ joined e.chunks)
      → tcp_readable lib sock c e
        ≡ done
            (record c { tcp = record c.tcp { recv_buffer = c.tcp.recv_buffer ++ joined e.chunks } })
  unfolding tcp_readable tcp_received
  waits_more c e y up s i k =
      rw
        (
          i.drained,
          recv-parse_frame lib c.tcp e.chunks e.recv_time y s,
          half_waits lib (c.tcp.recv_buffer ++ joined e.chunks) k,
          up,
        )
        refl

  -- What the events do to the communication process.
  commands_forwarded :
      (x y : ℕ) (es : List (Event lib sock)) (js : List Json) (c : Comm) (buf left : Bytes)
      → c.tcp.recv_buffer ≡ buf
      → c.tcp.state ≡ connected
      → c.tcp.sock_fd ≡ some y
      → c.ipc.sock_fd ≡ some x
      → Arrives y buf es js left
      → (c' : Comm) × (handle_all lib sock c es ≡ done c')
        × (wire x c'.ipc.trace ≡ wire x c.ipc.trace ++ frames (map dump js))
        × (c'.tcp.recv_buffer ≡ left)
        × (c'.tcp.state ≡ connected)
  unfolding handle_all frames on_data_received
  commands_forwarded x y _ _ c buf left h up s i (nothing _) =
      (c, refl, sym (append-nil (wire x c.ipc.trace)), h, up)
  commands_forwarded x y _ js c buf left h up s i (waits _ e {es = es} d half later) =
      let all = c.tcp.recv_buffer ++ joined e.chunks in
      let next : Comm = record c { tcp = record c.tcp { recv_buffer = all } } in
      let same : all ≡ buf ++ joined e.chunks = ap (λ b. b ++ joined e.chunks) h in
      let (c', run, grown, kept, still) =
        commands_forwarded x y es js next (buf ++ joined e.chunks) left same up s i later in
      (
        c',
        rw (handle-tcp c e y s d ∙ waits_more c e y up s d (subst IsHalf (sym same) half)) run,
        grown,
        kept,
        still,
      )
  commands_forwarded x y _ _ c buf left h up s i
        (gets _ more e j {es = es} {js = js} d ok split head body later) =
      let (next, made, out, tcp, ipc, _) =
        one_command_per_event lib sock c e x y [] (dump j) more j i s d.drained
          (ap (λ b. b ++ joined e.chunks) h ∙ split) tt ok.small ok.parses head body in
      let state : next.tcp.state ≡ connected = ap (λ (t : TcpClient). t.state) tcp ∙ up in
      let socket : next.tcp.sock_fd ≡ some y = ap (λ (t : TcpClient). t.sock_fd) tcp ∙ s in
      let buffer : next.tcp.recv_buffer ≡ more = ap (λ (t : TcpClient). t.recv_buffer) tcp in
      let (c', run, grown, kept, still) =
        commands_forwarded x y es js next more left buffer state socket ipc later in
      (
        c',
        rw (handle-tcp c e y s d ∙ made) run,
        grown
            ∙ ap (λ b. b ++ frames (map dump js)) out
            ∙ append_assoc (wire x c.ipc.trace) (frame (dump j)) (frames (map dump js)),
        kept,
        still,
      )

  -- The bytes of the ground station are the frames of the commands, then what is left.
  stream-frames :
      (y : ℕ) (buf left : Bytes) (es : List (Event lib sock)) (js : List Json)
      → Arrives y buf es js left
      → buf ++ arrived es ≡ frames (map dump js) ++ left
  unfolding frames
  stream-frames y _ left _ _ (nothing _) = append-nil left
  stream-frames y buf left _ js (waits _ e {es = es} d half later) =
      sym (append_assoc buf (joined e.chunks) (arrived es))
      ∙ stream-frames y (buf ++ joined e.chunks) left es js later
  stream-frames y buf left _ _ (gets _ more e j {es = es} {js = js} d ok split head body later) =
      sym (append_assoc buf (joined e.chunks) (arrived es))
      ∙ ap (λ b. b ++ arrived es) split
      ∙ append_assoc (frame (dump j)) more (arrived es)
      ∙ ap (λ b. frame (dump j) ++ b) (stream-frames y more left es js later)
      ∙ sym (append_assoc (frame (dump j)) (frames (map dump js)) left)

  Arrives-IsSendable :
      (y : ℕ) (buf left : Bytes) (es : List (Event lib sock)) (js : List Json)
      → Arrives y buf es js left
      → All (IsSendable lib) js
  Arrives-IsSendable y _ left _ _ (nothing _) = tt
  Arrives-IsSendable y buf left _ js (waits _ e {es = es} d half later) =
      Arrives-IsSendable y (buf ++ joined e.chunks) left es js later
  Arrives-IsSendable y buf left _ _
        (gets _ more e j {es = es} {js = js} d ok split head body later) =
      (ok, Arrives-IsSendable y more left es js later)

  module _ (w : IsWaitall sock) where
    open sock use {Conn}
    open w use {pending}

    -- Commands that the ground station sends one behind another, over any number of events, of which each leaves
    -- half a frame or completes one that the kernel takes: the events put exactly their frames on the socket, in
    -- order, the bytes of the station are these frames and what stays in the buffer, and a control process
    -- whose end of the socket holds those frames reads the commands in that order.
    pub commands_in_order :
        (x y : ℕ) (es : List (Event lib sock)) (js : List Json) (c : Comm) (left : Bytes)
        (conn : Conn)
        → c.tcp.state ≡ connected
        → c.tcp.sock_fd ≡ some y
        → c.ipc.sock_fd ≡ some x
        → Arrives y c.tcp.recv_buffer es js left
        → pending conn ≡ frames (map dump js)
        → ((c' : Comm) × (handle_all lib sock c es ≡ done c')
            × (wire x c'.ipc.trace ≡ wire x c.ipc.trace ++ pending conn)
            × (c.tcp.recv_buffer ++ arrived es ≡ frames (map dump js) ++ c'.tcp.recv_buffer))
          × ((d : Conn) × ServerReads lib sock w conn js d × (pending d ≡ []))
    commands_in_order x y es js c left conn up s i a p =
        let (c', run, grown, kept, _) =
          commands_forwarded x y es js c c.tcp.recv_buffer left refl up s i a in
        (
          (
            c',
            run,
            grown ∙ ap (λ b. wire x c.ipc.trace ++ b) (sym p),
            stream-frames y c.tcp.recv_buffer left es js a
                ∙ ap (λ b. frames (map dump js) ++ b) (sym kept),
          ),
          (frames_arrive lib sock w conn js [] (Arrives-IsSendable y c.tcp.recv_buffer left es js a)
              (p ∙ sym (append-nil (frames (map dump js))))).0,
        )
