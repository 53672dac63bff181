-- ===== src/Ipc.antt =====
-- include/ipc.h and src/ipc.cpp: the Unix domain socket between the communication process, which is
-- the client, and the control process, which is the server. A descriptor of -1 is `none`, `false` is
-- `none` or `false`, and `trace` holds the effects, newest first. LOG_* lines are left out, and so is
-- the cut of a path of more than 107 bytes in `sun_path`: the program's path has 16.
pub mod Delivery
pub mod Agreement
pub mod Bounds
mod Examples
use x_pilot.Base.{
  ℕ, Bool, true, false, Option, none, some, List, [], ◌∷◌, String, ltb, ◌==◌, if◌then◌else◌, length,
  Outcome, done, threw,
}
use x_pilot.Base.Word.{Bytes, htonl, ntohl}
use x_pilot.Platform.{JsonLib, SocketLib, value, parse_error, out_of_range}
use x_pilot.Effects.{Effect, opened, closed, unlinked, close_if, accepted, took_all}
use x_pilot.Protocol.{frame_header_len, max_body_len}

pub record UnixSocketServer : Type 0 where
  pub server_fd : Option ℕ
  pub path : String
  pub trace : List Effect

-- What `socket`, `bind` and `listen` answer.
pub record ListenEnv : Type 0 where
  pub socket : Option ℕ
  pub bind_ok : Bool
  pub listen_ok : Bool

unfoldable pub new_server : UnixSocketServer
new_server = record { server_fd = none; path = ""; trace = [] }

listen_on : UnixSocketServer → String → ListenEnv → ℕ → UnixSocketServer × Bool
listen_on s path env fd =
    let dropped = record s {
      server_fd = none;
      path = path;
      trace = closed fd ∷ unlinked path ∷ opened fd ∷ s.trace;
    } in
    let listening = record s {
      server_fd = some fd;
      path = path;
      trace = unlinked path ∷ opened fd ∷ s.trace;
    } in
    if env.bind_ok
    then if env.listen_ok then (listening, true) else (dropped, false)
    else (dropped, false)

-- The descriptor that the object held before is overwritten.
unfoldable pub bind_and_listen : UnixSocketServer → String → ListenEnv → UnixSocketServer × Bool
unfolding listen_on
bind_and_listen s path env = elim env.socket [
  | none ↦ (record s { server_fd = none; path = path }, false)
  | some fd ↦ listen_on s path env fd
]

-- `UnixSocketServer::accept`, with the answer of `::accept`.
unfoldable pub accept : UnixSocketServer → Option ℕ → UnixSocketServer × Option ℕ
accept s answer = elim s.server_fd [
  | none ↦ (s, none)
  | some fd ↦ elim answer [
    | none ↦ (s, none)
    | some client ↦ (record s { trace = opened client ∷ s.trace }, some client)
  ]
]

unfoldable pub close_server : UnixSocketServer → UnixSocketServer
close_server s = record s { server_fd = none; trace = close_if s.server_fd s.trace }

pub record UnixSocketClient : Type 0 where
  pub sock_fd : Option ℕ
  pub trace : List Effect

unfoldable pub new_ipc_client : UnixSocketClient
new_ipc_client = record { sock_fd = none; trace = [] }

-- With the answers of `socket` and `connect`.
unfoldable pub connect_to_server : UnixSocketClient → Option ℕ → Bool → UnixSocketClient × Bool
connect_to_server c socket connect_ok = elim socket [
  | none ↦ (record c { sock_fd = none }, false)
  | some fd ↦
      if connect_ok
      then (record c { sock_fd = some fd; trace = opened fd ∷ c.trace }, true)
      else (record c { sock_fd = none; trace = closed fd ∷ opened fd ∷ c.trace }, false)
]

unfoldable pub close_client : UnixSocketClient → UnixSocketClient
close_client c = record c { sock_fd = none; trace = close_if c.sock_fd c.trace }

-- The two destructors.
unfoldable pub drop_server : UnixSocketServer → UnixSocketServer
unfolding close_server
drop_server s = close_server s

unfoldable pub drop_ipc_client : UnixSocketClient → UnixSocketClient
unfolding close_client
drop_ipc_client c = close_client c

-- A text in memory ends at its first zero byte.
unfoldable pub c_str : Bytes → Bytes
c_str [] = []
c_str (b ∷ bs) = if b == 0 then [] else b ∷ c_str bs

module _ (lib : JsonLib) where
  open lib use {Json, parse, dump}

  -- `UnixSocketServer::sendFrame`, with the answers of the two `::send` calls.
  unfoldable pub send_frame : ℕ → Json → Option ℕ → Option ℕ → List Effect → List Effect × Bool
  send_frame fd j header payload t =
      let body = dump j in
      let len = htonl (length body) in
      let one = accepted fd len header t in
      let two = accepted fd body payload one in
      if took_all header frame_header_len
      then if took_all payload (length body) then (two, true) else (two, false)
      else (one, false)

  send_open : UnixSocketClient → Json → Option ℕ → Option ℕ → ℕ → UnixSocketClient × Bool
  send_open c j header payload fd =
      let body = dump j in
      let one = accepted fd (htonl (length body)) header c.trace in
      let two = accepted fd body payload one in
      if took_all header 4
      then (if took_all payload (length body)
          then (record c { trace = two }, true)
          else (record c { trace = two }, false))
      else (record c { trace = one }, false)

  -- `UnixSocketClient::sendFrame`. A send on -1 fails.
  unfoldable pub client_send_frame :
      UnixSocketClient → Json → Option ℕ → Option ℕ → UnixSocketClient × Bool
  unfolding send_open
  client_send_frame c j header payload = elim c.sock_fd [
    | none ↦ (c, false)
    | some fd ↦ send_open c j header payload fd
  ]

  module _ (sock : SocketLib) where
    open sock use {Conn, recv_all}

    abbrev pub FrameReply : Type 0
    FrameReply = Outcome (Option Json × Conn)

    -- `UnixSocketServer::recvFrame` catches a `parse_error` and nothing else.
    server_parse : Bytes → Conn → FrameReply
    server_parse body c = elim (parse (c_str body)) [
      | value j ↦ done (some j, c)
      | parse_error ↦ done (none, c)
      | out_of_range ↦ threw
    ]

    server_body : ℕ → Option Bytes × Conn → FrameReply
    unfolding server_parse
    server_body len (none, c) = done (none, c)
    server_body len (some body, c) =
        if length body == 0
        then done (none, c)
        else if length body == len
        then server_parse body c
        else done (none, c)

    server_header : Option Bytes × Conn → FrameReply
    unfolding server_body
    server_header (none, c) = done (none, c)
    server_header (some head, c) =
        let len = ntohl head in
        if length head == frame_header_len
        then if ltb max_body_len len then done (none, c) else server_body len (recv_all c len)
        else done (none, c)

    unfoldable pub server_recv_frame : Conn → FrameReply
    unfolding server_header
    server_recv_frame c = server_header (recv_all c frame_header_len)

    -- `UnixSocketClient::recvFrame` catches everything, and takes an empty body.
    client_parse : Bytes → Conn → Option Json × Conn
    client_parse body c = elim (parse (c_str body)) [
      | value j ↦ (some j, c)
      | parse_error ↦ (none, c)
      | out_of_range ↦ (none, c)
    ]

    client_body : ℕ → Option Bytes × Conn → Option Json × Conn
    unfolding client_parse
    client_body len (none, c) = (none, c)
    client_body len (some body, c) = if length body == len then client_parse body c else (none, c)

    client_header : Option Bytes × Conn → Option Json × Conn
    unfolding client_body
    client_header (none, c) = (none, c)
    client_header (some head, c) =
        let len = ntohl head in
        if length head == 4
        then if ltb max_body_len len then (none, c) else client_body len (recv_all c len)
        else (none, c)

    unfoldable pub client_recv_frame : Conn → Option Json × Conn
    unfolding client_header
    client_recv_frame c = client_header (recv_all c 4)
