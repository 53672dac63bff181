-- ===== src/Ipc/Bounds.antt =====
-- What `recvFrame` asks of the kernel.
use x_pilot.Base.{ℕ, ◌≤◌, ◌≡◌, Option, List, [], ◌∷◌, length, All, done, arith}
use x_pilot.Platform.{JsonLib, SocketLib}
use x_pilot.Protocol.{max_body_len}
use x_pilot.Ipc.{server_recv_frame, client_recv_frame}

-- A socket that notes the size of each read, newest first.
abbrev pub noting : SocketLib → SocketLib
noting sock = record {
  Conn = sock.Conn × List ℕ;
  recv_all = λ c n. let (r, d) = sock.recv_all c.0 n in (r, (d, n ∷ c.1));
}

-- At most two reads, each of at most 1 MiB.
abbrev pub IsModest : List ℕ → Type 0
IsModest ns = (length ns ≤ 2) × All (λ n. n ≤ max_body_len) ns

module _ (lib : JsonLib) (sock : SocketLib) where
  -- Whatever the peer sends: one call of `recvFrame`, of the server or of the client, makes at most two
  -- reads, and neither asks for more than 1 MiB; noting the reads does not change what the call does.
  pub recv_frame_bound :
      (c : sock.Conn)
      → ((j : Option lib.Json) (d : (noting sock).Conn)
          → server_recv_frame lib (noting sock) (c, []) ≡ done (j, d)
          → IsModest d.1 × (server_recv_frame lib sock c ≡ done (j, d.0)))
        × IsModest (client_recv_frame lib (noting sock) (c, [])).1.1
        × ((client_recv_frame lib (noting sock) (c, [])).0 ≡ (client_recv_frame lib sock c).0)
  unfolding server_recv_frame client_recv_frame
  recv_frame_bound c = (λ j d h. ground arith, ground arith, ground arith)
