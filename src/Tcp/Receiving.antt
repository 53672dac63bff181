-- ===== src/Tcp/Receiving.antt =====
-- src/tcp_client.cpp: the method of TcpClient that receives, `recv`.
use x_pilot.Base.{
  ℕ, Bool, true, false, Option, none, some, List, [], ◌∷◌, ◌++◌, if◌then◌else◌, Outcome, done,
  ◌>>=◌,
}
use x_pilot.Base.Word.{Bytes}
use x_pilot.Platform.{JsonLib}
use x_pilot.Protocol.{parse_frame}
use x_pilot.Tcp.{TcpClient, on_disconnected}

-- The answers of the `::recv` loop: pieces of data and interruptions, then the one that ends it.
pub data Chunk : Type 0 where
  data_chunk : Bytes → Chunk
  interrupted : Chunk

pub data RecvEnd : Type 0 where
  would_block peer_closed recv_error : RecvEnd

unfoldable pub drain : Bytes → List Chunk → Bytes
drain buffer [] = buffer
drain buffer (data_chunk b ∷ cs) = drain (buffer ++ b) cs
drain buffer (interrupted ∷ cs) = drain buffer cs

module _ (lib : JsonLib) where
  open lib use {Json}

  abbrev pub Received : Type 0
  Received = Outcome (TcpClient × Option Json)

  parse_buffer : TcpClient → Received
  parse_buffer c = do
    (j, left) ← parse_frame lib c.recv_buffer
    done (record c { recv_buffer = left }, j)

  abbrev is_empty : Bytes → Bool
  is_empty [] = true
  is_empty (_ ∷ _) = false

  unfoldable pub finish_recv : TcpClient → RecvEnd → ℕ → Received
  unfolding parse_buffer on_disconnected
  finish_recv c would_block fail_time =
      if is_empty c.recv_buffer then done (c, none) else parse_buffer c
  finish_recv c peer_closed fail_time = done (on_disconnected c fail_time, none)
  finish_recv c recv_error fail_time = done (on_disconnected c fail_time, none)

  -- `none` is the result `false`.
  unfoldable pub recv : TcpClient → List Chunk → RecvEnd → ℕ → Received
  unfolding finish_recv
  recv c chunks stop fail_time = elim c.sock_fd [
    | none ↦ done (c, none)
    | some fd ↦ finish_recv (record c { recv_buffer = drain c.recv_buffer chunks }) stop fail_time
  ]
