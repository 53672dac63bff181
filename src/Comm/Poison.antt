-- ===== src/Comm/Poison.antt =====
-- Data that makes `recv` of the TCP client throw.
use x_pilot.Base.{
  ℕ, ◌≡◌, inl, inr, refl, sym, ◌∙◌, Option-cases, some, List, ◌++◌, done, threw, arith,
}
use x_pilot.Base.Word.{Bytes}
use x_pilot.Platform.{JsonLib, parse_error, out_of_range}
use x_pilot.Protocol.{Reply, parse_frame}
use x_pilot.Protocol.Loop.{body, rest, IsComplete}
use x_pilot.Protocol.Scan.{
  IsHalf, no_header, no_body, Scan, half, oversized, hit, boom, skip, parse_frame-Scan,
}
use x_pilot.Tcp.{TcpClient}
use x_pilot.Tcp.Receiving.{Chunk, RecvEnd, would_block, peer_closed, recv_error, recv}
use x_pilot.Tcp.Receive.{joined, recv-parse_frame, with_reply}

module _ (lib : JsonLib) where
  open lib use {parse}

  -- Behind frames whose bodies are no JSON text, a whole frame with a number that no double holds.
  pub data IsPoisoned : Bytes → Type 0 where
    now : (buf : Bytes) → IsComplete buf → parse (body buf) ≡ out_of_range → IsPoisoned buf
    later :
        (buf : Bytes)
        → IsComplete buf
        → parse (body buf) ≡ parse_error
        → IsPoisoned (rest buf)
        → IsPoisoned buf

  scan-IsPoisoned : {buf : Bytes} {r : Reply lib} → Scan lib buf r → r ≡ threw → IsPoisoned buf
  scan-IsPoisoned (half buf h) e = cc
  scan-IsPoisoned (oversized buf h) e = cc
  scan-IsPoisoned (hit buf j c p) e = cc
  scan-IsPoisoned (boom buf c p) e = now buf c p
  scan-IsPoisoned (skip buf c p s) e = later buf c p (scan-IsPoisoned s e)

  reply_threw : (c : TcpClient) (r : Reply lib) → with_reply lib c r ≡ threw → r ≡ threw
  reply_threw c (done (j, left)) e = cc
  reply_threw c threw e = refl

  poisoned-IsComplete : {buf : Bytes} → IsPoisoned buf → IsComplete buf
  poisoned-IsComplete (now _ c q) = c
  poisoned-IsComplete (later _ c q w) = c

  half_not_complete : {buf : Bytes} → IsHalf buf → IsComplete buf → ⊥
  half_not_complete (no_header h) c = omega (arith, c.whole)
  half_not_complete (no_body h k l) c = omega (arith, c.whole)

  poisoned-threw : {buf : Bytes} {r : Reply lib} → IsPoisoned buf → Scan lib buf r → r ≡ threw
  poisoned-threw p (half buf h) = absurd (half_not_complete h (poisoned-IsComplete p))
  poisoned-threw p (oversized buf h) =
      let c = poisoned-IsComplete p in absurd (omega (arith, h.too_large, c.allowed))
  poisoned-threw (now _ c q) (hit buf j c' p) = cc
  poisoned-threw (later _ c q w) (hit buf j c' p) = cc
  poisoned-threw p (boom buf c q) = refl
  poisoned-threw (now _ c q) (skip buf c' p s) = cc
  poisoned-threw (later _ c q w) (skip buf c' p s) = poisoned-threw w s

  -- The client is open, and the data behind its buffer has such a number in it.
  pub record IsReadToDeath (c : TcpClient) (cs : List Chunk) (stop : RecvEnd) : Type 0 where
    pub fd : ℕ
    pub is_open : c.sock_fd ≡ some fd
    pub stays : stop ≡ would_block
    pub poisoned : IsPoisoned (c.recv_buffer ++ joined cs)

  open_threw :
      (c : TcpClient) (cs : List Chunk) (stop : RecvEnd) (t fd : ℕ)
      → c.sock_fd ≡ some fd
      → recv lib c cs stop t ≡ threw
      → IsReadToDeath c cs stop
  unfolding recv
  open_threw c cs would_block t fd s h = record {
    fd = fd;
    is_open = s;
    stays = refl;
    poisoned = scan-IsPoisoned (parse_frame-Scan lib (c.recv_buffer ++ joined cs)) (
        reply_threw c (parse_frame lib (c.recv_buffer ++ joined cs))
          (sym (recv-parse_frame lib c cs t fd s) ∙ h));
  }
  open_threw c cs peer_closed t fd s h = absurd (ground arith)
  open_threw c cs recv_error t fd s h = absurd (ground arith)

  pub recv-IsReadToDeath :
      (c : TcpClient) (cs : List Chunk) (stop : RecvEnd) (t : ℕ)
      → recv lib c cs stop t ≡ threw
      → IsReadToDeath c cs stop
  unfolding recv
  recv-IsReadToDeath c cs stop t h = elim (Option-cases c.sock_fd) [
    | inl s ↦ absurd (ground arith)
    | inr (fd, s) ↦ open_threw c cs stop t fd s h
  ]

  pub read_to_death :
      (c : TcpClient) (cs : List Chunk) (stop : RecvEnd) (t : ℕ)
      → IsReadToDeath c cs stop
      → recv lib c cs stop t ≡ threw
  read_to_death c cs stop t d =
      rw
        (
          d.stays,
          recv-parse_frame lib c cs t d.fd d.is_open,
          poisoned-threw d.poisoned (parse_frame-Scan lib (c.recv_buffer ++ joined cs)),
        )
        refl
