-- ===== src/Tcp/Bounds.antt =====
-- How much the receive buffer of the TCP client can hold.
use mathlib.Core.Path.{subst}
use x_pilot.Base.{
  ℕ, ◌+◌, ◌<◌, ◌≡◌, sym, ◌∙◌, ◌⊎◌, inl, inr, some, none, List, ◌++◌, length, arith, done, threw,
}
use x_pilot.Base.Word.{Bytes}
use x_pilot.Platform.{JsonLib}
use x_pilot.Protocol.{max_body_len, parse_frame, Reply}
use x_pilot.Protocol.Scan.{
  IsOversized, IsHalf, no_header, no_body, Scan, half, oversized, hit, boom, skip, parse_frame-Scan,
}
use x_pilot.Tcp.{TcpClient}
use x_pilot.Tcp.Receiving.{Chunk, would_block, recv}
use x_pilot.Tcp.Receive.{joined, with_reply, recv-parse_frame}

-- The buffer is stuck behind an oversized header, or holds less than one frame of the greatest size.
abbrev pub IsSmall : Bytes → Type 0
IsSmall buf = IsOversized buf ⊎ (length buf < 4 + max_body_len)

half-IsSmall : (buf : Bytes) → IsHalf buf → IsSmall buf
half-IsSmall buf (no_header h) = inr (omega arith)
half-IsSmall buf (no_body h k l) = inr (omega arith)

module _ (lib : JsonLib) where
  open lib use {Json}

  -- What a reply leaves in the buffer where it has no value.
  abbrev LeavesLittle : Reply lib → Type 0
  LeavesLittle (done (none, left)) = IsSmall left
  LeavesLittle (done (some j, left)) = Unit
  LeavesLittle threw = Unit

  scan_leaves : (buf : Bytes) (r : Reply lib) → Scan lib buf r → LeavesLittle r
  scan_leaves _ _ (half buf h) = half-IsSmall buf h
  scan_leaves _ _ (oversized buf o) = inl o
  scan_leaves _ _ (hit buf j c e) = tt
  scan_leaves _ _ (boom buf c e) = tt
  scan_leaves _ _ (skip buf {r = r} c e s) = scan_leaves _ r s

  reply_leaves :
      (c c' : TcpClient) (r : Reply lib)
      → LeavesLittle r
      → with_reply lib c r ≡ done (c', none)
      → IsSmall c'.recv_buffer
  reply_leaves c c' (done (none, left)) h e =
      let same : left ≡ c'.recv_buffer = cc in subst IsSmall same h
  reply_leaves c c' (done (some j, left)) h e = cc
  reply_leaves c c' threw h e = cc

  -- However much data arrives: a `recv` that has no value yet while the peer stays leaves less than 4 bytes
  -- and 1 MiB in the buffer, unless a header of more than 1 MiB stands at its front.
  pub waiting_buffer_bound :
      (c c' : TcpClient) (cs : List Chunk) (t fd : ℕ)
      → c.sock_fd ≡ some fd
      → recv lib c cs would_block t ≡ done (c', none)
      → IsOversized c'.recv_buffer ⊎ (length c'.recv_buffer < 4 + max_body_len)
  waiting_buffer_bound c c' cs t fd s h =
      let buf = c.recv_buffer ++ joined cs in
      reply_leaves c c' (parse_frame lib buf)
        (scan_leaves buf (parse_frame lib buf) (parse_frame-Scan lib buf))
        (sym (recv-parse_frame lib c cs t fd s) ∙ h)
