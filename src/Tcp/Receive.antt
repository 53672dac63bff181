-- ===== src/Tcp/Receive.antt =====
-- Receiving: pieces, and what the buffer carries from one connection to the next.
use mathlib.Core.Path.{subst}
use x_pilot.Base.{
  ℕ, ◌≤◌, ◌<◌, ◌≡◌, refl, sym, ap, ◌∙◌, Option, some, none, List, [], ◌∷◌, ◌++◌, append_assoc,
  append-nil, length, length-append, arith, done, threw, ◌>>=◌,
}
use x_pilot.Base.Word.{Bytes, ntohl, ntohl-append}
use x_pilot.Platform.{JsonLib}
use x_pilot.Protocol.{max_body_len, parse_frame, Reply}
use x_pilot.Protocol.Loop.{parse_frame_short}
use x_pilot.Protocol.Incremental.{parse_frame-append, parse_frame_stuck, Extends}
use x_pilot.Tcp.{
  TcpClient, close, try_connect, check_connection_result, on_disconnected, on_data_received,
  reset_heartbeat_timer, check_heartbeat_timeout,
}
use x_pilot.Tcp.Sending.{send, send_heartbeat}
use x_pilot.Tcp.Receiving.{
  Chunk, data_chunk, interrupted, RecvEnd, would_block, recv, drain, Received, finish_recv,
}
use x_pilot.Tcp.Calls.{Call, run, AreKept, run_keeps}

-- The data of the pieces, in order.
abbrev pub joined : List Chunk → Bytes
joined [] = []
joined (data_chunk b ∷ cs) = b ++ joined cs
joined (interrupted ∷ cs) = joined cs

pub drain-joined : (buf : Bytes) (cs : List Chunk) → drain buf cs ≡ buf ++ joined cs
unfolding drain
drain-joined buf [] = sym (append-nil buf)
drain-joined buf (data_chunk b ∷ cs) = drain-joined (buf ++ b) cs ∙ append_assoc buf b (joined cs)
drain-joined buf (interrupted ∷ cs) = drain-joined buf cs

joined-append : (cs ds : List Chunk) → joined (cs ++ ds) ≡ joined cs ++ joined ds
joined-append [] ds = refl
joined-append (data_chunk b ∷ cs) ds =
    ap (◌++◌ b) (joined-append cs ds) ∙ sym (append_assoc b (joined cs) (joined ds))
joined-append (interrupted ∷ cs) ds = joined-append cs ds

-- A buffer that starts with a header of more than 1 MiB.
pub record IsDeaf (c : TcpClient) : Type 0 where
  pub header : 4 ≤ length c.recv_buffer
  pub too_large : max_body_len < ntohl c.recv_buffer

module _ (lib : JsonLib) where
  open lib use {Json}

  -- What `recv` makes of a reply of `parseFrame`.
  abbrev pub with_reply : TcpClient → Reply lib → Received lib
  with_reply c (done (j, left)) = done (record c { recv_buffer = left }, j)
  with_reply c threw = threw

  reply_lem :
      (c : TcpClient) (buf : Bytes) (r : Reply lib)
      → (r >>= λ (j, left). done (record c { recv_buffer = left }, j)) ≡ with_reply c r
  reply_lem c buf (done (j, left)) = refl
  reply_lem c buf threw = refl

  finish_lem :
      (c : TcpClient) (buf : Bytes) (t : ℕ)
      → finish_recv lib (record c { recv_buffer = buf }) would_block t
        ≡ with_reply c (parse_frame lib buf)
  unfolding finish_recv
  finish_lem c [] t = sym (ap (with_reply c) (parse_frame_short lib [] (omega arith)))
  finish_lem c (b ∷ bs) t = reply_lem c (b ∷ bs) (parse_frame lib (b ∷ bs))

  recv_open :
      (c : TcpClient) (cs : List Chunk) (t fd : ℕ)
      → c.sock_fd ≡ some fd
      → recv lib c cs would_block t
        ≡ finish_recv lib (record c { recv_buffer = drain c.recv_buffer cs }) would_block t
  unfolding recv
  recv_open c cs t fd s = ground arith

  same_client :
      (c c' : TcpClient) (left : Bytes) (j : Option Json)
      → ◌≡◌ {A = Received lib} (done (record c { recv_buffer = left }, j)) (done (c', j))
      → record c { recv_buffer = left } ≡ c'
  same_client c c' left j e = cc

  -- While the peer stays, `recv` is `parseFrame` on the old buffer with the data of all pieces behind
  -- it, however the data is cut into pieces and wherever calls are interrupted.
  pub recv-parse_frame :
      (c : TcpClient) (cs : List Chunk) (t fd : ℕ)
      → c.sock_fd ≡ some fd
      → recv lib c cs would_block t ≡ with_reply c (parse_frame lib (c.recv_buffer ++ joined cs))
  recv-parse_frame c cs t fd s =
      recv_open c cs t fd s
      ∙ ap (λ b. finish_recv lib (record c { recv_buffer = b }) would_block t)
          (drain-joined c.recv_buffer cs)
      ∙ finish_lem c (c.recv_buffer ++ joined cs) t

  recv_both :
      (c : TcpClient) (cs ds : List Chunk) (t fd : ℕ)
      → c.sock_fd ≡ some fd
      → recv lib c (cs ++ ds) would_block t
        ≡ with_reply c (parse_frame lib ((c.recv_buffer ++ joined cs) ++ joined ds))
  recv_both c cs ds t fd s =
      recv-parse_frame c (cs ++ ds) t fd s
      ∙ ap (λ b. with_reply c (parse_frame lib b))
          (ap (◌++◌ c.recv_buffer) (joined-append cs ds)
            ∙ sym (append_assoc c.recv_buffer (joined cs) (joined ds)))

  resumed :
      (c c' : TcpClient) (buf : Bytes) (ds : List Chunk) (t fd : ℕ) (r : Reply lib)
      → c.sock_fd ≡ some fd
      → Extends lib buf (joined ds) r
      → with_reply c r ≡ done (c', none)
      → recv lib c' ds would_block t ≡ with_reply c (parse_frame lib (buf ++ joined ds))
  resumed c c' buf ds t fd (done (none, left)) s x e =
      subst (λ d. recv lib d ds would_block t ≡ with_reply c (parse_frame lib (buf ++ joined ds)))
        (same_client c c' left none e)
        (recv-parse_frame (record c { recv_buffer = left }) ds t fd s ∙ ap (with_reply c) (sym x))
  resumed c c' buf ds t fd (done (some j, left)) s x e = cc
  resumed c c' buf ds t fd threw s x e = cc

  -- A frame may come in over any number of events: where the first call has no value yet, the second
  -- one gives what a single call would have given on the data of both.
  pub recv_resumes :
      (c c' : TcpClient) (cs ds : List Chunk) (t t' fd : ℕ)
      → c.sock_fd ≡ some fd
      → recv lib c cs would_block t ≡ done (c', none)
      → recv lib c' ds would_block t' ≡ recv lib c (cs ++ ds) would_block t
  recv_resumes c c' cs ds t t' fd s h =
      resumed c c' (c.recv_buffer ++ joined cs) ds t' fd
        (parse_frame lib (c.recv_buffer ++ joined cs)) s
        (parse_frame-append lib (c.recv_buffer ++ joined cs) (joined ds))
        (sym (recv-parse_frame c cs t fd s) ∙ h)
      ∙ sym (recv_both c cs ds t fd s)

  -- No call touches the buffer but `recv`, and that only adds to it while it is stuck.
  recv-IsDeaf :
      (c c' : TcpClient) (j : Option Json) (cs : List Chunk) (stop : RecvEnd) (t : ℕ)
      → IsDeaf c
      → recv lib c cs stop t ≡ done (c', j)
      → IsDeaf c'
  unfolding recv on_disconnected
  recv-IsDeaf c c' j cs stop t d h = ground (
    arith,
    drain-joined c.recv_buffer cs,
    parse_frame_stuck lib c.recv_buffer (joined cs),
    ntohl-append c.recv_buffer (joined cs),
    length-append c.recv_buffer (joined cs),
  )

  pub IsDeaf-AreKept : AreKept lib IsDeaf
  IsDeaf-AreKept = record {
    by_connect = λ c env h d. unfold try_connect in ground arith;
    by_result = λ c e t d. unfold check_connection_result in ground arith;
    by_send = λ c j env d. unfold send in ground arith;
    by_heartbeat = λ c now env d. unfold send_heartbeat in ground arith;
    by_timeout = λ c now t d. unfold check_heartbeat_timeout in ground arith;
    by_recv = recv-IsDeaf;
    by_data = λ c now d. unfold on_data_received in ground arith;
    by_reset = λ c t t' d. unfold reset_heartbeat_timer in ground arith;
    by_loss = λ c t d. unfold on_disconnected in ground arith;
    by_close = λ c d. unfold close in ground arith;
  }

  pub deaf_now :
      (c d : TcpClient) (cs : List Chunk) (stop : RecvEnd) (t : ℕ) (j : Option Json)
      → IsDeaf c
      → recv lib c cs stop t ≡ done (d, j)
      → j ≡ none
  unfolding recv on_disconnected
  deaf_now c d cs stop t j deaf r =
      ground (arith, drain-joined c.recv_buffer cs, parse_frame_stuck lib c.recv_buffer (joined cs))

  -- Once a header of more than 1 MiB stands at the front of the buffer, no `recv` gives a value again,
  -- whatever arrives and however often the client disconnects and connects anew in between.
  pub deaf_for_ever :
      (c c' d : TcpClient) (es : List (Call lib)) (cs : List Chunk) (stop : RecvEnd) (t : ℕ)
      (j : Option Json)
      → IsDeaf c
      → run lib c es ≡ done c'
      → recv lib c' cs stop t ≡ done (d, j)
      → j ≡ none
  deaf_for_ever c c' d es cs stop t j deaf h r =
      deaf_now c' d cs stop t j (run_keeps lib IsDeaf IsDeaf-AreKept es c c' deaf h) r
