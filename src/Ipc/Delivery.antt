-- ===== src/Ipc/Delivery.antt =====
-- What one side of the socket sends, the other side receives.
use x_pilot.Base.{
  ℕ, ◌≤◌, ◌<◌, ◌≡◌, ◌≢◌, refl, sym, ap, ◌∙◌, none, some, List, [], ◌∷◌, ◌++◌, append_assoc,
  append-nil, map, length, length-append, take, drop, take-append, drop-append, take-append_le,
  drop-append_le, All, done, arith,
}
use native.Mathlib.Decide.{dec_lt}
use x_pilot.Base.Word.{Bytes, htonl, ntohl, length-htonl, ntohl-htonl}
use x_pilot.Platform.{JsonLib, SocketLib, value}
use x_pilot.Protocol.{max_body_len}
use x_pilot.Protocol.Frame.{frame, frames}
use x_pilot.Ipc.{c_str, server_recv_frame, client_recv_frame}

-- Documented behaviour of MSG_WAITALL while no signal comes in: `pending` is all that the peer sends
-- before it closes its end; a read of no more than that gives just the bytes that were asked for, and a
-- read of more gives what is left.
pub record IsWaitall (sock : SocketLib) : Type 0 where
  pub pending : sock.Conn → Bytes
  pub reads :
      (c : sock.Conn) (n : ℕ)
      → n ≤ length (pending c)
      → (d : sock.Conn) × (sock.recv_all c n ≡ (some (take n (pending c)), d))
        × (pending d ≡ drop n (pending c))
  pub ends :
      (c : sock.Conn) (n : ℕ)
      → length (pending c) < n
      → (d : sock.Conn) × (sock.recv_all c n ≡ (some (pending c), d))

c_str_lem : (b : Bytes) → All (λ x. x ≢ 0) b → c_str b ≡ b
unfolding c_str
c_str_lem [] h = refl
c_str_lem (x ∷ xs) h = ground (arith, c_str_lem xs h.1)

module _ (lib : JsonLib) where
  open lib use {Json, parse, dump}

  -- A value whose text survives the trip: its text is not empty, has no zero byte and at most 1 MiB,
  -- and parsing it gives the value back.
  pub record IsSendable (j : Json) : Type 0 where
    pub not_empty : 0 < length (dump j)
    pub small : length (dump j) ≤ max_body_len
    pub no_zero : All (λ x. x ≢ 0) (dump j)
    pub parses : parse (dump j) ≡ value j

  module _ (sock : SocketLib) (w : IsWaitall sock) where
    open sock use {Conn, recv_all}
    open w use {pending, reads, ends}

    -- A read of just what stands in front.
    read_front :
        (c : Conn) (n : ℕ) (x y : Bytes)
        → pending c ≡ x ++ y
        → n ≡ length x
        → (d : Conn) × (recv_all c n ≡ (some x, d)) × (pending d ≡ y)
    read_front c n x y e l =
        let (d, r, p) = reads c n (rw e (omega (arith, l, length-append x y))) in
        (d, r ∙ ap (λ t. (some t, d)) (rw e (take-append n x y l)), p ∙ rw e (drop-append n x y l))

    -- The two reads of a whole frame.
    frame_reads :
        (c : Conn) (b tail : Bytes)
        → pending c ≡ frame b ++ tail
        → length b ≤ max_body_len
        → (d e : Conn) × (recv_all c 4 ≡ (some (htonl (length b)), d))
          × (ntohl (htonl (length b)) ≡ length b)
          × (recv_all d (length b) ≡ (some b, e))
          × (pending e ≡ tail)
    unfolding frame
    frame_reads c b tail h small =
        let (d, r, p) =
          read_front c 4 (htonl (length b)) (b ++ tail) (h ∙ append_assoc (htonl (length b)) b tail)
            (omega (arith, length-htonl (length b))) in
        let (e, r', p') = read_front d (length b) b tail p refl in
        let back : ntohl (htonl (length b)) ≡ length b =
          ap ntohl (sym (append-nil (htonl (length b))))
          ∙ omega (arith, ntohl-htonl (length b) []) in
        (d, e, r, back, r', p')

    -- The server reads the frame of a sendable value and leaves what stands behind it.
    pub server_receives :
        (c : Conn) (j : Json) (tail : Bytes)
        → IsSendable j
        → pending c ≡ frame (dump j) ++ tail
        → (d : Conn) × (server_recv_frame lib sock c ≡ done (some j, d)) × (pending d ≡ tail)
    unfolding server_recv_frame
    server_receives c j tail s h =
        let (d, e, r, back, r', p) = frame_reads c (dump j) tail h s.small in
        (
          e,
          ground
              (arith, r, back, r', s, length-htonl (length (dump j)), c_str_lem (dump j) s.no_zero),
          p,
        )

    pub client_receives :
        (c : Conn) (j : Json) (tail : Bytes)
        → IsSendable j
        → pending c ≡ frame (dump j) ++ tail
        → (d : Conn) × (client_recv_frame lib sock c ≡ (some j, d)) × (pending d ≡ tail)
    unfolding client_recv_frame
    client_receives c j tail s h =
        let (d, e, r, back, r', p) = frame_reads c (dump j) tail h s.small in
        (
          e,
          ground
              (arith, r, back, r', s, length-htonl (length (dump j)), c_str_lem (dump j) s.no_zero),
          p,
        )

    -- `recvFrame` again and again, each call with a value.
    pub data ServerReads : Conn → List Json → Conn → Type 0 where
      end : (c : Conn) → ServerReads c [] c
      next :
          {c d e : Conn} {j : Json} {js : List Json}
          → server_recv_frame lib sock c ≡ done (some j, d)
          → ServerReads d js e
          → ServerReads c (j ∷ js) e

    pub data ClientReads : Conn → List Json → Conn → Type 0 where
      end : (c : Conn) → ClientReads c [] c
      next :
          {c d e : Conn} {j : Json} {js : List Json}
          → client_recv_frame lib sock c ≡ (some j, d)
          → ClientReads d js e
          → ClientReads c (j ∷ js) e

    -- The frames of sendable values, one after the other, are read one call each: server and client
    -- get the values in order, and leave the bytes behind the last frame.
    pub frames_arrive :
        (c : Conn) (js : List Json) (tail : Bytes)
        → All IsSendable js
        → pending c ≡ frames (map dump js) ++ tail
        → ((d : Conn) × ServerReads c js d × (pending d ≡ tail))
          × ((d : Conn) × ClientReads c js d × (pending d ≡ tail))
    unfolding frames
    frames_arrive c [] tail s h = ((c, ServerReads.end c, h), (c, ClientReads.end c, h))
    frames_arrive c (j ∷ js) tail (s, ss) h =
        let later = frames (map dump js) ++ tail in
        let split = h ∙ append_assoc (frame (dump j)) (frames (map dump js)) tail in
        let (d, r, p) = server_receives c j later s split in
        let (e, q, o) = client_receives c j later s split in
        let ((d', rs, p'), _) = frames_arrive d js tail ss p in
        let (_, (e', qs, o')) = frames_arrive e js tail ss o in
        ((d', ServerReads.next r rs, p'), (e', ClientReads.next q qs, o'))

    cut_header :
        (c : Conn)
        → length (pending c) < 4
        → (d : Conn) × (server_recv_frame lib sock c ≡ done (none, d))
    unfolding server_recv_frame
    cut_header c k = let (d, r) = ends c 4 k in (d, ground (arith, r))

    cut_body :
        (c : Conn) (b missing : Bytes)
        → 4 ≤ length (pending c)
        → length b ≤ max_body_len
        → 0 < length missing
        → pending c ++ missing ≡ frame b
        → (d : Conn) × (server_recv_frame lib sock c ≡ done (none, d))
    unfolding server_recv_frame frame
    cut_body c b missing k small m h =
        let (d, r, p) = reads c 4 k in
        let head : take 4 (pending c) ≡ htonl (length b) =
          sym (take-append_le 4 (pending c) missing k)
          ∙ ap (take 4) h
          ∙ take-append 4 (htonl (length b)) b (omega (arith, length-htonl (length b))) in
        let tail : drop 4 (pending c) ++ missing ≡ b =
          sym (drop-append_le 4 (pending c) missing k)
          ∙ ap (drop 4) h
          ∙ drop-append 4 (htonl (length b)) b (omega (arith, length-htonl (length b))) in
        let short : length (pending d) < length b =
          omega (arith, ap length p, ap length tail, length-append (drop 4 (pending c)) missing) in
        let (e, q) = ends d (length b) short in
        let back : ntohl (htonl (length b)) ≡ length b =
          ap ntohl (sym (append-nil (htonl (length b))))
          ∙ omega (arith, ntohl-htonl (length b) []) in
        (e, ground (arith, r, head, back, short, q, small, length-htonl (length b)))

    -- A peer that closes before the last byte of the frame of a sendable value: the server's
    -- `recvFrame` returns false, wherever in the frame that is.
    pub cut_frame :
        (c : Conn) (j : Json) (missing : Bytes)
        → IsSendable j
        → 0 < length missing
        → pending c ++ missing ≡ frame (dump j)
        → (d : Conn) × (server_recv_frame lib sock c ≡ done (none, d))
    cut_frame c j missing s m h = elim (dec_lt (length (pending c)) 4) [
      | yes k ↦ cut_header c k
      | no k ↦ cut_body c (dump j) missing (omega arith) s.small m h
    ]
