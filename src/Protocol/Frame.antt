-- ===== src/Protocol/Frame.antt =====
-- Frames as the senders write them: a length in network byte order, then the body.
use x_pilot.Base.{
  ◌+◌, ◌≤◌, ◌≡◌, refl, ap, ◌∙◌, some, List, [], ◌∷◌, ◌++◌, append_assoc, length, length-append,
  drop, take-append, drop-append, done, threw, arith, All,
}
use x_pilot.Base.Word.{Bytes, htonl, ntohl, length-htonl, ntohl-htonl}
use x_pilot.Platform.{JsonLib, value, parse_error, out_of_range}
use x_pilot.Protocol.{max_body_len, parse_frame}
use x_pilot.Protocol.Loop.{
  body, rest, IsComplete, parse_frame_value, parse_frame_threw, parse_frame_skip,
}

unfoldable pub frame : Bytes → Bytes
frame b = htonl (length b) ++ b

unfoldable pub frames : List Bytes → Bytes
frames [] = []
frames (b ∷ bs) = frame b ++ frames bs

pub length-frame : (b : Bytes) → length (frame b) ≡ 4 + length b
unfolding frame
length-frame b = omega (arith, length-append (htonl (length b)) b, length-htonl (length b))

module _ (b tail : Bytes) (small : length b ≤ max_body_len) where
  pub ntohl-frame : ntohl (frame b ++ tail) ≡ length b
  unfolding frame
  ntohl-frame =
      rw (append_assoc (htonl (length b)) b tail)
        (omega (arith, ntohl-htonl (length b) (b ++ tail)))

  drop_header : drop 4 (frame b ++ tail) ≡ b ++ tail
  unfolding frame
  drop_header =
      rw (append_assoc (htonl (length b)) b tail)
        (drop-append 4 (htonl (length b)) (b ++ tail) (omega (arith, length-htonl (length b))))

  pub body-frame : body (frame b ++ tail) ≡ b
  body-frame = rw (drop_header, ntohl-frame) (take-append (length b) b tail refl)

  pub rest-frame : rest (frame b ++ tail) ≡ tail
  rest-frame =
      drop-append (4 + ntohl (frame b ++ tail)) (frame b) tail
        (omega (arith, ntohl-frame, length-frame b))

  pub frame-IsComplete : IsComplete (frame b ++ tail)
  frame-IsComplete = omega (arith, ntohl-frame, length-frame b, length-append (frame b) tail)

module _ (lib : JsonLib) where
  open lib use {Json, parse}

  -- A body of an allowed size that is no JSON text.
  abbrev pub IsBad : Bytes → Type 0
  IsBad b = (length b ≤ max_body_len) × (parse b ≡ parse_error)

  -- The call does not see such frames.
  parse_frame-frames :
      (bad : List Bytes) (buf : Bytes)
      → All IsBad bad
      → parse_frame lib (frames bad ++ buf) ≡ parse_frame lib buf
  unfolding frames
  parse_frame-frames [] buf h = refl
  parse_frame-frames (x ∷ bad) buf (hx, h) =
      let later = frames bad ++ buf in
      rw (append_assoc (frame x) (frames bad) buf) (
        parse_frame_skip lib (frame x ++ later) (frame-IsComplete x later hx.0)
          (rw (body-frame x later hx.0) hx.1)
        ∙ ap (parse_frame lib) (rest-frame x later hx.0)
        ∙ parse_frame-frames bad buf h)

  -- A buffer that starts with frames whose bodies are no JSON text, however many, and goes on with
  -- the frame of a JSON text of at most 1 MiB: `parseFrame` gives the value of that text, and leaves
  -- exactly the bytes behind its frame.
  pub parse_frame-frame :
      (bad : List Bytes) (b tail : Bytes) (j : Json)
      → All IsBad bad
      → length b ≤ max_body_len
      → parse b ≡ value j
      → parse_frame lib (frames bad ++ (frame b ++ tail)) ≡ done (some j, tail)
  parse_frame-frame bad b tail j h small e =
      parse_frame-frames bad (frame b ++ tail) h
      ∙ parse_frame_value lib (frame b ++ tail) j (frame-IsComplete b tail small)
          (rw (body-frame b tail small) e)
      ∙ ap (λ t. done (some j, t)) (rest-frame b tail small)

  -- Where the frame of a number that no double holds comes first, the call throws.
  pub parse_frame-hostile :
      (bad : List Bytes) (b tail : Bytes)
      → All IsBad bad
      → length b ≤ max_body_len
      → parse b ≡ out_of_range
      → parse_frame lib (frames bad ++ (frame b ++ tail)) ≡ threw
  parse_frame-hostile bad b tail h small e =
      parse_frame-frames bad (frame b ++ tail) h
      ∙ parse_frame_threw lib (frame b ++ tail) (frame-IsComplete b tail small)
          (rw (body-frame b tail small) e)
