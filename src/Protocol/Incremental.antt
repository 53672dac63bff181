-- ===== src/Protocol/Incremental.antt =====
-- Half frames and frames that arrive together: what `parseFrame` does when bytes are added behind the
-- buffer.
use x_pilot.Base.{
  ◌+◌, ◌≤◌, ◌<◌, ◌≡◌, refl, ap, ◌∙◌, some, none, ◌++◌, length, length-append, length-drop, drop,
  take-append_le, drop-append_le, done, threw, arith,
}
use x_pilot.Base.Word.{Bytes, ntohl, ntohl-append}
use x_pilot.Platform.{JsonLib}
use x_pilot.Protocol.{max_body_len, Reply, parse_frame}
use x_pilot.Protocol.Loop.{
  body, rest, IsComplete, parse_frame_oversized, parse_frame_value, parse_frame_threw,
  parse_frame_skip,
}
use x_pilot.Protocol.Scan.{Scan, half, oversized, hit, boom, skip, IsOversized, parse_frame-Scan}

module _ (buf more : Bytes) (c : IsComplete buf) where
  same_length : ntohl (buf ++ more) ≡ ntohl buf
  same_length = ntohl-append buf more (omega arith)

  IsComplete-append : IsComplete (buf ++ more)
  IsComplete-append = omega (arith, same_length, length-append buf more)

  body-append : body (buf ++ more) ≡ body buf
  body-append =
      rw (same_length, drop-append_le 4 buf more (omega arith))
        (take-append_le (ntohl buf) (drop 4 buf) more (omega (arith, length-drop 4 buf)))

  rest-append : rest (buf ++ more) ≡ rest buf ++ more
  rest-append = rw same_length (drop-append_le (4 + ntohl buf) buf more (omega arith))

IsOversized-append : (buf more : Bytes) → IsOversized buf → IsOversized (buf ++ more)
IsOversized-append buf more o =
    omega (arith, ntohl-append buf more o.header, length-append buf more)

module _ (lib : JsonLib) where
  open lib use {Json, parse}

  abbrev pub Extends : Bytes → Bytes → Reply lib → Type 0
  Extends buf more (done (some j, left)) =
      parse_frame lib (buf ++ more) ≡ done (some j, left ++ more)
  Extends buf more (done (none, left)) =
      parse_frame lib (buf ++ more) ≡ parse_frame lib (left ++ more)
  Extends buf more threw = parse_frame lib (buf ++ more) ≡ threw

  carry :
      (x y more : Bytes) (r : Reply lib)
      → parse_frame lib (x ++ more) ≡ parse_frame lib (y ++ more)
      → Extends y more r
      → Extends x more r
  carry x y more (done (some j, left)) e h = e ∙ h
  carry x y more (done (none, left)) e h = e ∙ h
  carry x y more threw e h = e ∙ h

  scan-Extends : {buf : Bytes} {r : Reply lib} (more : Bytes) → Scan lib buf r → Extends buf more r
  scan-Extends more (half buf h) = refl
  scan-Extends more (oversized buf h) = refl
  scan-Extends more (hit buf j c e) =
      parse_frame_value lib (buf ++ more) j (IsComplete-append buf more c)
        (rw (body-append buf more c) e)
      ∙ ap (λ t. done (some j, t)) (rest-append buf more c)
  scan-Extends more (boom buf c e) =
      parse_frame_threw lib (buf ++ more) (IsComplete-append buf more c)
        (rw (body-append buf more c) e)
  scan-Extends more (skip buf {r} c e s) =
      carry buf (rest buf) more r
        (parse_frame_skip lib (buf ++ more) (IsComplete-append buf more c)
            (rw (body-append buf more c) e)
          ∙ ap (parse_frame lib) (rest-append buf more c))
        (scan-Extends more s)

  -- Adding bytes behind a buffer that gave a value gives the same value, and the added bytes stay
  -- behind what was left; adding them to a buffer that gave none gives what adding them to what the
  -- first call left gives, so a frame may arrive in any pieces; a call that threw throws again.
  pub parse_frame-append : (buf more : Bytes) → Extends buf more (parse_frame lib buf)
  parse_frame-append buf more = scan-Extends more (parse_frame-Scan lib buf)

  -- Once a header announces more than 1 MiB, `parseFrame` gives nothing and removes nothing, whatever
  -- bytes are added behind it: the frames that follow are never read.
  pub parse_frame_stuck :
      (buf more : Bytes)
      → 4 ≤ length buf
      → max_body_len < ntohl buf
      → parse_frame lib (buf ++ more) ≡ done (none, buf ++ more)
  parse_frame_stuck buf more h k =
      let o : IsOversized (buf ++ more) =
        IsOversized-append buf more (record { header = h; too_large = k }) in
      parse_frame_oversized lib (buf ++ more) o.header o.too_large
