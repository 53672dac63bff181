-- ===== src/Protocol/Sound.antt =====
-- The converse of the round trip: what a successful `parseFrame` says of the buffer.
use mathlib.Core.Path.{subst}
use x_pilot.Base.{
  ℕ, ◌+◌, ◌≤◌, ◌<◌, ◌≡◌, sym, ap, ◌∙◌, some, none, List, [], ◌∷◌, ◌++◌, append_assoc, length,
  length-take, length-drop, drop, take-append-drop, drop-drop, All, All-drop, done, threw, arith,
}
use x_pilot.Base.Word.{Bytes, htonl, ntohl}
use x_pilot.Platform.{JsonLib, value, parse_error}
use x_pilot.Protocol.{max_body_len, Reply, parse_frame}
use x_pilot.Protocol.Loop.{body, rest, IsComplete}
use x_pilot.Protocol.Frame.{frame, frames, IsBad}
use x_pilot.Protocol.Scan.{Scan, half, oversized, hit, boom, skip, parse_frame-Scan}

abbrev pub IsByte : ℕ → Type 0
IsByte b = b < 256

-- Four bytes are the header of the number that they spell.
header_of_ntohl :
    (buf : Bytes) → All IsByte buf → 4 ≤ length buf → buf ≡ htonl (ntohl buf) ++ drop 4 buf
unfolding htonl ntohl
header_of_ntohl [] h l = absurd (omega arith)
header_of_ntohl (a ∷ []) h l = absurd (omega arith)
header_of_ntohl (a ∷ b ∷ []) h l = absurd (omega arith)
header_of_ntohl (a ∷ b ∷ c ∷ []) h l = absurd (omega arith)
header_of_ntohl (a ∷ b ∷ c ∷ d ∷ xs) (ha, (hb, (hc, (hd, _)))) l = ground arith

length-body : (buf : Bytes) → IsComplete buf → length (body buf) ≡ ntohl buf
length-body buf c = omega (arith, length-take (ntohl buf) (drop 4 buf), length-drop 4 buf)

frame-body : (buf : Bytes) → All IsByte buf → IsComplete buf → buf ≡ frame (body buf) ++ rest buf
unfolding frame
frame-body buf h c =
    header_of_ntohl buf h (omega arith)
    ∙ ap (◌++◌ (htonl (ntohl buf))) (
        sym (take-append-drop (ntohl buf) (drop 4 buf))
        ∙ ap (◌++◌ (body buf)) (drop-drop 4 (ntohl buf) buf))
    ∙ ap (λ n. htonl n ++ (body buf ++ rest buf)) (sym (length-body buf c))
    ∙ sym (append_assoc (htonl (length (body buf))) (body buf) (rest buf))

module _ (lib : JsonLib) where
  open lib use {Json, parse}

  abbrev Explains : Bytes → Reply lib → Type 0
  Explains buf (done (some j, left)) =
      (bad : List Bytes) × (b : Bytes) × All (IsBad lib) bad
      × (length b ≤ max_body_len)
      × (parse b ≡ value j)
      × (buf ≡ frames bad ++ (frame b ++ left))
  Explains buf (done (none, left)) = Unit {0}
  Explains buf threw = Unit {0}

  explain_skip :
      (buf : Bytes) (r : Reply lib)
      → All IsByte buf
      → IsComplete buf
      → parse (body buf) ≡ parse_error
      → Explains (rest buf) r
      → Explains buf r
  unfolding frames
  explain_skip buf (done (some j, left)) h c e (bad, b, hbad, small, found, eq) = (
    body buf ∷ bad,
    b,
    ((omega (arith, length-body buf c), e), hbad),
    small,
    found,
    frame-body buf h c
        ∙ ap (◌++◌ (frame (body buf))) eq
        ∙ sym (append_assoc (frame (body buf)) (frames bad) (frame b ++ left)),
  )
  explain_skip buf (done (none, left)) h c e x = tt
  explain_skip buf threw h c e x = tt

  scan-Explains : {buf : Bytes} {r : Reply lib} → All IsByte buf → Scan lib buf r → Explains buf r
  unfolding frames
  scan-Explains h (half buf k) = tt
  scan-Explains h (oversized buf k) = tt
  scan-Explains h (hit buf j c e) =
      ([], body buf, tt, omega (arith, length-body buf c), e, frame-body buf h c)
  scan-Explains h (boom buf c e) = tt
  scan-Explains h (skip buf {r} c e s) =
      explain_skip buf r h c e (scan-Explains (All-drop IsByte (4 + ntohl buf) buf h) s)

  -- A value that `parseFrame` gives is that of a JSON text whose frame stands in the buffer: before the
  -- frame stand only frames whose bodies are no JSON text, and behind it the bytes that are left.
  pub parse_frame_sound :
      (buf left : Bytes) (j : Json)
      → All IsByte buf
      → parse_frame lib buf ≡ done (some j, left)
      → (bad : List Bytes) × (b : Bytes) × All (IsBad lib) bad
        × (length b ≤ max_body_len)
        × (parse b ≡ value j)
        × (buf ≡ frames bad ++ (frame b ++ left))
  parse_frame_sound buf left j h e =
      scan-Explains h (subst (Scan lib buf) e (parse_frame-Scan lib buf))
