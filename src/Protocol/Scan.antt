-- ===== src/Protocol/Scan.antt =====
-- The run of `parseFrame` on a buffer as a derivation: bad frames are skipped until a round ends the
-- call. Proofs about all inputs go by induction on it.
use x_pilot.Base.{
  ℕ, zero, suc, ◌+◌, ◌≤◌, ◌<◌, ◌≡◌, refl, sym, ◌⊎◌, inl, inr, some, none, length, done, threw,
  arith,
}
use native.Mathlib.Decide.{dec_lt}
use mathlib.Core.Path.{subst}
use x_pilot.Base.Word.{Bytes, ntohl}
use x_pilot.Platform.{JsonLib, Parsed, value, parse_error, out_of_range}
use x_pilot.Protocol.{max_body_len, Reply, parse_frame}
use x_pilot.Protocol.Loop.{
  body, rest, IsComplete, length-rest, parse_frame_short, parse_frame_oversized, parse_frame_half,
  parse_frame_value, parse_frame_threw, parse_frame_skip,
}

-- A header that announces more than 1 MiB.
pub record IsOversized (buf : Bytes) : Type 0 where
  pub header : 4 ≤ length buf
  pub too_large : max_body_len < ntohl buf

-- A frame of an allowed size whose end is not there yet, or not even its header.
pub data IsHalf (buf : Bytes) : Type 0 where
  no_header : length buf < 4 → IsHalf buf
  no_body : 4 ≤ length buf → ntohl buf ≤ max_body_len → length buf < 4 + ntohl buf → IsHalf buf

buffer_cases : (buf : Bytes) → IsHalf buf ⊎ IsOversized buf ⊎ IsComplete buf
buffer_cases buf = elim (dec_lt (length buf) 4) [
  | yes h ↦ inl (no_header h)
  | no h ↦ elim (dec_lt max_body_len (ntohl buf)) [
    | yes k ↦ inr (inl (omega arith))
    | no k ↦ elim (dec_lt (length buf) (4 + ntohl buf)) [
      | yes l ↦ inl (no_body (omega arith) (omega arith) l)
      | no l ↦ inr (inr (omega arith))
    ]
  ]
]

module _ (lib : JsonLib) where
  open lib use {Json, parse}

  pub data Scan : Bytes → Reply lib → Type 0 where
    half : (buf : Bytes) → IsHalf buf → Scan buf (done (none, buf))
    oversized : (buf : Bytes) → IsOversized buf → Scan buf (done (none, buf))
    hit :
        (buf : Bytes) (j : Json)
        → IsComplete buf
        → parse (body buf) ≡ value j
        → Scan buf (done (some j, rest buf))
    boom : (buf : Bytes) → IsComplete buf → parse (body buf) ≡ out_of_range → Scan buf threw
    skip :
        (buf : Bytes) {r : Reply lib}
        → IsComplete buf
        → parse (body buf) ≡ parse_error
        → Scan (rest buf) r
        → Scan buf r

  pub half_waits : (buf : Bytes) → IsHalf buf → parse_frame lib buf ≡ done (none, buf)
  half_waits buf (no_header h) = parse_frame_short lib buf h
  half_waits buf (no_body h k l) = parse_frame_half lib buf l

  Parsed-cases :
      (p : Parsed Json) → ((j : Json) × (p ≡ value j)) ⊎ (p ≡ parse_error) ⊎ (p ≡ out_of_range)
  Parsed-cases (value j) = inl (j, refl)
  Parsed-cases parse_error = inr (inl refl)
  Parsed-cases out_of_range = inr (inr refl)

  scan_below : (n : ℕ) (buf : Bytes) → length buf < n → Scan buf (parse_frame lib buf)
  scan_below zero buf h = absurd (omega arith)
  scan_below (suc n) buf h = elim (buffer_cases buf) [
    | inl k ↦ subst (Scan buf) (sym (half_waits buf k)) (half buf k)
    | inr (inl k) ↦
        subst (Scan buf) (sym (parse_frame_oversized lib buf k.header k.too_large))
          (oversized buf k)
    | inr (inr c) ↦ elim (Parsed-cases (parse (body buf))) [
      | inl (j, e) ↦ subst (Scan buf) (sym (parse_frame_value lib buf j c e)) (hit buf j c e)
      | inr (inl e) ↦
          subst (Scan buf) (sym (parse_frame_skip lib buf c e))
            (skip buf c e (scan_below n (rest buf) (omega (arith, c, length-rest buf))))
      | inr (inr e) ↦ subst (Scan buf) (sym (parse_frame_threw lib buf c e)) (boom buf c e)
    ]
  ]

  pub parse_frame-Scan : (buf : Bytes) → Scan buf (parse_frame lib buf)
  parse_frame-Scan buf = scan_below (suc (length buf)) buf (omega arith)
