-- ===== src/Protocol/Loop.antt =====
-- The loop of `parseFrame` ends, and the equations that it satisfies.
use x_pilot.Base.{
  ℕ, zero, suc, ◌+◌, ◌-◌, ◌≤◌, ◌<◌, ◌≡◌, refl, ◌∙◌, ◌≢◌, Option, none, some, or_else, length, take,
  drop, length-drop, done, threw, arith,
}
use x_pilot.Base.Word.{Bytes, ntohl}
use x_pilot.Platform.{JsonLib, value, parse_error, out_of_range}
use x_pilot.Protocol.{frame_header_len, max_body_len, Reply, parse_loop, parse_frame}

-- The body that the header announces, and what stands behind it.
abbrev pub body : Bytes → Bytes
body buf = take (ntohl buf) (drop frame_header_len buf)

abbrev pub rest : Bytes → Bytes
rest buf = drop (frame_header_len + ntohl buf) buf

-- The buffer starts with a whole frame of an allowed size.
pub record IsComplete (buf : Bytes) : Type 0 where
  pub allowed : ntohl buf ≤ max_body_len
  pub whole : frame_header_len + ntohl buf ≤ length buf

pub length-rest : (buf : Bytes) → length (rest buf) ≡ length buf - (4 + ntohl buf)
length-rest buf = length-drop (4 + ntohl buf) buf

module _ (lib : JsonLib) where
  open lib use {Json, parse}

  -- More fuel than bytes: the amount does not matter.
  fuel_irrelevant :
      (f g : ℕ) (buf : Bytes)
      → length buf < f
      → length buf < g
      → parse_loop lib f buf ≡ parse_loop lib g buf
  unfolding parse_loop
  fuel_irrelevant zero g buf hf hg = absurd (omega arith)
  fuel_irrelevant (suc f) zero buf hf hg = absurd (omega arith)
  fuel_irrelevant (suc f) (suc g) buf hf hg =
      ground (arith, length-rest buf, fuel_irrelevant f g (rest buf))

  loop-ne-none : (f : ℕ) (buf : Bytes) → length buf < f → parse_loop lib f buf ≢ none
  unfolding parse_loop
  loop-ne-none zero buf h = absurd (omega arith)
  loop-ne-none (suc f) buf h = ground (arith, length-rest buf, loop-ne-none f (rest buf))

  some_of_ne-none : (o : Option (Reply lib)) (d : Reply lib) → o ≢ none → o ≡ some (or_else o d)
  some_of_ne-none none d h = absurd (h refl)
  some_of_ne-none (some r) d h = refl

  -- `parseFrame` terminates on every buffer: with more fuel than the buffer has bytes the loop comes
  -- to its end, and its result is that of `parse_frame`.
  pub loop-parse_frame :
      (f : ℕ) (buf : Bytes) → length buf < f → parse_loop lib f buf ≡ some (parse_frame lib buf)
  unfolding parse_frame
  loop-parse_frame f buf h =
      fuel_irrelevant f (suc (length buf)) buf h (omega arith)
      ∙ some_of_ne-none _ _ (loop-ne-none (suc (length buf)) buf (omega arith))

  unsome : (o : Option (Reply lib)) (r s : Reply lib) → o ≡ some r → o ≡ some s → r ≡ s
  unsome o r s p q = cc

  -- The branches of one round.
  pub parse_frame_short : (buf : Bytes) → length buf < 4 → parse_frame lib buf ≡ done (none, buf)
  unfolding parse_frame parse_loop
  parse_frame_short buf h = ground arith

  pub parse_frame_oversized :
      (buf : Bytes)
      → 4 ≤ length buf
      → max_body_len < ntohl buf
      → parse_frame lib buf ≡ done (none, buf)
  unfolding parse_frame parse_loop
  parse_frame_oversized buf h k = ground arith

  pub parse_frame_half :
      (buf : Bytes) → length buf < 4 + ntohl buf → parse_frame lib buf ≡ done (none, buf)
  unfolding parse_frame parse_loop
  parse_frame_half buf h = ground arith

  pub parse_frame_value :
      (buf : Bytes) (j : Json)
      → IsComplete buf
      → parse (body buf) ≡ value j
      → parse_frame lib buf ≡ done (some j, rest buf)
  unfolding parse_frame parse_loop
  parse_frame_value buf j c e = ground arith

  pub parse_frame_threw :
      (buf : Bytes) → IsComplete buf → parse (body buf) ≡ out_of_range → parse_frame lib buf ≡ threw
  unfolding parse_frame parse_loop
  parse_frame_threw buf c e = ground arith

  pub parse_frame_skip :
      (buf : Bytes)
      → IsComplete buf
      → parse (body buf) ≡ parse_error
      → parse_frame lib buf ≡ parse_frame lib (rest buf)
  parse_frame_skip buf c e =
      unsome (parse_loop lib (suc (length buf)) buf) _ _
        (loop-parse_frame (suc (length buf)) buf (omega arith))
        (one_round ∙ loop-parse_frame (length buf) (rest buf) (omega (arith, c, length-rest buf)))
    where
      one_round : parse_loop lib (suc (length buf)) buf ≡ parse_loop lib (length buf) (rest buf)
      one_round = unfold parse_loop in ground arith
