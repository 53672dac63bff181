-- ===== src/Protocol.antt =====
-- include/protocol.h and src/protocol.cpp: `parseFrame`, which cuts one frame off the front of the
-- receive buffer. A byte vector is a list of numbers.
pub mod Loop
pub mod Frame
pub mod Scan
pub mod Incremental
pub mod Sound
mod Examples
use x_pilot.Base.{
  ℕ, zero, suc, ◌+◌, ◌*◌, Option, none, some, ltb, if◌then◌else◌, or_else, length, take, drop,
  Outcome, done, threw,
}
use x_pilot.Base.Word.{Bytes, ntohl}
use x_pilot.Platform.{JsonLib, value, parse_error, out_of_range}

abbrev pub frame_header_len : ℕ
frame_header_len = 4

abbrev pub max_body_len : ℕ
max_body_len = 1024 * 1024

module _ (lib : JsonLib) where
  open lib use {Json, parse}

  -- `true` with the parsed value is `some`, `false` is `none`; the second part is the buffer that
  -- the call leaves behind.
  abbrev pub Reply : Type 0
  Reply = Outcome (Option Json × Bytes)

  -- The `while (true)`. Fuel bounds the rounds, and `none` means that it ran out.
  unfoldable pub parse_loop : ℕ → Bytes → Option Reply
  parse_loop zero buffer = none
  parse_loop (suc fuel) buffer =
      let body_len = ntohl buffer in
      let total_len = frame_header_len + body_len in
      let body = take body_len (drop frame_header_len buffer) in
      let rest = drop total_len buffer in
      let complete : Option Reply = elim (parse body) [
        | value j ↦ some (done (some j, rest))
        | parse_error ↦ parse_loop fuel rest
        | out_of_range ↦ some threw
      ] in
      if ltb (length buffer) frame_header_len
      then some (done (none, buffer))
      else if ltb max_body_len body_len
      then some (done (none, buffer))
      else if ltb (length buffer) total_len
      then some (done (none, buffer))
      else complete

  -- A round that goes on drops a header at least, so one round more than the buffer has bytes is
  -- enough: the fallback is never taken.
  unfoldable pub parse_frame : Bytes → Reply
  unfolding parse_loop
  parse_frame buffer = or_else (parse_loop (suc (length buffer)) buffer) (done (none, buffer))
