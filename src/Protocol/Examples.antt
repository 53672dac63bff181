-- ===== src/Protocol/Examples.antt =====
-- Runs of `parseFrame`, and its theorems at concrete buffers.
use x_pilot.Base.{◌≤◌, ◌≡◌, refl, some, none, List, [], ◌∷◌, ◌++◌, length, done, threw, arith, All}
use x_pilot.Base.Word.{Bytes, ntohl}
use x_pilot.Platform.{value}
use x_pilot.Platform.Sample.{sample_json, num}
use x_pilot.Protocol.{parse_frame, parse_loop, max_body_len}
use x_pilot.Protocol.Loop.{loop-parse_frame}
use x_pilot.Protocol.Frame.{frame, frames, IsBad, parse_frame-frame}
use x_pilot.Protocol.Incremental.{parse_frame-append, parse_frame_stuck}
use x_pilot.Protocol.Sound.{parse_frame_sound}

-- A frame with the body `7`, and half of one.
abbrev sticky : Bytes
sticky = 0 ∷ 0 ∷ 0 ∷ 1 ∷ 7 ∷ 0 ∷ 0 ∷ 0 ∷ 1 ∷ []

abbrev half : Bytes
half = 0 ∷ 0 ∷ 0 ∷ 1 ∷ []

sticky_test : parse_frame sample_json sticky ≡ done (some (num 7), half)
unfolding parse_frame parse_loop ntohl
sticky_test = refl

bad_test : parse_frame sample_json (0 ∷ 0 ∷ 0 ∷ 1 ∷ 99 ∷ sticky) ≡ done (some (num 7), half)
unfolding parse_frame parse_loop ntohl
bad_test = refl

overflow_test : parse_frame sample_json (0 ∷ 0 ∷ 0 ∷ 1 ∷ 69 ∷ sticky) ≡ threw
unfolding parse_frame parse_loop ntohl
overflow_test = refl

parse_frame-frame_example :
    parse_frame sample_json (frames ((99 ∷ []) ∷ []) ++ (frame (7 ∷ []) ++ half))
    ≡ done (some (num 7), half)
parse_frame-frame_example =
    parse_frame-frame sample_json ((99 ∷ []) ∷ []) (7 ∷ []) half (num 7) ((omega arith, refl), tt)
      (omega arith) refl

loop-parse_frame_example : parse_loop sample_json 30 sticky ≡ some (parse_frame sample_json sticky)
loop-parse_frame_example = loop-parse_frame sample_json 30 sticky (omega arith)

parse_frame-append_example :
    parse_frame sample_json (half ++ 7 ∷ []) ≡ parse_frame sample_json (half ++ 7 ∷ [])
unfolding parse_frame parse_loop ntohl
parse_frame-append_example = parse_frame-append sample_json half (7 ∷ [])

parse_frame_stuck_example :
    parse_frame sample_json ((1 ∷ 0 ∷ 0 ∷ 0 ∷ []) ++ sticky)
    ≡ done (none, (1 ∷ 0 ∷ 0 ∷ 0 ∷ []) ++ sticky)
unfolding ntohl
parse_frame_stuck_example =
    parse_frame_stuck sample_json (1 ∷ 0 ∷ 0 ∷ 0 ∷ []) sticky (omega arith) (omega arith)

parse_frame_sound_example :
    (bad : List Bytes) × (b : Bytes) × All (IsBad sample_json) bad
    × (length b ≤ max_body_len)
    × (sample_json.parse b ≡ value (num 7))
    × (sticky ≡ frames bad ++ (frame b ++ half))
parse_frame_sound_example =
    parse_frame_sound sample_json sticky half (num 7) (omega arith) sticky_test
