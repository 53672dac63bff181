-- ===== src/Log/Examples.antt =====
-- The log at concrete inputs.
use x_pilot.Base.{ℕ, ◌≡◌, refl, true, List, [], ◌∷◌}
use x_pilot.Base.Word.{Bytes}
use x_pilot.Log.{
  Pair, warning, short_file, log_message, made_dir, log_directory, to_file, to_cout, file_name,
  less, insert, make_map, metrics_line,
}
use x_pilot.Log.Fields.{IsSorted, find}
use x_pilot.Log.Reading.{read_line, event_key, metrics_line_read}
use x_pilot.Log.Directory.{Event}

-- "a/b\c" is shortened to "c".
short_name : short_file (97 ∷ 47 ∷ 98 ∷ 92 ∷ 99 ∷ []) ≡ 99 ∷ []
unfolding short_file
short_name = refl

-- A warning goes to the file and to standard output.
warned :
    log_message true (49 ∷ []) (50 ∷ []) warning (112 ∷ []) (97 ∷ 47 ∷ 98 ∷ []) (55 ∷ []) (120 ∷ [])
    ≡ made_dir log_directory
      ∷ to_file (file_name (112 ∷ []) (49 ∷ [])) (
          91 ∷ 50 ∷ 93 ∷ 91 ∷ 87 ∷ 65 ∷ 82 ∷ 78 ∷ 73 ∷ 78 ∷ 71 ∷ 93 ∷ 91 ∷ 98 ∷ 58 ∷ 55 ∷ 93 ∷ 32
          ∷ 120 ∷ [])
      ∷ to_cout (
          91 ∷ 50 ∷ 93 ∷ 91 ∷ 87 ∷ 65 ∷ 82 ∷ 78 ∷ 73 ∷ 78 ∷ 71 ∷ 93 ∷ 91 ∷ 98 ∷ 58 ∷ 55 ∷ 93 ∷ 32
          ∷ 120 ∷ [])
      ∷ []
unfolding log_message
warned = refl

abbrev pair : ℕ → ℕ → Pair
pair k v = record { key = k ∷ []; text = v ∷ [] }

-- The fields are in the order of their keys, and the first value of a key stays.
ordered : make_map [] (pair 98 1 ∷ pair 97 2 ∷ pair 98 3 ∷ []) ≡ pair 97 2 ∷ pair 98 1 ∷ []
unfolding make_map insert less
ordered = refl

metrics_line_read_example :
    (m : List Pair) × (read_line
        (metrics_line (49 ∷ []) (112 ∷ []) (pair 98 1 ∷ pair 97 2 ∷ pair 98 3 ∷ []))
      ≡ (49 ∷ [], record { key = event_key; text = 112 ∷ [] } ∷ m))
    × IsSorted m
    × ((k : Bytes) → find k m ≡ find k (pair 98 1 ∷ pair 97 2 ∷ pair 98 3 ∷ []))
metrics_line_read_example =
    metrics_line_read (49 ∷ []) (112 ∷ []) (pair 98 1 ∷ pair 97 2 ∷ pair 98 3 ∷ []) (refl, tt)
      (refl, tt)
      (
        ((refl, tt), (refl, tt), (refl, tt)),
        (((refl, tt), (refl, tt), (refl, tt)), (((refl, tt), (refl, tt), (refl, tt)), tt)),
      )

-- The manager's "process_start" on a fresh tree, before its first line of the log.
abbrev event : ℕ → Event
event n = record { time = n ∷ []; name = 112 ∷ []; fields = [] }
