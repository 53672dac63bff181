-- ===== src/Log/Directory.antt =====
-- Which lines reach the directory of the logs: `logMessage` makes it, `emit` does not.
use x_pilot.Base.{◌≡◌, refl, Bool, true, false, ◌&&◌, ◌||◌, List, [], ◌∷◌, ◌++◌, map}
use x_pilot.Base.Word.{Bytes}
use x_pilot.Log.{LogLevel, Output, to_file, Pair, log_message, metrics_file, metrics_line, emit}

pub record Event : Type 0 where
  pub time : Bytes
  pub name : Bytes
  pub fields : List Pair

-- A call that a process makes: of `logMessage` with the date, the time, the level, the process, the file, the
-- line and the message; or of `emit`.
pub data Call : Type 0 where
  logs : Bytes → Bytes → LogLevel → Bytes → Bytes → Bytes → Bytes → Call
  emits : Event → Call

-- The outputs of a call, where the directory is there or not, and whether `open` works in a directory
-- that is there. In a directory that is not there no file can be opened.
pub outputs : Bool → Bool → Call → List Output
unfolding emit log_message
outputs there works (logs date time level process file line message) =
    log_message works date time level process file line message
outputs there works (emits e) = emit (there && works) e.time e.name e.fields

abbrev makes_directory : Call → Bool
makes_directory (logs _ _ _ _ _ _ _) = true
makes_directory (emits e) = false

unfoldable pub all_outputs : Bool → List (Bool × Call) → List Output
unfolding outputs
all_outputs there [] = []
all_outputs there ((works, c) ∷ cs) =
    outputs there works c ++ all_outputs (there || makes_directory c) cs

-- Where the directory is not there yet, and `mkdir` makes it, the events before the first line of the log are lost, whatever `open`
-- answers; the first line of the log makes the directory, and an event after it is written if `open` works.
pub early_events_lost :
    (events : List (Bool × Event)) (date time process file line message : Bytes) (level : LogLevel)
    (works : Bool) (e : Event) (rest : List (Bool × Call))
    → all_outputs false (
        map (λ q. (q.0, emits q.1)) events
        ++ (works, logs date time level process file line message) ∷ (true, emits e) ∷ rest)
      ≡ log_message works date time level process file line message
        ++ (to_file metrics_file (metrics_line e.time e.name e.fields) ∷ all_outputs true rest)
unfolding all_outputs emit
early_events_lost [] date time process file line message level works e rest = refl
early_events_lost ((w, f) ∷ events) date time process file line message level works e rest =
    early_events_lost events date time process file line message level works e rest
