-- ===== src/Log.antt =====
-- include/utils.h, src/utils.cpp and src/metrics.cpp: the lines of the log and of metrics.log. Texts are byte
-- lists here; the formatted times, and the numbers as text, are arguments. What the program does with a line
-- is a list of outputs in their order: the log's directory made, at most one line to a file and, for the log, one
-- to a stream.
pub mod Names
pub mod Fields
pub mod Reading
pub mod Directory
mod Examples
use x_pilot.Base.{
  ℕ, Bool, true, false, ◌||◌, Option, none, some, List, [], ◌∷◌, ◌++◌, ◌==◌, if◌then◌else◌, ltb,
}
use x_pilot.Base.Word.{Bytes}

pub data LogLevel : Type 0 where
  debug info warning error : LogLevel

-- `levelToString`, in ASCII.
unfoldable pub level_to_string : LogLevel → Bytes
level_to_string debug = 68 ∷ 69 ∷ 66 ∷ 85 ∷ 71 ∷ []
level_to_string info = 73 ∷ 78 ∷ 70 ∷ 79 ∷ []
level_to_string warning = 87 ∷ 65 ∷ 82 ∷ 78 ∷ 73 ∷ 78 ∷ 71 ∷ []
level_to_string error = 69 ∷ 82 ∷ 82 ∷ 79 ∷ 82 ∷ []

-- `/` and `\`.
abbrev pub is_separator : ℕ → Bool
is_separator b = b == 47 || b == 92

-- `file.find_last_of("/\\")` and what stands behind it; `none` is npos.
unfoldable pub after_last : Bytes → Option Bytes
after_last [] = none
after_last (b ∷ bs) =
    let rest = after_last bs in
    elim rest [ some short ↦ some short | none ↦ if is_separator b then some bs else none ]

unfoldable pub short_file : Bytes → Bytes
unfolding after_last
short_file file = elim (after_last file) [ none ↦ file | some short ↦ short ]

-- "log/" process "_" date ".log"
unfoldable pub file_name : Bytes → Bytes → Bytes
file_name process_name date =
    (108 ∷ 111 ∷ 103 ∷ 47 ∷ []) ++ (process_name ++ (95 ∷ (date ++ (46 ∷ 108 ∷ 111 ∷ 103 ∷ []))))

abbrev pub bracket : Bytes → Bytes
bracket text = 91 ∷ (text ++ (93 ∷ []))

-- [time][level][file:line] message
unfoldable pub log_entry : Bytes → LogLevel → Bytes → Bytes → Bytes → Bytes
unfolding level_to_string short_file
log_entry time level file line message =
    bracket time
    ++ (bracket (level_to_string level)
        ++ (bracket (short_file file ++ (58 ∷ line)) ++ (32 ∷ message)))

-- "log"
abbrev pub log_directory : Bytes
log_directory = 108 ∷ 111 ∷ 103 ∷ []

pub data Output : Type 0 where
  made_dir : Bytes → Output
  to_file : Bytes → Bytes → Output
  to_cerr : Bytes → Output
  to_cout : Bytes → Output

console : LogLevel → Bytes → Output
console error entry = to_cerr entry
console _ entry = to_cout entry

unfoldable pub ensure_log_directory : List Output → List Output
ensure_log_directory outputs = made_dir log_directory ∷ outputs

-- `logMessage`, with the answer of the stream's `open`: the outputs in their order.
unfoldable pub log_message :
    Bool → Bytes → Bytes → LogLevel → Bytes → Bytes → Bytes → Bytes → List Output
unfolding log_entry console file_name ensure_log_directory
log_message opened date time level process_name file line message =
    let entry = log_entry time level file line message in
    ensure_log_directory (
      if opened
      then to_file (file_name process_name date) entry ∷ console level entry ∷ []
      else console level entry ∷ [])

-- The macros, with what `logMessage` gets from the system, __FILE__, __LINE__ and the message. "x_pilot" is the
-- name of the process in all of them.
abbrev pub the_process : Bytes
the_process = 120 ∷ 95 ∷ 112 ∷ 105 ∷ 108 ∷ 111 ∷ 116 ∷ []

module _ (opened : Bool) (date time file line message : Bytes) where
  unfoldable pub log_debug : List Output
  unfolding log_message
  log_debug = log_message opened date time debug the_process file line message

  unfoldable pub log_info : List Output
  unfolding log_message
  log_info = log_message opened date time info the_process file line message

  unfoldable pub log_warn : List Output
  unfolding log_message
  log_warn = log_message opened date time warning the_process file line message

  unfoldable pub log_error : List Output
  unfolding log_message
  log_error = log_message opened date time error the_process file line message

-- The order of `std::string`, which the C++ library's `std::map` goes by.
unfoldable pub less : Bytes → Bytes → Bool
less [] [] = false
less [] (b ∷ bs) = true
less (a ∷ as_) [] = false
less (a ∷ as_) (b ∷ bs) = let rest = less as_ bs in if a == b then rest else ltb a b

-- A field of an event. The fields are a `std::map` of the C++ library, which keeps its keys in order and the
-- first value of a key.
pub record Pair : Type 0 where
  pub key : Bytes
  pub text : Bytes

unfoldable pub insert : Pair → List Pair → List Pair
unfolding less
insert p [] = p ∷ []
insert p (q ∷ qs) =
    let rest = insert p qs in
    if less p.key q.key then p ∷ q ∷ qs else if less q.key p.key then q ∷ rest else q ∷ qs

unfoldable pub make_map : List Pair → List Pair → List Pair
make_map m [] = m
make_map m (p ∷ ps) = make_map (insert p m) ps

unfoldable pub show_fields : List Pair → Bytes
show_fields [] = []
show_fields (p ∷ ps) = 32 ∷ (p.key ++ (61 ∷ (p.text ++ show_fields ps)))

-- The line of an event: [time] event=name key=value ...
unfoldable pub metrics_line : Bytes → Bytes → List Pair → Bytes
unfolding show_fields make_map
metrics_line time event_name fields =
    bracket time
    ++ ((32 ∷ 101 ∷ 118 ∷ 101 ∷ 110 ∷ 116 ∷ 61 ∷ [])
        ++ (event_name ++ show_fields (make_map [] fields)))

-- "log/metrics.log"
abbrev pub metrics_file : Bytes
metrics_file =
    108 ∷ 111 ∷ 103 ∷ 47 ∷ 109 ∷ 101 ∷ 116 ∷ 114 ∷ 105 ∷ 99 ∷ 115 ∷ 46 ∷ 108 ∷ 111 ∷ 103 ∷ []

-- `Metrics::emit`, with the answer of the stream's `open`.
unfoldable pub emit : Bool → Bytes → Bytes → List Pair → List Output
unfolding metrics_line
emit opened time event_name fields =
    if opened then to_file metrics_file (metrics_line time event_name fields) ∷ [] else []
