-- ===== src/Config.antt =====
-- include/config.h and src/config.cpp: the configuration of the system. `file` is what the stream gives,
-- `none` where it cannot be opened; `parse_stream` is `file >> j`, which stops behind the first value and
-- so is not `json::parse`. The result `none` is `std::exit(1)`. LOG_* lines are left out, and so is what
-- the integers hold beyond the natural numbers.
pub mod Fields
mod Examples
use x_pilot.Base.{ℕ, Option, none, some, String, if◌then◌else◌, Outcome, done, threw, ◌>>=◌}
use x_pilot.Base.Word.{Bytes}
use x_pilot.Platform.{JsonLib, Parsed, value, parse_error, out_of_range}

pub record Config : Type 0 where
  pub server_ip : String
  pub server_port : ℕ
  pub comm_process_path : String
  pub control_process_path : String
  pub view_process_path : String
  pub log_level : String
  pub shm_path : String
  pub heartbeat_interval : ℕ
  pub heartbeat_timeout : ℕ

-- The object before the file is read.
unfoldable pub default_config : Config
default_config = record {
  server_ip = "";
  server_port = 9000;
  comm_process_path = "";
  control_process_path = "";
  view_process_path = "";
  log_level = "";
  shm_path = "";
  heartbeat_interval = 1;
  heartbeat_timeout = 5;
}

module _ (lib : JsonLib) (parse_stream : Bytes → Parsed lib.Json) where
  open lib use {Json, contains, at, as_string, as_int}

  converted : {A : Type 0} → Option A → Outcome A
  converted none = threw
  converted (some a) = done a

  -- `if (j.contains(key)) field = j[key];`, with the exception of the conversion.
  unfoldable pub read_field : {A : Type 0} → Json → String → (Json → Option A) → A → Outcome A
  unfolding converted
  read_field j key convert old = if contains j key then converted (convert (at j key)) else done old

  -- The body of the `try` block.
  unfoldable pub read_fields : Json → Config → Outcome Config
  unfolding read_field
  read_fields j c = do
    server_ip ← read_field j "server_ip" as_string c.server_ip
    server_port ← read_field j "server_port" as_int c.server_port
    comm_process_path ← read_field j "comm_process_path" as_string c.comm_process_path
    control_process_path ← read_field j "control_process_path" as_string c.control_process_path
    view_process_path ← read_field j "view_process_path" as_string c.view_process_path
    log_level ← read_field j "log_level" as_string c.log_level
    shm_path ← read_field j "shm_path" as_string c.shm_path
    heartbeat_timeout ← read_field j "heartbeat_timeout" as_int c.heartbeat_timeout
    heartbeat_interval ← read_field j "heartbeat_interval" as_int c.heartbeat_interval
    done (record {
      server_ip = server_ip;
      server_port = server_port;
      comm_process_path = comm_process_path;
      control_process_path = control_process_path;
      view_process_path = view_process_path;
      log_level = log_level;
      shm_path = shm_path;
      heartbeat_interval = heartbeat_interval;
      heartbeat_timeout = heartbeat_timeout;
    })

  unfoldable pub read_document : Parsed Json → Outcome Config
  unfolding read_fields default_config
  read_document (value j) = read_fields j default_config
  read_document parse_error = threw
  read_document out_of_range = threw

  -- The `catch` block.
  unfoldable pub caught : Outcome Config → Option Config
  caught (done c) = some c
  caught threw = none

  unfoldable pub load : Option Bytes → Option Config
  unfolding read_document caught
  load none = none
  load (some text) = caught (read_document (parse_stream text))
