-- ===== src/Config/Examples.antt =====
-- The configuration of a small file.
use x_pilot.Base.{◌≡◌, ◌↔◌, refl, some, [], ◌∷◌}
use x_pilot.Base.Word.{Bytes}
use x_pilot.Platform.{Parsed, value}
use x_pilot.Platform.Sample.{sample_json, Value, num, word, obj, end, field}
use x_pilot.Config.{Config, load}
use x_pilot.Config.Fields.{IsMeant, load_exact}

abbrev document : Value
document = obj (field "server_port" (num 8888) (field "server_ip" (word "10.0.0.1") end))

abbrev always : Bytes → Parsed Value
always text = value document

abbrev expected : Config
expected = record {
  server_ip = "10.0.0.1";
  server_port = 8888;
  comm_process_path = "";
  control_process_path = "";
  view_process_path = "";
  log_level = "";
  shm_path = "";
  heartbeat_interval = 1;
  heartbeat_timeout = 5;
}

document_loaded : load sample_json always (some (123 ∷ [])) ≡ some expected
unfolding load
document_loaded = refl

load_exact_example :
    (load sample_json always (some (123 ∷ [])) ≡ some expected)
    ↔ ((j : Value) × (always (123 ∷ []) ≡ value j) × IsMeant sample_json always j expected)
load_exact_example = load_exact sample_json always (123 ∷ []) expected
