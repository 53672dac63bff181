-- ===== src/Config/Fields.antt =====
-- The configuration, field by field.
use mathlib.Core.Path.{subst}
use x_pilot.Base.{
  ◌≡◌, ◌↔◌, inl, inr, refl, Bool-cases, true, false, Option, some, String, Outcome, done, threw,
  >>=-eq-done, done-injective, arith,
}
use x_pilot.Base.Word.{Bytes}
use x_pilot.Platform.{JsonLib, Parsed, value, parse_error, out_of_range}
use x_pilot.Config.{Config, default_config, read_field, read_fields, read_document, caught, load}

module _ (lib : JsonLib) (parse_stream : Bytes → Parsed lib.Json) where
  open lib use {Json, contains, at, as_string, as_int}

  -- The field has the value of the key, or the default where the document has no such key.
  pub data Field {A : Type 0} (j : Json) (key : String) (convert : Json → Option A) (default : A)
      : A → Type 0 where
    given :
        (a : A)
        → contains j key ≡ true
        → convert (at j key) ≡ some a
        → Field j key convert default a
    missing : contains j key ≡ false → Field j key convert default default

  Field-read :
      {A : Type 0} (j : Json) (key : String) (convert : Json → Option A) (default a : A)
      → Field j key convert default a
      → read_field lib parse_stream j key convert default ≡ done a
  unfolding read_field
  Field-read j key convert default _ (given a h k) = ground arith
  Field-read j key convert _ _ (missing h) = ground arith

  read-Field :
      {A : Type 0} (j : Json) (key : String) (convert : Json → Option A) (default a : A)
      → read_field lib parse_stream j key convert default ≡ done a
      → Field j key convert default a
  unfolding read_field
  read-Field j key convert default a h = elim (Bool-cases (contains j key)) [
    | inl k ↦ given a k (ground arith)
    | inr k ↦
        let e : default ≡ a = ground arith in subst (Field j key convert default) e (missing k)
  ]

  -- The configuration that a document means.
  pub record IsMeant (j : Json) (c : Config) : Type 0 where
    pub server_ip : Field j "server_ip" as_string "" c.server_ip
    pub server_port : Field j "server_port" as_int 9000 c.server_port
    pub comm_process_path : Field j "comm_process_path" as_string "" c.comm_process_path
    pub control_process_path : Field j "control_process_path" as_string "" c.control_process_path
    pub view_process_path : Field j "view_process_path" as_string "" c.view_process_path
    pub log_level : Field j "log_level" as_string "" c.log_level
    pub shm_path : Field j "shm_path" as_string "" c.shm_path
    pub heartbeat_timeout : Field j "heartbeat_timeout" as_int 5 c.heartbeat_timeout
    pub heartbeat_interval : Field j "heartbeat_interval" as_int 1 c.heartbeat_interval

  IsMeant-read :
      (j : Json) (c : Config) → IsMeant j c → read_fields lib parse_stream j default_config ≡ done c
  unfolding read_fields default_config
  IsMeant-read j c m =
      rw
        (
          Field-read j "server_ip" as_string "" c.server_ip m.server_ip,
          Field-read j "server_port" as_int 9000 c.server_port m.server_port,
          Field-read j "comm_process_path" as_string "" c.comm_process_path m.comm_process_path,
          Field-read j "control_process_path" as_string "" c.control_process_path
              m.control_process_path,
          Field-read j "view_process_path" as_string "" c.view_process_path m.view_process_path,
          Field-read j "log_level" as_string "" c.log_level m.log_level,
          Field-read j "shm_path" as_string "" c.shm_path m.shm_path,
          Field-read j "heartbeat_timeout" as_int 5 c.heartbeat_timeout m.heartbeat_timeout,
          Field-read j "heartbeat_interval" as_int 1 c.heartbeat_interval m.heartbeat_interval,
        )
        refl

  read-IsMeant :
      (j : Json) (c : Config) → read_fields lib parse_stream j default_config ≡ done c → IsMeant j c
  unfolding read_fields default_config
  read-IsMeant j c h =
      let (a1, h1, r1) = >>=-eq-done (read_field lib parse_stream j "server_ip" as_string "") _ h in
      let (a2, h2, r2) =
        >>=-eq-done (read_field lib parse_stream j "server_port" as_int 9000) _ r1 in
      let (a3, h3, r3) =
        >>=-eq-done (read_field lib parse_stream j "comm_process_path" as_string "") _ r2 in
      let (a4, h4, r4) =
        >>=-eq-done (read_field lib parse_stream j "control_process_path" as_string "") _ r3 in
      let (a5, h5, r5) =
        >>=-eq-done (read_field lib parse_stream j "view_process_path" as_string "") _ r4 in
      let (a6, h6, r6) =
        >>=-eq-done (read_field lib parse_stream j "log_level" as_string "") _ r5 in
      let (a7, h7, r7) = >>=-eq-done (read_field lib parse_stream j "shm_path" as_string "") _ r6 in
      let (a8, h8, r8) =
        >>=-eq-done (read_field lib parse_stream j "heartbeat_timeout" as_int 5) _ r7 in
      let (a9, h9, r9) =
        >>=-eq-done (read_field lib parse_stream j "heartbeat_interval" as_int 1) _ r8 in
      subst (IsMeant j) (done-injective r9) (record {
        server_ip = read-Field j "server_ip" as_string "" a1 h1;
        server_port = read-Field j "server_port" as_int 9000 a2 h2;
        comm_process_path = read-Field j "comm_process_path" as_string "" a3 h3;
        control_process_path = read-Field j "control_process_path" as_string "" a4 h4;
        view_process_path = read-Field j "view_process_path" as_string "" a5 h5;
        log_level = read-Field j "log_level" as_string "" a6 h6;
        shm_path = read-Field j "shm_path" as_string "" a7 h7;
        heartbeat_timeout = read-Field j "heartbeat_timeout" as_int 5 a8 h8;
        heartbeat_interval = read-Field j "heartbeat_interval" as_int 1 a9 h9;
      })

  caught_done : (o : Outcome Config) (c : Config) → caught lib parse_stream o ≡ some c → o ≡ done c
  unfolding caught
  caught_done (done d) c h = cc
  caught_done threw c h = cc

  loaded :
      (r : Parsed Json) (c : Config)
      → caught lib parse_stream (read_document lib parse_stream r) ≡ some c
      → (j : Json) × (r ≡ value j) × IsMeant j c
  unfolding read_document caught
  loaded (value j) c h =
      (j, refl, read-IsMeant j c (caught_done (read_fields lib parse_stream j default_config) c h))
  loaded parse_error c h = cc
  loaded out_of_range c h = cc

  -- The configuration is loaded exactly if the file holds a JSON document in which every field that is
  -- there can be converted, and then each field is that of the document, or its default: 9000 for the
  -- port, 1 and 5 seconds for the heartbeat, the empty text for the others.
  pub load_exact :
      (text : Bytes) (c : Config)
      → (load lib parse_stream (some text) ≡ some c)
        ↔ ((j : Json) × (parse_stream text ≡ value j) × IsMeant j c)
  unfolding load read_document caught
  load_exact text c =
      (loaded (parse_stream text) c, λ (j, p, m). rw p (rw (IsMeant-read j c m) refl))
