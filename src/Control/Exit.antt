-- ===== src/Control/Exit.antt =====
-- `main` of the control process when it has returned.
use mathlib.Core.Path.{subst}
use x_pilot.Base.{
  ℕ, ◌+◌, ◌<◌, ◌≡◌, Bool, false, Option, some, [], ◌∷◌, String, done, >>=-eq-done, arith,
}
use x_pilot.Base.Word.{Bytes}
use x_pilot.Platform.{JsonLib, DoubleLib, Parsed}
use x_pilot.Effects.{opens, closes, holds}
use x_pilot.Config.{Config}
use x_pilot.Ipc.{drop_server, close_server}
use x_pilot.Raii.Release.{fds_got, fds_closed, maps_made, maps_dropped, Opening, run, all_released}
use x_pilot.Control.{FlightController, new_controller}
use x_pilot.Control.Mission.{StartEnv, prepare, wait_client, after_wait, MissionEnv, run_mission}
use x_pilot.Control.Release.{
  IsAccounted, mapped_by, waited-IsAccounted, prepared-IsAccounted, prepared_alone,
  after_wait-IsAccounted, either_way,
}
use x_pilot.Control.Plan.{FlightConfig, load_config, destroyed, run_control}

module _ (lib : JsonLib) (doubles : DoubleLib) (fd : ℕ) (positive : 0 < fd) where
  open lib use {Json}
  open doubles use {Double}

  module _ (as_double : Json → Option Double) (of_double : Double → Json) where
    run_mission-IsAccounted :
        (target speed : Double) (path : String) (env : MissionEnv lib doubles as_double of_double)
        (r : Bool × FlightController lib doubles)
        → run_mission lib doubles as_double of_double
            (new_controller lib doubles)
            target
            speed
            path
            env
          ≡ done r
        → IsAccounted lib doubles fd positive (mapped_by lib doubles fd positive path env.start) r.1
    unfolding run_mission
    run_mission-IsAccounted target speed path env r h =
        let owner = mapped_by lib doubles fd positive path env.start in
        let ready = prepare lib doubles (new_controller lib doubles) path speed env.start in
        let known = prepared-IsAccounted lib doubles fd positive path speed env.start in
        let waited = wait_client lib doubles false ready.0 env.waits in
        either_way lib doubles fd positive owner as_double of_double ready.1
          (after_wait lib doubles as_double of_double waited.0 waited.1 target env.actions) ready.0
          r
          (after_wait-IsAccounted lib doubles fd positive owner as_double of_double waited.0
            waited.1 target env.actions r
            (waited-IsAccounted lib doubles fd positive owner env.waits false ready.0
              (prepared_alone lib doubles fd positive path speed env.start) known))
          known h

  -- What is left when the object is destroyed.
  abbrev pub IsReleased : ℕ → FlightController lib doubles → Type 0
  IsReleased x c =
      (opens fd c.server.trace
        ≡ closes fd c.server.trace + closes fd c.trace + holds fd c.client_fd)
      × (fds_closed x c.shm_owner.trace ≡ fds_got x c.shm_owner.trace)
      × (maps_dropped x c.shm_owner.trace ≡ maps_made x c.shm_owner.trace)

  destroyed-IsReleased :
      (x : ℕ) (path : String) (env : StartEnv) (c : FlightController lib doubles)
      → IsAccounted lib doubles fd positive (mapped_by lib doubles fd positive path env) c
      → IsReleased x (destroyed lib doubles c)
  unfolding destroyed drop_server close_server run
  destroyed-IsReleased x path env c h =
      let one : Opening = record {
        name = path;
        size = env.size;
        read_only = false;
        env = env.shm;
      } in
      let back = all_released x (one ∷ []) in ground (arith, h, back)

  module _ (parse_stream : Bytes → Parsed Json)
      (text_value : Json → String → String → Option String)
      (double_value : Json → String → Double → Option Double) (as_double : Json → Option Double)
      (of_double : Double → Json) where
    -- When `main` of the control process returns, whether its mission came to its end or to an early return: each
    -- descriptor but 0 that `socket` and `accept` gave it has been closed, but for the client's if one is
    -- connected, which is left open; and the descriptor and the mapping of the shared memory have been given
    -- back.
    pub control_main_releases :
        (x : ℕ) (cfg : Config) (old : FlightConfig lib doubles) (file : Option Bytes)
        (env : MissionEnv lib doubles as_double of_double) (flown : Bool)
        (c : FlightController lib doubles)
        → run_control lib doubles parse_stream text_value double_value as_double of_double
            (some cfg)
            old
            file
            env
          ≡ done (some (flown, c))
        → IsReleased x c
    unfolding run_control
    control_main_releases x cfg old file env flown c h =
        let plan = load_config lib doubles parse_stream text_value double_value old file in
        let (r, ran, back) =
          >>=-eq-done
            (run_mission lib doubles as_double of_double (new_controller lib doubles) plan.altitude
              plan.speed cfg.shm_path env)
            (λ r. done (some (r.0, destroyed lib doubles r.1))) h in
        let same : destroyed lib doubles r.1 ≡ c = cc in
        subst (IsReleased x) same (
          destroyed-IsReleased x cfg.shm_path env.start r.1 (
            run_mission-IsAccounted as_double of_double plan.altitude plan.speed cfg.shm_path env r
              ran))
