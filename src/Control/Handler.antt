-- ===== src/Control/Handler.antt =====
-- src/control_main.cpp: what the main thread does in a round, `handleCommand` included.
use text.Mathlib.Text.{◌==◌ as str_eq}
use x_pilot.Base.{true, ◌&&◌, Option, none, some, ◌∷◌, String, if◌then◌else◌, Outcome, done, threw}
use x_pilot.Platform.{JsonLib, DoubleLib}
use x_pilot.Effects.{emitted, closed, command_received}
use x_pilot.Control.{FlightController, has_client}

module _ (lib : JsonLib) (doubles : DoubleLib) where
  open lib use {Json, contains, at, put, null, of_string, as_string}
  open doubles use {Double, zero_double, ten, tenth, add, sub, mul, lt, of_int, truncate, show}

  -- `handleCommand`. The conversions of the JSON library throw on a value of another type, and the
  -- caller does not catch that; a write through a null pointer ends the process too.
  module _ (as_double : Json → Option Double) where
    write_speed : FlightController lib doubles → Double → Outcome (FlightController lib doubles)
    write_speed c v = elim c.shm [
      | none ↦ threw
      | some r ↦ done (record c {
        shm = some (record r { speed = v });
        trace = emitted (command_received "SET_SPEED" (some (show v))) ∷ c.trace;
      })
    ]

    write_spraying : FlightController lib doubles → Outcome (FlightController lib doubles)
    write_spraying c = elim c.shm [
      | none ↦ threw
      | some r ↦ done (record c {
        shm = some (record r { is_spraying = true });
        trace = emitted (command_received "START_SPRAY" none) ∷ c.trace;
      })
    ]

    set_speed_command : FlightController lib doubles → Json → Outcome (FlightController lib doubles)
    unfolding write_speed
    set_speed_command c j =
        if contains j "params" && contains (at j "params") "speed"
        then elim (as_double (at (at j "params") "speed")) [
          | none ↦ threw
          | some v ↦ write_speed c v
        ]
        else done c

    run_command :
        FlightController lib doubles → Json → String → Outcome (FlightController lib doubles)
    unfolding set_speed_command write_spraying
    run_command c j cmd =
        if str_eq cmd "SET_SPEED"
        then set_speed_command c j
        else if str_eq cmd "START_SPRAY"
        then write_spraying c
        else done c

    unfoldable pub handle_command :
        FlightController lib doubles → Json → Outcome (FlightController lib doubles)
    unfolding run_command
    handle_command c j =
        if contains j "cmd"
        then elim (as_string (at j "cmd")) [ none ↦ threw | some cmd ↦ run_command c j cmd ]
        else done c

    -- What `select` and `recvFrame` bring the main thread: nothing, a value, `false`, or the exception
    -- json::out_of_range, which neither of the two catches.
    pub data MainEvent : Type 0 where
      quiet : MainEvent
      frame_in : Json → MainEvent
      frame_failed : MainEvent
      frame_threw : MainEvent

    -- One round of the main thread's loop.
    unfoldable pub main_step :
        FlightController lib doubles → MainEvent → Outcome (FlightController lib doubles)
    unfolding handle_command
    main_step c quiet = done c
    main_step c (frame_in j) = if has_client c.client_fd then handle_command c j else done c
    main_step c frame_threw = if has_client c.client_fd then threw else done c
    main_step c frame_failed =
        if has_client c.client_fd
        then elim c.client_fd [
          | none ↦ done c
          | some fd ↦ done (record c { client_fd = none; trace = closed fd ∷ c.trace })
        ]
        else done c
