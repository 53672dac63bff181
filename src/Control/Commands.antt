-- ===== src/Control/Commands.antt =====
-- What a command does to the controller.
use text.Mathlib.Text.{◌==◌ as str_eq}
use text.Mathlib.TextEquality.{eq_iff}
use x_pilot.Base.{
  ◌≡◌, ◌≢◌, ◌⊎◌, inl, inr, ap, ◌∙◌, Bool-cases, Option-cases, true, false, Option, none, some, ◌∷◌,
  String, Outcome, done, threw, arith,
}
use x_pilot.Platform.{JsonLib, DoubleLib}
use x_pilot.Effects.{emitted, command_received}
use x_pilot.Control.{FlightController, Robot}
use x_pilot.Control.Handler.{handle_command}

module _ (lib : JsonLib) (doubles : DoubleLib) (as_double : lib.Json → Option doubles.Double) where
  open lib use {Json, contains, at, as_string}
  open doubles use {Double, show}

  -- A message as the protocol means it.
  pub data Request : Type 0 where
    set_speed : Double → Request
    start_spray : Request
    nothing : Request
    unreadable : Request

  -- The message asks for this.
  pub data Asks (j : Json) : Request → Type 0 where
    no_cmd : contains j "cmd" ≡ false → Asks j nothing
    cmd_no_string : contains j "cmd" ≡ true → as_string (at j "cmd") ≡ none → Asks j unreadable
    speed :
        (v : Double)
        → contains j "cmd" ≡ true
        → as_string (at j "cmd") ≡ some "SET_SPEED"
        → contains j "params" ≡ true
        → contains (at j "params") "speed" ≡ true
        → as_double (at (at j "params") "speed") ≡ some v
        → Asks j (set_speed v)
    speed_no_number :
        contains j "cmd" ≡ true
        → as_string (at j "cmd") ≡ some "SET_SPEED"
        → contains j "params" ≡ true
        → contains (at j "params") "speed" ≡ true
        → as_double (at (at j "params") "speed") ≡ none
        → Asks j unreadable
    no_speed :
        contains j "cmd" ≡ true
        → as_string (at j "cmd") ≡ some "SET_SPEED"
        → (contains j "params" ≡ false) ⊎ (contains (at j "params") "speed" ≡ false)
        → Asks j nothing
    spray :
        contains j "cmd" ≡ true → as_string (at j "cmd") ≡ some "START_SPRAY" → Asks j start_spray
    other :
        (cmd : String)
        → contains j "cmd" ≡ true
        → as_string (at j "cmd") ≡ some cmd
        → cmd ≢ "SET_SPEED"
        → cmd ≢ "START_SPRAY"
        → Asks j nothing

  -- What each request means for a controller with the robot `r`.
  abbrev pub answer :
      FlightController lib doubles
      → Robot lib doubles
      → Request
      → Outcome (FlightController lib doubles)
  answer c r (set_speed v) = done (record c {
    shm = some (record r { speed = v });
    trace = emitted (command_received "SET_SPEED" (some (show v))) ∷ c.trace;
  })
  answer c r start_spray = done (record c {
    shm = some (record r { is_spraying = true });
    trace = emitted (command_received "START_SPRAY" none) ∷ c.trace;
  })
  answer c r nothing = done c
  answer c r unreadable = threw

  -- `handleCommand` on a mapped robot answers what the message asks for: SET_SPEED writes the speed and
  -- nothing else of the robot, START_SPRAY the flag and nothing else, every other command and every
  -- message without one changes nothing, and a `cmd` that is no text or a speed that is no number
  -- throws.
  pub handle_command_exact :
      (c : FlightController lib doubles) (r : Robot lib doubles) (j : Json) (q : Request)
      → c.shm ≡ some r
      → Asks j q
      → handle_command lib doubles as_double c j ≡ answer c r q
  unfolding handle_command
  handle_command_exact c r j q m (no_cmd h) = ground arith
  handle_command_exact c r j q m (cmd_no_string h k) = ground arith
  handle_command_exact c r j q m (speed v h k p s e) =
      ground (arith, eq_iff "SET_SPEED" "SET_SPEED")
  handle_command_exact c r j q m (speed_no_number h k p s e) =
      ground (arith, eq_iff "SET_SPEED" "SET_SPEED")
  handle_command_exact c r j q m (no_speed h k p) = ground (arith, eq_iff "SET_SPEED" "SET_SPEED")
  handle_command_exact c r j q m (spray h k) = ground arith
  handle_command_exact c r j q m (other cmd h k n n') =
      ground (arith, eq_iff cmd "SET_SPEED", eq_iff cmd "START_SPRAY")

  params_cases :
      (j : Json)
      → ((contains j "params" ≡ true) × (contains (at j "params") "speed" ≡ true))
        ⊎ ((contains j "params" ≡ false) ⊎ (contains (at j "params") "speed" ≡ false))
  params_cases j = elim (Bool-cases (contains j "params")) [
    | inl p ↦ elim (Bool-cases (contains (at j "params") "speed")) [
      | inl s ↦ inl (p, s)
      | inr s ↦ inr (inr s)
    ]
    | inr p ↦ inr (inl p)
  ]

  speed-Asks :
      (j : Json)
      → contains j "cmd" ≡ true
      → as_string (at j "cmd") ≡ some "SET_SPEED"
      → (q : Request) × Asks j q
  speed-Asks j h k = elim (params_cases j) [
    | inl (p, s) ↦ elim (Option-cases (as_double (at (at j "params") "speed"))) [
      | inl e ↦ (unreadable, speed_no_number h k p s e)
      | inr (v, e) ↦ (set_speed v, speed v h k p s e)
    ]
    | inr p ↦ (nothing, no_speed h k p)
  ]

  cmd-Asks :
      (j : Json) (cmd : String)
      → contains j "cmd" ≡ true
      → as_string (at j "cmd") ≡ some cmd
      → (q : Request) × Asks j q
  cmd-Asks j cmd h k = elim (Bool-cases (str_eq cmd "SET_SPEED")) [
    | inl e ↦ speed-Asks j h (k ∙ ap some ((eq_iff cmd "SET_SPEED").0 e))
    | inr e ↦ elim (Bool-cases (str_eq cmd "START_SPRAY")) [
      | inl f ↦ (start_spray, spray h (k ∙ ap some ((eq_iff cmd "START_SPRAY").0 f)))
      | inr f ↦ (
        nothing,
        other cmd h k (ground (arith, eq_iff cmd "SET_SPEED"))
            (ground (arith, eq_iff cmd "START_SPRAY")),
      )
    ]
  ]

  -- Every message asks for something, so `handle_command_exact` covers every message.
  pub Asks-total : (j : Json) → (q : Request) × Asks j q
  Asks-total j = elim (Bool-cases (contains j "cmd")) [
    | inl h ↦ elim (Option-cases (as_string (at j "cmd"))) [
      | inl k ↦ (unreadable, cmd_no_string h k)
      | inr (cmd, k) ↦ cmd-Asks j cmd h k
    ]
    | inr h ↦ (nothing, no_cmd h)
  ]
