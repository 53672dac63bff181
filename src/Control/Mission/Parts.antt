-- ===== src/Control/Mission/Parts.antt =====
-- What the parts of a mission keep, and the parts that a mission went through.
use x_pilot.Base.{
  ℕ, Bool, true, false, Option, none, some, List, [], ◌∷◌, String, if◌then◌else◌, if_keeps, Outcome,
  done, ◌≡◌, refl, >>=-eq-done,
}
use x_pilot.Platform.{JsonLib, DoubleLib}
use x_pilot.Signals.{deliver}
use x_pilot.Ipc.{accept}
use x_pilot.Control.{FlightController, has_client}
use x_pilot.Control.Mission.{
  control_signal_handler, WaitEvent, timed_out, select_failed, incoming, notified, prepare,
  wait_client, Threads, Action, schedule, finish, MissionEnv, threads, after_wait, run_mission,
}

module _ (lib : JsonLib) (doubles : DoubleLib) where
  open lib use {Json}
  open doubles use {Double}

  -- What an accepted client keeps of the object, the whole wait keeps.
  pub wait_client_keeps :
      (P : FlightController lib doubles → Type 0)
      → ((c : FlightController lib doubles) (answer : Option ℕ)
          → P c
          → P (record c {
            server = (accept c.server answer).0;
            client_fd = (accept c.server answer).1;
          }))
      → (es : List WaitEvent) (flag : Bool) (c : FlightController lib doubles) → P c
      → P (wait_client lib doubles flag c es).1
  unfolding wait_client
  wait_client_keeps P keep [] flag c p = p
  wait_client_keeps P keep (notified s ∷ es) flag c p =
      wait_client_keeps P keep es (deliver control_signal_handler flag s) c p
  wait_client_keeps P keep (timed_out ∷ es) flag c p =
      if_keeps (λ (w : Option Bool × FlightController lib doubles). P w.1) flag p
        (wait_client_keeps P keep es flag c p)
  wait_client_keeps P keep (select_failed ∷ es) flag c p =
      if_keeps (λ (w : Option Bool × FlightController lib doubles). P w.1) flag p p
  wait_client_keeps P keep (incoming answer ∷ es) flag c p =
      let (server, fd) = accept c.server answer in
      let d = record c { server = server; client_fd = fd } in
      let q = keep c answer p in
      if_keeps (λ (w : Option Bool × FlightController lib doubles). P w.1) flag p
        (if_keeps (λ (w : Option Bool × FlightController lib doubles). P w.1) (has_client fd) q
          (wait_client_keeps P keep es flag d q))

  module _ (as_double : Json → Option Double) (of_double : Double → Json) where
    ready_parts :
        (b : Bool) (m : Outcome (Bool × FlightController lib doubles))
        (ready c : FlightController lib doubles)
        → (if b then m else done (false, ready)) ≡ done (true, c)
        → (b ≡ true) × (m ≡ done (true, c))
    ready_parts true m ready c h = (refl, h)
    ready_parts false m ready c h = cc

    waited_parts :
        (w : Option Bool) (b : FlightController lib doubles) (target : Double)
        (acts : List (Action lib doubles as_double of_double)) (c : FlightController lib doubles)
        → after_wait lib doubles as_double of_double w b target acts ≡ done (true, c)
        → (flag : Bool) × (s : Threads lib doubles) × (w ≡ some flag)
          × (schedule lib doubles as_double of_double
                (threads lib doubles as_double of_double flag b)
                target
                acts
              ≡ done s)
          × (finish lib doubles as_double of_double s.controller ≡ c)
    unfolding after_wait
    waited_parts none b target acts c h = cc
    waited_parts (some flag) b target acts c h =
        let (s, run, e) =
          >>=-eq-done
            (schedule lib doubles as_double of_double
              (threads lib doubles as_double of_double flag b) target acts)
            (λ s. done (true, finish lib doubles as_double of_double s.controller)) h in
        (flag, s, refl, run, cc)

    -- A mission that came to its end went through all its parts.
    pub mission_parts :
        (c : FlightController lib doubles) (target speed : Double) (path : String)
        (env : MissionEnv lib doubles as_double of_double) (c' : FlightController lib doubles)
        → run_mission lib doubles as_double of_double c target speed path env ≡ done (true, c')
        → (flag : Bool) × (s : Threads lib doubles) × ((prepare lib doubles c path speed
              env.start).1
            ≡ true)
          × ((wait_client lib doubles false
                (prepare lib doubles c path speed env.start).0
                env.waits).0
              ≡ some flag)
          × (schedule lib doubles as_double of_double
                (threads lib doubles as_double of_double flag
                  (wait_client lib doubles false
                    (prepare lib doubles c path speed env.start).0
                    env.waits).1)
                target
                env.actions
              ≡ done s)
          × (finish lib doubles as_double of_double s.controller ≡ c')
    unfolding run_mission
    mission_parts c target speed path env c' h =
        let ready = prepare lib doubles c path speed env.start in
        let waited = wait_client lib doubles false ready.0 env.waits in
        let (ok, h') =
          ready_parts ready.1
            (after_wait lib doubles as_double of_double waited.0 waited.1 target env.actions)
            ready.0 c' h in
        let (flag, s, w, run, e) = waited_parts waited.0 waited.1 target env.actions c' h' in
        (flag, s, ok, w, run, e)
