-- ===== src/Control/Schedules.antt =====
-- What holds over every interleaving of the two threads.
use mathlib.Core.Path.{subst}
use x_pilot.Base.{
  [], ◌∷◌, Bool, true, false, ◌&&◌, if◌then◌else◌, >>=-eq-done, done-injective, ℕ, ◌≡◌, refl,
  Option, none, some, List, done,
}
use x_pilot.Platform.{JsonLib, DoubleLib}
use x_pilot.Control.{FlightController, Point, Robot}
use x_pilot.Control.Handler.{MainEvent, main_step}
use x_pilot.Control.Simulation.{sim_step, at_point}
use x_pilot.Control.Mission.{
  Action, simulates, looks, listens, notifies, Threads, at_flight, main_round, act, schedule,
}

module _ (lib : JsonLib) (doubles : DoubleLib) where
  open lib use {Json}
  open doubles use {Double}

  -- The predicate holds of the mapped robot, and there is one.
  abbrev pub OnRobot : (Robot lib doubles → Type 0) → Option (Robot lib doubles) → Type 0
  OnRobot P none = ⊥
  OnRobot P (some r) = P r

  module _ (as_double : Json → Option Double) (of_double : Double → Json) where
    -- What every step keeps holds after every schedule.
    schedule_keeps :
        (P : Threads lib doubles → Type 0) (target : Double)
        → ((s s' : Threads lib doubles) (a : Action lib doubles as_double of_double)
            → P s
            → act lib doubles as_double of_double s target a ≡ done s'
            → P s')
        → (acts : List (Action lib doubles as_double of_double)) (s s' : Threads lib doubles) → P s
        → schedule lib doubles as_double of_double s target acts ≡ done s'
        → P s'
    unfolding schedule
    schedule_keeps P target keep [] s s' p h = subst P (done-injective h) p
    schedule_keeps P target keep (a ∷ acts) s s' p h =
        let (d, first, later) =
          >>=-eq-done (act lib doubles as_double of_double s target a)
            (λ d. schedule lib doubles as_double of_double d target acts) h in
        schedule_keeps P target keep acts d s' (keep s d a p first) later

    round_keeps :
        (P : FlightController lib doubles → Type 0) (b : Bool) (s s' : Threads lib doubles)
        (e : MainEvent lib doubles as_double)
        → ((c : FlightController lib doubles)
            → main_step lib doubles as_double s.controller e ≡ done c
            → P c)
        → P s.controller
        → main_round lib doubles as_double of_double b s e ≡ done s'
        → P s'.controller
    unfolding main_round
    round_keeps P true s s' e f p h =
        let (c, made, back) =
          >>=-eq-done (main_step lib doubles as_double s.controller e)
            (λ c. done (record s { controller = c; listening = false })) h in
        subst (λ (t : Threads lib doubles). P t.controller) (done-injective back) (f c made)
    round_keeps P false s s' e f p h =
        subst (λ (t : Threads lib doubles). P t.controller) (done-injective h) p

    sim_keeps :
        (P : Threads lib doubles → Type 0) (b : Bool) (s t s' : Threads lib doubles)
        → P s
        → P t
        → (if b then done s else done t) ≡ done s'
        → P s'
    sim_keeps P true s t s' p q h = subst P (done-injective h) p
    sim_keeps P false s t s' p q h = subst P (done-injective h) q

    -- What a step of the simulation, and what a round of the main thread keep of the object, every action keeps.
    pub act_keeps :
        (P : FlightController lib doubles → Type 0) (target : Double)
        → ((c c' : FlightController lib doubles) (e : MainEvent lib doubles as_double)
            → P c
            → main_step lib doubles as_double c e ≡ done c'
            → P c')
        → ((c : FlightController lib doubles) (now : ℕ) (a b : Option ℕ)
            → P c
            → P (sim_step lib doubles of_double c target now a b))
        → (s s' : Threads lib doubles) (a : Action lib doubles as_double of_double) → P s.controller
        → act lib doubles as_double of_double s target a ≡ done s'
        → P s'.controller
    unfolding act
    act_keeps P target main sim s s' (simulates now a b) p h =
        sim_keeps (λ t. P t.controller) (at_flight s.controller.point && s.flag) s
          (record s { controller = sim_step lib doubles of_double s.controller target now a b }) s'
          p (sim s.controller now a b p) h
    act_keeps P target main sim s s' looks p h =
        subst (λ (t : Threads lib doubles). P t.controller) (done-injective h) p
    act_keeps P target main sim s s' (notifies g) p h =
        subst (λ (t : Threads lib doubles). P t.controller) (done-injective h) p
    act_keeps P target main sim s s' (listens e) p h =
        round_keeps P s.listening s s' e (λ c. main s.controller c e p) p h

    -- What the rounds of the main thread and the points of the simulation keep, every schedule keeps.
    pub schedule_rule :
        (P : FlightController lib doubles → Type 0) (target : Double)
        → ((c c' : FlightController lib doubles) (e : MainEvent lib doubles as_double)
            → P c
            → main_step lib doubles as_double c e ≡ done c'
            → P c')
        → ((p : Point) (c : FlightController lib doubles) (now : ℕ) (a b : Option ℕ)
            → c.point ≡ p
            → P c
            → P (at_point lib doubles of_double p c target now a b))
        → (acts : List (Action lib doubles as_double of_double)) (s s' : Threads lib doubles)
        → P s.controller
        → schedule lib doubles as_double of_double s target acts ≡ done s'
        → P s'.controller
    unfolding sim_step
    schedule_rule P target main sim =
        schedule_keeps (λ s. P s.controller) target
          (act_keeps P target main (λ c now a b p. sim c.point c now a b refl p))
