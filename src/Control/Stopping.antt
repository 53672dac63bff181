-- ===== src/Control/Stopping.antt =====
-- How the two threads end after a signal.
use mathlib.Core.Path.{subst}
use x_pilot.Base.{
  ℕ, suc, ◌≤◌, ◌<◌, ◌≡◌, ◌≢◌, ◌⊎◌, inl, inr, refl, ap, Bool, Bool-cases, true, false, Option, List,
  [], ◌∷◌, done, >>=-eq-done, done-injective, arith,
}
use x_pilot.Platform.{JsonLib, DoubleLib}
use x_pilot.Signals.{Signal, sigint, sigterm, sigpipe, deliver}
use x_pilot.Control.{FlightController, Point, flight, stamp, move, spray_test, spray_add, count}
use x_pilot.Control.Handler.{MainEvent, quiet, frame_in, frame_failed, frame_threw, main_step}
use x_pilot.Control.Simulation.{sim_step, at_point}
use x_pilot.Control.Mission.{
  Action, simulates, looks, listens, notifies, Threads, at_flight, act, main_round, schedule,
  control_signal_handler,
}

-- How many steps the simulation has to go to the end of its round, at most.
abbrev to_go : Point → ℕ
to_go flight = 0
to_go stamp = 5
to_go move = 4
to_go spray_test = 3
to_go spray_add = 2
to_go count = 1

module _ (lib : JsonLib) (doubles : DoubleLib) (as_double : lib.Json → Option doubles.Double)
    (of_double : doubles.Double → lib.Json) where
  open lib use {Json}
  open doubles use {Double}

  -- How often the threads get on in a list of actions.
  abbrev pub sims : List (Action lib doubles as_double of_double) → ℕ
  sims [] = 0
  sims (simulates _ _ _ ∷ as_) = suc (sims as_)
  sims (_ ∷ as_) = sims as_

  abbrev pub rounds : List (Action lib doubles as_double of_double) → ℕ
  rounds [] = 0
  rounds (listens _ ∷ as_) = suc (rounds as_)
  rounds (_ ∷ as_) = rounds as_

  -- Both threads have left their loops.
  abbrev pub HasStopped : Threads lib doubles → Type 0
  HasStopped s = (s.flag ≡ true) × (s.controller.point ≡ flight) × (s.listening ≡ false)

  -- The flag is set, and what the threads still have to do is on the list.
  abbrev IsEnding : List (Action lib doubles as_double of_double) → Threads lib doubles → Type 0
  IsEnding acts s =
      (s.flag ≡ true)
      × (to_go s.controller.point ≤ sims acts)
      × ((s.listening ≡ false) ⊎ (1 ≤ rounds acts))

  main-point :
      (c c' : FlightController lib doubles) (e : MainEvent lib doubles as_double)
      → main_step lib doubles as_double c e ≡ done c'
      → c'.point ≡ c.point
  unfolding main_step
  main-point c c' quiet h = ground arith
  main-point c c' (frame_in j) h = ground arith
  main-point c c' frame_failed h = ground arith
  main-point c c' frame_threw h = ground arith

  point-to_go :
      (p : Point) (c : FlightController lib doubles) (target : Double) (now : ℕ) (a b : Option ℕ)
      → at_flight p ≡ false
      → to_go (at_point lib doubles of_double p c target now a b).point < to_go p
  unfolding at_point
  point-to_go flight c target now a b h = cc
  point-to_go stamp c target now a b h = ground arith
  point-to_go move c target now a b h = omega arith
  point-to_go spray_test c target now a b h = ground arith
  point-to_go spray_add c target now a b h = omega arith
  point-to_go count c target now a b h = ground arith

  handler_keeps : (g : Signal) → deliver control_signal_handler true g ≡ true
  unfolding deliver control_signal_handler
  handler_keeps sigint = refl
  handler_keeps sigterm = refl
  handler_keeps sigpipe = refl

  handler_sets : (b : Bool) (g : Signal) → g ≢ sigpipe → deliver control_signal_handler b g ≡ true
  unfolding deliver control_signal_handler
  handler_sets b sigint h = refl
  handler_sets b sigterm h = refl
  handler_sets b sigpipe h = absurd (h refl)

  step-to_go :
      (c : FlightController lib doubles) (target : Double) (now : ℕ) (a b : Option ℕ)
      → at_flight c.point ≡ false
      → to_go (sim_step lib doubles of_double c target now a b).point < to_go c.point
  unfolding sim_step
  step-to_go c target now a b h = point-to_go c.point c target now a b h

  at_flight→done : (p : Point) → at_flight p ≡ true → p ≡ flight
  at_flight→done flight h = refl
  at_flight→done stamp h = cc
  at_flight→done move h = cc
  at_flight→done spray_test h = cc
  at_flight→done spray_add h = cc
  at_flight→done count h = cc

  round-IsEnding :
      (b : Bool) (s s' : Threads lib doubles) (e : MainEvent lib doubles as_double)
      (acts : List (Action lib doubles as_double of_double))
      → s.listening ≡ b
      → IsEnding (listens e ∷ acts) s
      → main_round lib doubles as_double of_double b s e ≡ done s'
      → IsEnding acts s'
  unfolding main_round
  round-IsEnding true s s' e acts l (f, t, r) h =
      let (c, made, back) =
        >>=-eq-done (main_step lib doubles as_double s.controller e)
          (λ c. done (record s { controller = c; listening = false })) h in
      let there : to_go c.point ≤ sims acts = rw (main-point s.controller c e made) t in
      subst (IsEnding acts) (done-injective back) (f, there, inl refl)
  round-IsEnding false s s' e acts l (f, t, r) h =
      subst (IsEnding acts) (done-injective h) (f, t, inl l)

  act-IsEnding :
      (s s' : Threads lib doubles) (target : Double) (a : Action lib doubles as_double of_double)
      (acts : List (Action lib doubles as_double of_double))
      → IsEnding (a ∷ acts) s
      → act lib doubles as_double of_double s target a ≡ done s'
      → IsEnding acts s'
  unfolding act
  act-IsEnding s s' target looks acts h e = ground arith
  act-IsEnding s s' target (notifies g) acts h e = ground (arith, handler_keeps g)
  act-IsEnding s s' target (listens ev) acts h e = round-IsEnding s.listening s s' ev acts refl h e
  act-IsEnding s s' target (simulates now a b) acts (f, t, r) e =
      elim (Bool-cases (at_flight s.controller.point)) [
        | inl k ↦
            let same : s ≡ s' = ground arith in
            subst (IsEnding acts) same
              (f, omega (arith, ap to_go (at_flight→done s.controller.point k)), r)
        | inr k ↦
            let next = sim_step lib doubles of_double s.controller target now a b in
            let same : record s { controller = next } ≡ s' = ground arith in
            subst (IsEnding acts) same
              (f, omega (arith, step-to_go s.controller target now a b k), r)
      ]

  none_to_go : (p : Point) → to_go p ≤ 0 → p ≡ flight
  none_to_go flight h = refl
  none_to_go stamp h = absurd (omega arith)
  none_to_go move h = absurd (omega arith)
  none_to_go spray_test h = absurd (omega arith)
  none_to_go spray_add h = absurd (omega arith)
  none_to_go count h = absurd (omega arith)

  ended_all : (s : Threads lib doubles) → IsEnding [] s → HasStopped s
  ended_all s (f, t, inl l) = (f, none_to_go s.controller.point t, l)
  ended_all s (f, t, inr r) = absurd (omega arith)

  schedule-HasStopped :
      (acts : List (Action lib doubles as_double of_double)) (s s' : Threads lib doubles)
      (target : Double)
      → IsEnding acts s
      → schedule lib doubles as_double of_double s target acts ≡ done s'
      → HasStopped s'
  unfolding schedule
  schedule-HasStopped [] s s' target e h = subst HasStopped (done-injective h) (ended_all s e)
  schedule-HasStopped (a ∷ acts) s s' target e h =
      let (d, first, later) =
        >>=-eq-done (act lib doubles as_double of_double s target a)
          (λ d. schedule lib doubles as_double of_double d target acts) h in
      schedule-HasStopped acts d s' target (act-IsEnding s d target a acts e first) later

  stopped_act :
      (s : Threads lib doubles) (target : Double) (a : Action lib doubles as_double of_double)
      → HasStopped s
      → act lib doubles as_double of_double s target a ≡ done s
  unfolding act main_round
  stopped_act s target looks h = ground arith
  stopped_act s target (notifies g) h = ground (arith, handler_keeps g)
  stopped_act s target (listens e) (f, p, l) = rw l refl
  stopped_act s target (simulates now a b) (f, p, l) = rw (p, f) refl

  stopped_schedule :
      (acts : List (Action lib doubles as_double of_double)) (s : Threads lib doubles)
      (target : Double)
      → HasStopped s
      → schedule lib doubles as_double of_double s target acts ≡ done s
  unfolding schedule
  stopped_schedule [] s target h = refl
  stopped_schedule (a ∷ acts) s target h =
      rw (stopped_act s target a h) (stopped_schedule acts s target h)

  any_to_go : (p : Point) → to_go p ≤ 5
  any_to_go flight = omega arith
  any_to_go stamp = omega arith
  any_to_go move = omega arith
  any_to_go spray_test = omega arith
  any_to_go spray_add = omega arith
  any_to_go count = omega arith

  -- After a SIGINT or a SIGTERM both threads leave their loops within the round they are in, whatever the order of
  -- their steps: once the simulation was given five steps more and the main thread one, neither does anything any
  -- more.
  pub threads_stop :
      (s s' : Threads lib doubles) (target : Double) (g : Signal)
      (acts more : List (Action lib doubles as_double of_double))
      → g ≢ sigpipe
      → 5 ≤ sims acts
      → 1 ≤ rounds acts
      → schedule lib doubles as_double of_double s target (notifies g ∷ acts) ≡ done s'
      → HasStopped s' × (schedule lib doubles as_double of_double s' target more ≡ done s')
  unfolding schedule act
  threads_stop s s' target g acts more ends five one h =
      let told : Threads lib doubles = record s {
        flag = deliver control_signal_handler s.flag g;
      } in
      let set = handler_sets s.flag g ends in
      let stopped =
        schedule-HasStopped acts told s' target
          (set, omega (arith, any_to_go s.controller.point), inr one) h in
      (stopped, stopped_schedule more s' target stopped)
