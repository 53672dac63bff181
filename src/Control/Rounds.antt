-- ===== src/Control/Rounds.antt =====
-- A round of the simulation thread in one piece, against its steps.
use x_pilot.Base.{
  ℕ, zero, suc, ◌+◌, ◌≤◌, ◌≡◌, inl, inr, refl, ◌∙◌, Bool-cases, Option-cases, true, false, Option,
  none, some, is_some, leb, if◌then◌else◌, arith,
}
use x_pilot.Platform.{JsonLib, DoubleLib}
use x_pilot.Control.{
  FlightController, Robot, Point, flight, stamp, on_robot, is_cruising, get_timestamp,
}
use x_pilot.Control.Simulation.{fly, moved, sprayed, drained, is_spraying_now, sim_step, at_point}

module _ (lib : JsonLib) (doubles : DoubleLib) where
  open lib use {Json}
  open doubles use {Double}

  module _ (of_double : Double → Json) where
    unfoldable pub cruised : FlightController lib doubles → FlightController lib doubles
    cruised c =
        let further = record c { shm = on_robot lib doubles (moved lib doubles of_double) c.shm } in
        let amount = record further {
          shm = on_robot lib doubles (sprayed lib doubles of_double) further.shm;
        } in
        if is_cruising c.current_state
        then if is_spraying_now lib doubles of_double further.shm then amount else further
        else c

    unfoldable pub counted : FlightController lib doubles → FlightController lib doubles
    counted c =
        let next = record c { loop_counter = c.loop_counter + 1 } in
        if leb 10 next.loop_counter
        then record next {
          loop_counter = 0;
          shm = on_robot lib doubles (drained lib doubles of_double) next.shm;
        }
        else next

    -- What stands behind the flight.
    unfoldable pub after_flight : FlightController lib doubles → ℕ → FlightController lib doubles
    unfolding cruised counted
    after_flight d now = elim d.shm [
      | none ↦ d
      | some r ↦
          counted (cruised (record d { shm = some (record r { timestamp = get_timestamp now }) }))
    ]

    -- The round as the source writes it, where no other thread comes between.
    unfoldable pub sim_round :
        FlightController lib doubles
        → Double
        → ℕ
        → Option ℕ
        → Option ℕ
        → FlightController lib doubles
    unfolding after_flight
    sim_round c target now header payload =
        after_flight (fly lib doubles of_double c target header payload) now

    -- Steps of the simulation one behind another.
    abbrev pub sim_steps :
        ℕ
        → FlightController lib doubles
        → Double
        → ℕ
        → Option ℕ
        → Option ℕ
        → FlightController lib doubles
    sim_steps zero c target now header payload = c
    sim_steps (suc n) c target now header payload =
        sim_steps n (sim_step lib doubles of_double c target now header payload) target now header
          payload

    fly-point :
        (c : FlightController lib doubles) (target : Double) (a b : Option ℕ)
        → (fly lib doubles of_double c target a b).point ≡ c.point
    unfolding fly
    fly-point c target a b = ground arith

    module _ (d : FlightController lib doubles) (target : Double) (now : ℕ) (a b : Option ℕ)
        (home : d.point ≡ flight) where
      rest_none : d.shm ≡ none → record d { point = flight } ≡ after_flight d now
      unfolding after_flight
      rest_none e = ground arith

      rest_three :
          (r : Robot lib doubles)
          → d.shm ≡ some r
          → is_cruising d.current_state ≡ false
          → sim_steps 2 (record d { point = stamp }) target now a b ≡ after_flight d now
      unfolding sim_step at_point after_flight cruised counted
      rest_three r e k = ground arith

      rest_five :
          (r : Robot lib doubles)
          → d.shm ≡ some r
          → is_cruising d.current_state ≡ true
          → r.is_spraying ≡ false
          → sim_steps 4 (record d { point = stamp }) target now a b ≡ after_flight d now
      unfolding sim_step at_point after_flight cruised counted moved is_spraying_now
      rest_five r e k s = ground arith

      rest_six :
          (r : Robot lib doubles)
          → d.shm ≡ some r
          → is_cruising d.current_state ≡ true
          → r.is_spraying ≡ true
          → sim_steps 5 (record d { point = stamp }) target now a b ≡ after_flight d now
      unfolding sim_step at_point after_flight cruised counted moved sprayed is_spraying_now
      rest_six r e k s = ground arith

    first_step :
        (c : FlightController lib doubles) (target : Double) (now : ℕ) (a b : Option ℕ) (p : Point)
        → c.point ≡ flight
        → (if is_some (fly lib doubles of_double c target a b).shm then stamp else flight) ≡ p
        → sim_step lib doubles of_double c target now a b
          ≡ record (fly lib doubles of_double c target a b) { point = p }
    unfolding sim_step at_point
    first_step c target now a b p h e = ground arith

    -- Where the other thread makes no step in between, at most six steps of the simulation are one round of its
    -- loop.
    pub steps-sim_round :
        (c : FlightController lib doubles) (target : Double) (now : ℕ) (a b : Option ℕ)
        → c.point ≡ flight
        → (n : ℕ) × (n ≤ 6) × (sim_steps n c target now a b ≡ sim_round c target now a b)
    unfolding sim_round
    steps-sim_round c target now a b h =
        let flown = fly lib doubles of_double c target a b in
        let home : flown.point ≡ flight = fly-point c target a b ∙ h in
        elim (Option-cases flown.shm) [
          | inl e ↦ (
            1,
            omega arith,
            rw (first_step c target now a b flight h (rw e refl))
                (rest_none flown target now a b home e),
          )
          | inr (r, e) ↦
              let begun = first_step c target now a b stamp h (rw e refl) in
              elim (Bool-cases (is_cruising flown.current_state)) [
                | inr k ↦ (3, omega arith, rw begun (rest_three flown target now a b home r e k))
                | inl k ↦ elim (Bool-cases r.is_spraying) [
                  | inr s ↦ (5, omega arith, rw begun (rest_five flown target now a b home r e k s))
                  | inl s ↦ (6, omega arith, rw begun (rest_six flown target now a b home r e k s))
                ]
              ]
        ]
