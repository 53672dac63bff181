-- ===== src/Control/Flight.antt =====
-- The flight that the simulation makes by itself: the climb and then the cruise, round by round.
use x_pilot.Base.{
  ℕ, suc, ◌+◌, ◌<◌, ◌≡◌, refl, ◌∙◌, sym, Option, some, List, [], ◌∷◌, length, if◌then◌else◌, arith,
}
use x_pilot.Platform.{JsonLib, DoubleLib}
use x_pilot.Control.{FlightController, FlightState, Robot, climbing, cruising, is_cruising}
use x_pilot.Control.Simulation.{fly}
use x_pilot.Control.Climb.{Climbs, arrived, higher, fly_higher, fly_level}
use x_pilot.Control.Rounds.{sim_round}
use x_pilot.Control.Flown.{Flown, after_flight_state, same_either}
use x_pilot.Control.Flown.Kept.{Flown-fly, Flown-after_flight}

module _ (lib : JsonLib) (doubles : DoubleLib) (of_double : doubles.Double → lib.Json) where
  open doubles use {Double, add, ten}

  -- Rounds of the simulation loop one behind another, with what the clock and the kernel answer.
  unfoldable pub sim_rounds :
      FlightController lib doubles
      → Double
      → List (ℕ × Option ℕ × Option ℕ)
      → FlightController lib doubles
  sim_rounds c target [] = c
  sim_rounds c target ((now, header, payload) ∷ rs) =
      sim_rounds (sim_round lib doubles of_double c target now header payload) target rs

  module _ (r : Robot lib doubles) (k : ℕ) where
    at_counts :
        {n n' m m' : ℕ} {c : FlightController lib doubles}
        → n ≡ n'
        → m ≡ m'
        → Flown lib doubles of_double r k n m c
        → Flown lib doubles of_double r k n' m' c
    at_counts e e' w = rw (sym e, sym e') w

    -- A round, with the state that its `flight` step leaves.
    sim_round-Flown :
        {n m : ℕ} (s : FlightState) (height : Double) (c : FlightController lib doubles)
        (target : Double) (now : ℕ) (a b : Option ℕ)
        → ((fly lib doubles of_double c target a b).current_state ≡ s)
          × ((fly lib doubles of_double c target a b).current_altitude ≡ height)
        → Flown lib doubles of_double r k n m c
        → ((sim_round lib doubles of_double c target now a b).current_state ≡ s)
          × ((sim_round lib doubles of_double c target now a b).current_altitude ≡ height)
          × Flown lib doubles of_double r k
              (suc n)
              (if is_cruising s then suc m else m)
              (sim_round lib doubles of_double c target now a b)
    unfolding sim_round
    sim_round-Flown s height c target now a b (e, l) w =
        let flown = fly lib doubles of_double c target a b in
        let (e', l') = after_flight_state lib doubles of_double flown now in
        (
          e' ∙ e,
          l' ∙ l,
          rw (sym e) (
              Flown-after_flight lib doubles of_double r k flown now
                (Flown-fly lib doubles of_double r k c target a b w)),
        )

    fly_cruising :
        (c : FlightController lib doubles) (target : Double) (a b : Option ℕ)
        → c.current_state ≡ cruising
        → ((fly lib doubles of_double c target a b).current_state ≡ cruising)
          × ((fly lib doubles of_double c target a b).current_altitude ≡ c.current_altitude)
    unfolding fly
    fly_cruising c target a b s = ground arith

    cruise_on :
        (height target : Double) (c : FlightController lib doubles)
        (rounds : List (ℕ × Option ℕ × Option ℕ)) {n m : ℕ}
        → c.current_state ≡ cruising
        → c.current_altitude ≡ height
        → Flown lib doubles of_double r k n m c
        → ((sim_rounds c target rounds).current_state ≡ cruising)
          × ((sim_rounds c target rounds).current_altitude ≡ height)
          × Flown lib doubles of_double r k
              (n + length rounds)
              (m + length rounds)
              (sim_rounds c target rounds)
    unfolding sim_rounds
    cruise_on height target c [] s l w = (s, l, at_counts (omega arith) (omega arith) w)
    cruise_on height target c ((now, a, b) ∷ rounds) s l w =
        let (s', l', w') =
          sim_round-Flown cruising height c target now a b
            (ground (arith, fly_cruising c target a b s, l)) w in
        let (s'', l'', w'') =
          cruise_on height target (sim_round lib doubles of_double c target now a b) rounds s' l'
            w' in
        (s'', l'', at_counts (omega arith) (omega arith) w'')

    climb_then_cruise :
        (target b : Double) (ups level : ℕ) (height : Double) (c : FlightController lib doubles)
        (rounds : List (ℕ × Option ℕ × Option ℕ)) {n : ℕ}
        → c.current_state ≡ climbing
        → c.current_altitude ≡ height
        → Climbs lib doubles of_double target height ups b
        → length rounds ≡ ups + suc level
        → Flown lib doubles of_double r k n 0 c
        → ((sim_rounds c target rounds).current_state ≡ cruising)
          × ((sim_rounds c target rounds).current_altitude ≡ b)
          × Flown lib doubles of_double r k
              (n + (ups + suc level))
              (suc level)
              (sim_rounds c target rounds)
    unfolding sim_rounds
    climb_then_cruise target b _ level _ c [] s e (arrived a k) l w = absurd (omega arith)
    climb_then_cruise target b _ level _ c [] s e (higher a k m) l w = absurd (omega arith)
    climb_then_cruise target _ _ level _ c ((now, h, p) ∷ rounds) s e (arrived a k) l w =
        let (s', l', w') =
          sim_round-Flown cruising a c target now h p
            (ground (arith, fly_level lib doubles of_double c target h p s, e)) w in
        let (s'', l'', w'') = cruise_on a target _ rounds s' l' w' in
        (s'', l'', at_counts (omega arith) (omega arith) w'')
    climb_then_cruise target b _ level _ c ((now, h, p) ∷ rounds) s e (higher a {n = ups} k m) l w =
        let (s', e', w') =
          sim_round-Flown climbing (add a ten) c target now h p
            (ground (arith, fly_higher lib doubles of_double c target h p s, e)) w in
        let (s'', l'', w'') =
          climb_then_cruise target b ups level (add a ten) _ rounds s' e' m (omega arith) w' in
        (s'', l'', at_counts (omega arith) refl w'')

  -- The flight that the simulation makes by itself, exactly. The controller climbs, its robot is mapped, z is
  -- the altitude and the loop counter below 10, and some climbs of ten metres lead to the target. Then after
  -- one round for each climb and level + 1 more, whatever the clock and the kernel answer in them, it cruises
  -- at the first height that is not below the target, and z is that height; x has grown level + 1 times by a
  -- tenth of the speed, and the sprayed amount as often if the robot sprays, else not at all; y, the speed and the
  -- spraying are as they were; and the battery was drained once for each time the loop counter came to ten.
  pub climb_and_cruise :
      (target b : Double) (ups level : ℕ) (r : Robot lib doubles) (c : FlightController lib doubles)
      (rounds : List (ℕ × Option ℕ × Option ℕ))
      → c.current_state ≡ climbing
      → c.shm ≡ some r
      → r.z ≡ c.current_altitude
      → c.loop_counter < 10
      → Climbs lib doubles of_double target c.current_altitude ups b
      → length rounds ≡ ups + suc level
      → ((sim_rounds c target rounds).current_state ≡ cruising)
        × ((sim_rounds c target rounds).current_altitude ≡ b)
        × Flown lib doubles of_double r c.loop_counter
            (ups + suc level)
            (suc level)
            (sim_rounds c target rounds)
  climb_and_cruise target b ups level r c rounds s e z l k t =
      let w : Flown lib doubles of_double r c.loop_counter 0 0 c = record {
        robot = r;
        here = e;
        x_is = refl;
        y_is = refl;
        z_is = z;
        speed_is = refl;
        spraying_is = refl;
        amount_is = sym (same_either lib doubles of_double r.is_spraying r.sprayed_amount);
        tens = 0;
        counted_is = omega arith;
        counter_is = l;
        battary_is = refl;
      } in
      let (s', l', w') =
        climb_then_cruise r c.loop_counter target b ups level c.current_altitude c rounds s refl k t
          w in
      (s', l', at_counts r c.loop_counter (omega arith) refl w')
