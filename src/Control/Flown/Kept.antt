-- ===== src/Control/Flown/Kept.antt =====
-- The parts of a round keep the account of the flight.
use x_pilot.Base.{
  ℕ, suc, ◌+◌, ◌≡◌, refl, ap, true, Option, some, leb, Bool-cases, inl, inr, if◌then◌else◌, arith,
}
use x_pilot.Platform.{JsonLib, DoubleLib}
use x_pilot.Control.{FlightController, Robot, is_cruising, get_timestamp}
use x_pilot.Control.Simulation.{fly}
use x_pilot.Control.Rounds.{cruised, counted, after_flight}
use x_pilot.Control.Flown.{
  further, drain, Flown, fly_robot, cruised_robot, counted_on, counted_ten, cruised_not,
  after_flight_robot, amount_on,
}

module _ (lib : JsonLib) (doubles : DoubleLib) (of_double : doubles.Double → lib.Json) where
  open doubles use {Double}

  module _ (r : Robot lib doubles) (k : ℕ) where
    pub Flown-fly :
        {n m : ℕ} (c : FlightController lib doubles) (target : Double) (a b : Option ℕ)
        → Flown lib doubles of_double r k n m c
        → Flown lib doubles of_double r k n m (fly lib doubles of_double c target a b)
    Flown-fly c target a b w =
        let (e, l) = fly_robot lib doubles of_double c target a b w.robot w.here w.z_is in
        record {
          robot = record w.robot { z = (fly lib doubles of_double c target a b).current_altitude };
          here = e;
          x_is = w.x_is;
          y_is = w.y_is;
          z_is = refl;
          speed_is = w.speed_is;
          spraying_is = w.spraying_is;
          amount_is = w.amount_is;
          tens = w.tens;
          counted_is = rw l w.counted_is;
          counter_is = rw l w.counter_is;
          battary_is = w.battary_is;
        }

    pub Flown-cruised :
        {n m : ℕ} (c : FlightController lib doubles)
        → is_cruising c.current_state ≡ true
        → Flown lib doubles of_double r k n m c
        → Flown lib doubles of_double r k n (suc m) (cruised lib doubles of_double c)
    Flown-cruised c e w = rw (cruised_robot lib doubles of_double c w.robot e w.here) record {
      robot = record w.robot {
        x = further lib doubles of_double w.robot.speed w.robot.x;
        sprayed_amount =
            if w.robot.is_spraying
            then further lib doubles of_double w.robot.speed w.robot.sprayed_amount
            else w.robot.sprayed_amount;
      };
      here = refl;
      x_is = rw w.speed_is (ap (further lib doubles of_double r.speed) w.x_is);
      y_is = w.y_is;
      z_is = w.z_is;
      speed_is = w.speed_is;
      spraying_is = w.spraying_is;
      amount_is =
          rw (w.spraying_is, w.amount_is, w.speed_is)
            (amount_on lib doubles of_double r.is_spraying (further lib doubles of_double r.speed) _
              _);
      tens = w.tens;
      counted_is = w.counted_is;
      counter_is = w.counter_is;
      battary_is = w.battary_is;
    }

    pub Flown-counted :
        {n m : ℕ} (c : FlightController lib doubles)
        → Flown lib doubles of_double r k n m c
        → Flown lib doubles of_double r k (suc n) m (counted lib doubles of_double c)
    Flown-counted c w = elim (Bool-cases (leb 10 (c.loop_counter + 1))) [
      | inl e ↦ rw (counted_ten lib doubles of_double c w.robot e w.here) record {
        robot = record w.robot { battary = drain lib doubles of_double w.robot.battary };
        here = refl;
        x_is = w.x_is;
        y_is = w.y_is;
        z_is = w.z_is;
        speed_is = w.speed_is;
        spraying_is = w.spraying_is;
        amount_is = w.amount_is;
        tens = suc w.tens;
        counted_is = ground (arith, w.counted_is, w.counter_is, e);
        counter_is = omega arith;
        battary_is = ap (drain lib doubles of_double) w.battary_is;
      }
      | inr e ↦ rw (counted_on lib doubles of_double c e) record {
        robot = w.robot;
        here = w.here;
        x_is = w.x_is;
        y_is = w.y_is;
        z_is = w.z_is;
        speed_is = w.speed_is;
        spraying_is = w.spraying_is;
        amount_is = w.amount_is;
        tens = w.tens;
        counted_is = ground (arith, w.counted_is);
        counter_is = ground (arith, e);
        battary_is = w.battary_is;
      }
    ]

    pub Flown-after_flight :
        {n m : ℕ} (d : FlightController lib doubles) (now : ℕ)
        → Flown lib doubles of_double r k n m d
        → Flown lib doubles of_double r k
            (suc n)
            (if is_cruising d.current_state then suc m else m)
            (after_flight lib doubles of_double d now)
    Flown-after_flight d now w =
        let stamped = record d { shm = some (record w.robot { timestamp = get_timestamp now }) } in
        let w' : Flown lib doubles of_double r k _ _ stamped = record {
          robot = record w.robot { timestamp = get_timestamp now };
          here = refl;
          x_is = w.x_is;
          y_is = w.y_is;
          z_is = w.z_is;
          speed_is = w.speed_is;
          spraying_is = w.spraying_is;
          amount_is = w.amount_is;
          tens = w.tens;
          counted_is = w.counted_is;
          counter_is = w.counter_is;
          battary_is = w.battary_is;
        } in
        rw (after_flight_robot lib doubles of_double d now w.robot w.here)
          elim (Bool-cases (is_cruising d.current_state)) [
            | inl e ↦ rw e (Flown-counted _ (Flown-cruised stamped e w'))
            | inr e ↦ rw (e, cruised_not lib doubles of_double stamped e) (Flown-counted _ w')
          ]
