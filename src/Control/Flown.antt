-- ===== src/Control/Flown.antt =====
-- What a flight without commands makes of the robot, and what each part of a round does to it.
pub mod Kept
use x_pilot.Base.{
  ℕ, zero, suc, ◌+◌, ◌*◌, ◌<◌, ◌≡◌, refl, ap, ◌∙◌, sym, Bool, true, false, Option, some, List, [],
  ◌∷◌, length, ltb, leb, Bool-cases, inl, inr, if◌then◌else◌, arith,
}
use x_pilot.Platform.{JsonLib, DoubleLib}
use x_pilot.Control.{
  FlightController, FlightState, Robot, climbing, cruising, is_cruising, get_timestamp,
}
use x_pilot.Control.Simulation.{fly, moved, sprayed, is_spraying_now, drained}
use x_pilot.Control.Rounds.{cruised, counted, after_flight}

abbrev pub times {ℓ} : {A : Type ℓ} → ℕ → (A → A) → A → A
times zero f a = a
times (suc n) f a = f (times n f a)

module _ (lib : JsonLib) (doubles : DoubleLib) (of_double : doubles.Double → lib.Json) where
  open doubles use {Double, add, mul, sub, tenth, of_int, truncate}

  -- A tenth of a second at this speed.
  abbrev pub further : Double → Double → Double
  further v d = add d (mul v tenth)

  -- A tenth of a percent of the battery, as far as whole percents show it.
  abbrev pub drain : ℕ → ℕ
  drain b = if ltb 0 b then truncate (sub (of_int b) tenth) else b

  -- What became of the robot r, at a loop counter of k, after so many rounds, of which the last ones were
  -- a cruise.
  pub record Flown (r : Robot lib doubles) (k rounds level : ℕ) (c : FlightController lib doubles)
      : Type 0 where
    pub robot : Robot lib doubles
    pub here : c.shm ≡ some robot
    pub x_is : robot.x ≡ times level (further r.speed) r.x
    pub y_is : robot.y ≡ r.y
    pub z_is : robot.z ≡ c.current_altitude
    pub speed_is : robot.speed ≡ r.speed
    pub spraying_is : robot.is_spraying ≡ r.is_spraying
    pub amount_is : robot.sprayed_amount ≡ (
        if r.is_spraying then times level (further r.speed) r.sprayed_amount else r.sprayed_amount)
    pub tens : ℕ
    pub counted_is : 10 * tens + c.loop_counter ≡ k + rounds
    pub counter_is : c.loop_counter < 10
    pub battary_is : robot.battary ≡ times tens drain r.battary

  pub fly_robot :
      (c : FlightController lib doubles) (target : Double) (a b : Option ℕ) (r : Robot lib doubles)
      → c.shm ≡ some r
      → r.z ≡ c.current_altitude
      → ((fly lib doubles of_double c target a b).shm
          ≡ some (record r { z = (fly lib doubles of_double c target a b).current_altitude }))
        × ((fly lib doubles of_double c target a b).loop_counter ≡ c.loop_counter)
  unfolding fly
  fly_robot c target a b r e z = ground arith

  pub cruised_robot :
      (c : FlightController lib doubles) (r : Robot lib doubles)
      → is_cruising c.current_state ≡ true
      → c.shm ≡ some r
      → cruised lib doubles of_double c ≡ record c {
        shm = some (record r {
          x = further r.speed r.x;
          sprayed_amount =
              if r.is_spraying then further r.speed r.sprayed_amount else r.sprayed_amount;
        });
      }
  unfolding cruised moved sprayed is_spraying_now
  cruised_robot c r k e = ground arith

  pub counted_on :
      (c : FlightController lib doubles)
      → leb 10 (c.loop_counter + 1) ≡ false
      → counted lib doubles of_double c ≡ record c { loop_counter = c.loop_counter + 1 }
  unfolding counted
  counted_on c k = ground arith

  pub counted_ten :
      (c : FlightController lib doubles) (r : Robot lib doubles)
      → leb 10 (c.loop_counter + 1) ≡ true
      → c.shm ≡ some r
      → counted lib doubles of_double c
        ≡ record c { loop_counter = 0; shm = some (record r { battary = drain r.battary }) }
  unfolding counted drained
  counted_ten c r k e = ground arith

  pub cruised_not :
      (c : FlightController lib doubles)
      → is_cruising c.current_state ≡ false
      → cruised lib doubles of_double c ≡ c
  unfolding cruised
  cruised_not c k = ground arith

  pub after_flight_robot :
      (d : FlightController lib doubles) (now : ℕ) (r : Robot lib doubles)
      → d.shm ≡ some r
      → after_flight lib doubles of_double d now
        ≡ counted lib doubles of_double (
            cruised lib doubles of_double
              (record d { shm = some (record r { timestamp = get_timestamp now }) }))
  unfolding after_flight
  after_flight_robot d now r e = ground arith

  pub after_flight_state :
      (d : FlightController lib doubles) (now : ℕ)
      → ((after_flight lib doubles of_double d now).current_state ≡ d.current_state)
        × ((after_flight lib doubles of_double d now).current_altitude ≡ d.current_altitude)
  unfolding after_flight cruised counted
  after_flight_state d now = ground arith

  pub amount_on :
      (sprays : Bool) (f : Double → Double) (a b : Double)
      → (if sprays then f (if sprays then a else b) else (if sprays then a else b))
        ≡ (if sprays then f a else b)
  amount_on true f a b = refl
  amount_on false f a b = refl

  pub same_either : (sprays : Bool) (a : Double) → (if sprays then a else a) ≡ a
  same_either true a = refl
  same_either false a = refl
