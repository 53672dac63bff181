-- ===== src/Control/Climb.antt =====
-- The climb to the target height.
use x_pilot.Base.{
  ℕ, zero, suc, ◌≡◌, refl, ap, ◌∙◌, true, false, Option, List, [], ◌∷◌, length, arith,
}
use x_pilot.Platform.{JsonLib, DoubleLib}
use x_pilot.Control.{FlightController, climbing, cruising}
use x_pilot.Control.Simulation.{fly}

module _ (lib : JsonLib) (doubles : DoubleLib) (of_double : doubles.Double → lib.Json) where
  open doubles use {Double, add, ten, lt}

  -- From the first height, steps of ten lead to the last one, which is the first that is not below the
  -- target.
  pub data Climbs (target : Double) : Double → ℕ → Double → Type 0 where
    arrived : (a : Double) → lt a target ≡ false → Climbs target a zero a
    higher :
        (a : Double) {b : Double} {n : ℕ}
        → lt a target ≡ true
        → Climbs target (add a ten) n b
        → Climbs target a (suc n) b

  -- The `flight` steps of several rounds, with what the kernel answers to the telemetry.
  unfoldable pub fly_rounds :
      FlightController lib doubles
      → Double
      → List (Option ℕ × Option ℕ)
      → FlightController lib doubles
  fly_rounds c target [] = c
  fly_rounds c target ((header, payload) ∷ rs) =
      fly_rounds (fly lib doubles of_double c target header payload) target rs

  pub fly_higher :
      (c : FlightController lib doubles) (target : Double) (h p : Option ℕ)
      → c.current_state ≡ climbing
      → lt c.current_altitude target ≡ true
      → ((fly lib doubles of_double c target h p).current_state ≡ climbing)
        × ((fly lib doubles of_double c target h p).current_altitude ≡ add c.current_altitude ten)
  unfolding fly
  fly_higher c target h p s k = ground arith

  pub fly_level :
      (c : FlightController lib doubles) (target : Double) (h p : Option ℕ)
      → c.current_state ≡ climbing
      → lt c.current_altitude target ≡ false
      → ((fly lib doubles of_double c target h p).current_state ≡ cruising)
        × ((fly lib doubles of_double c target h p).current_altitude ≡ c.current_altitude)
  unfolding fly
  fly_level c target h p s k = ground arith

  climb_on :
      (target : Double) (n : ℕ) (a b : Double) (c : FlightController lib doubles)
      (answers : List (Option ℕ × Option ℕ))
      → c.current_state ≡ climbing
      → c.current_altitude ≡ a
      → Climbs target a n b
      → length answers ≡ suc n
      → ((fly_rounds c target answers).current_state ≡ cruising)
        × ((fly_rounds c target answers).current_altitude ≡ b)
  unfolding fly_rounds
  climb_on target _ _ _ c [] s e (arrived a k) l = absurd (omega arith)
  climb_on target _ _ _ c ((h, p) ∷ []) s e (arrived a k) l =
      ground (arith, fly_level c target h p s)
  climb_on target _ _ _ c ((h, p) ∷ r ∷ rs) s e (arrived a k) l = absurd (omega arith)
  climb_on target _ _ _ c [] s e (higher a k m) l = absurd (omega arith)
  climb_on target _ _ b c ((h, p) ∷ rs) s e (higher a {n = n} k m) l =
      let (s', e') = fly_higher c target h p s (rw e k) in
      climb_on target n (add a ten) b (fly lib doubles of_double c target h p) rs s'
        (e' ∙ ap (λ x. add x ten) e) m (omega arith)

  -- A climb of n steps of ten metres is over after n + 1 rounds: then the controller cruises, at the
  -- first height that is not below the target.
  pub climb_ends :
      (target : Double) (n : ℕ) (b : Double) (c : FlightController lib doubles)
      (answers : List (Option ℕ × Option ℕ))
      → c.current_state ≡ climbing
      → Climbs target c.current_altitude n b
      → length answers ≡ suc n
      → ((fly_rounds c target answers).current_state ≡ cruising)
        × ((fly_rounds c target answers).current_altitude ≡ b)
  climb_ends target n b c answers s k l =
      climb_on target n c.current_altitude b c answers s refl k l
