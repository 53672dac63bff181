-- ===== src/View/Reader.antt =====
-- What the viewer leaves behind.
use mathlib.Core.List.{map-map}
use x_pilot.Base.{ℕ, ◌+◌, ◌≡◌, refl, true, List, [], ◌∷◌, ◌++◌, map, All, arith}
use x_pilot.Platform.{DoubleLib}
use x_pilot.Signals.{Signal}
use x_pilot.Signals.Exit.{IsQuiet, Ends, rounds_before_exit}
use x_pilot.Robot.{RobotState}
use x_pilot.Raii.{Resource, created, unlinked, ScopedShm, new_shm, reset, ShmEnv, open_}
use x_pilot.Raii.Release.{fds_got, fds_closed, maps_made, maps_dropped, Opening, all_released}
use x_pilot.View.{view_signal_handler, view_main}

-- How often a name was created or removed.
abbrev pub namings : List Resource → ℕ
namings [] = 0
namings (created m ∷ t) = 1 + namings t
namings (unlinked m ∷ t) = 1 + namings t
namings (_ ∷ t) = namings t

abbrev IsClean : ℕ → ScopedShm → Type 0
IsClean x s =
    (fds_closed x s.trace ≡ fds_got x s.trace)
    × (maps_dropped x s.trace ≡ maps_made x s.trace)
    × (namings s.trace ≡ 0)

opened-IsClean :
    (x size : ℕ) (env : ShmEnv) → IsClean x (reset (open_ new_shm "/x_pilot_shm" size true env).0)
unfolding open_ reset new_shm
opened-IsClean x size env =
    let one : Opening = record {
      name = "/x_pilot_shm";
      size = size;
      read_only = true;
      env = env;
    } in
    let back = all_released x (one ∷ []) in ground arith

module _ (doubles : DoubleLib) where
  -- Whatever the kernel answers and whatever signals come, the viewer neither creates nor removes a name, and
  -- gives back each descriptor and each mapping that it got.
  pub view_leaves_memory :
      (x size : ℕ) (env : ShmEnv) (arrivals : List (List Signal × RobotState doubles))
      → (fds_closed x (view_main doubles size env arrivals).shm.trace
          ≡ fds_got x (view_main doubles size env arrivals).shm.trace)
        × (maps_dropped x (view_main doubles size env arrivals).shm.trace
            ≡ maps_made x (view_main doubles size env arrivals).shm.trace)
        × (namings (view_main doubles size env arrivals).shm.trace ≡ 0)
  unfolding view_main
  view_leaves_memory x size env arrivals = ground (arith, opened-IsClean x size env)

  -- A viewer that has the memory prints every height it reads before the first SIGINT or SIGTERM, and ends
  -- with 0.
  pub view_prints :
      (size : ℕ) (env : ShmEnv) (before after : List (List Signal × RobotState doubles))
      (ss : List Signal) (r : RobotState doubles)
      → (open_ new_shm "/x_pilot_shm" size true env).1 ≡ true
      → All (λ q. IsQuiet q.0) before
      → Ends ss
      → ((view_main doubles size env (before ++ (ss, r) ∷ after)).code ≡ 0)
        × ((view_main doubles size env (before ++ (ss, r) ∷ after)).heights
            ≡ map (λ q. q.1.z) before)
  unfolding view_main
  view_prints size env before after ss r ok quiet ends =
      rw (ok, rounds_before_exit view_signal_handler (λ b. refl) before ss r after quiet ends)
        (refl, map-map (λ q. q.z) (λ q. q.1) before)
