-- ===== src/View.antt =====
-- src/view_main.cpp: the viewer, which maps the shared memory for reading and prints the height once a
-- second.
pub mod Reader
mod Examples
use x_pilot.Base.{Bool, true, false, List, [], map, ℕ, if◌then◌else◌}
use x_pilot.Platform.{DoubleLib}
use x_pilot.Signals.{Signal, rounds_made}
use x_pilot.Robot.{RobotState}
use x_pilot.Raii.{ScopedShm, ShmEnv, new_shm, open_, reset}

unfoldable pub view_signal_handler : Bool → Bool
view_signal_handler flag = true

module _ (doubles : DoubleLib) where
  open doubles use {Double}

  -- How the viewer ends: the value of `main`, the heights that it printed, and the owner of the mapping after
  -- its destructor.
  pub record ViewExit : Type 0 where
    pub code : ℕ
    pub heights : List Double
    pub shm : ScopedShm

  -- `main`, with sizeof(RobotState), what the kernel answers, and what the memory holds at each print with
  -- the signals that arrive before it.
  unfoldable pub view_main : ℕ → ShmEnv → List (List Signal × RobotState doubles) → ViewExit
  unfolding view_signal_handler
  view_main size env arrivals =
      let (shm, ok) = open_ new_shm "/x_pilot_shm" size true env in
      if ok
      then record {
        code = 0;
        heights = map (λ r. r.z) (rounds_made view_signal_handler false arrivals);
        shm = reset shm;
      }
      else record { code = 1; heights = []; shm = reset shm }
