-- ===== src/Signals.antt =====
-- The signals of the four processes: src/manager_main.cpp, src/comm_main.cpp, src/control_main.cpp and
-- src/view_main.cpp each have a flag `g_should_exit`, a handler that sets it for SIGINT and SIGTERM, and
-- ignore SIGPIPE. A handler is an argument here.
pub mod Exit
use x_pilot.Base.{Bool, List, [], ◌∷◌, if◌then◌else◌}

pub data Signal : Type 0 where
  sigint sigterm sigpipe : Signal

module _ (handler : Bool → Bool) where
  -- What `signal` set up: the handler, or SIG_IGN.
  unfoldable pub deliver : Bool → Signal → Bool
  deliver flag sigint = handler flag
  deliver flag sigterm = handler flag
  deliver flag sigpipe = flag

  unfoldable pub deliver_all : Bool → List Signal → Bool
  deliver_all flag [] = flag
  deliver_all flag (s ∷ ss) = deliver_all (deliver flag s) ss

  -- `while (!g_should_exit)`: the rounds that are made, where each comes with the signals that arrive before
  -- its test.
  unfoldable pub rounds_made {ℓ} : {A : Type ℓ} → Bool → List (List Signal × A) → List A
  rounds_made flag [] = []
  rounds_made flag ((arrived, a) ∷ rest) =
      let later = rounds_made (deliver_all flag arrived) rest in
      if deliver_all flag arrived then [] else a ∷ later
