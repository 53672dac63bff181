-- ===== src/Control/Robust.antt =====
-- When the threads of the control process end by an exception.
use x_pilot.Base.{◌≡◌, ◌⊎◌, true, Option, List, ◌∷◌, done}
use x_pilot.Platform.{JsonLib, DoubleLib}
use x_pilot.Control.{has_client}
use x_pilot.Control.Handler.{MainEvent, frame_in, frame_threw}
use x_pilot.Control.Commands.{unreadable, Asks}
use x_pilot.Control.Mission.{Action, listens, Threads, act}

module _ (lib : JsonLib) (doubles : DoubleLib) where
  open lib use {Json}
  open doubles use {Double}

  module _ (as_double : Json → Option Double) (of_double : Double → Json) where
    -- A message that the controller cannot read: `recvFrame` throws, or `handleCommand` does.
    abbrev pub IsUnreadable : MainEvent lib doubles as_double → Type 0
    IsUnreadable e =
        (e ≡ frame_threw)
        ⊎ ((j : Json) × (e ≡ frame_in j) × Asks lib doubles as_double j unreadable)

    -- The main thread is in a round and has a client, and the action is a message that it cannot read.
    pub record IsFatal (s : Threads lib doubles) (a : Action lib doubles as_double of_double)
        : Type 0 where
      pub event : MainEvent lib doubles as_double
      pub is_message : a ≡ listens event
      pub in_round : s.listening ≡ true
      pub client : has_client s.controller.client_fd ≡ true
      pub bad : IsUnreadable event

    -- The actions are done in order, up to a message that cannot be read.
    pub data IsFatalIn (target : Double)
        : Threads lib doubles → List (Action lib doubles as_double of_double) → Type 0 where
      this :
          (s : Threads lib doubles) (a : Action lib doubles as_double of_double)
          (acts : List (Action lib doubles as_double of_double))
          → IsFatal s a
          → IsFatalIn target s (a ∷ acts)
      next :
          (s d : Threads lib doubles) (a : Action lib doubles as_double of_double)
          (acts : List (Action lib doubles as_double of_double))
          → act lib doubles as_double of_double s target a ≡ done d
          → IsFatalIn target d acts
          → IsFatalIn target s (a ∷ acts)
