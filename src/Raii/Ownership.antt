-- ===== src/Raii/Ownership.antt =====
-- Two owners of descriptors that take, move, give away and drop them.
use x_pilot.Base.{ℕ, ◌+◌, ◌≡◌, refl, Option, none, some, List, [], ◌∷◌, arith}
use x_pilot.Raii.{Resource, got_fd, reset_fd, drop_fd, release_fd, assign_fd}
use x_pilot.Raii.Release.{holds, fds_got, fds_closed}

-- Two `ScopedFd` objects, the descriptors that were released to the caller, and the effects.
pub record Owners : Type 0 where
  pub left : Option ℕ
  pub right : Option ℕ
  pub given : List (Option ℕ)
  pub trace : List Resource

pub data Use : Type 0 where
  takes : ℕ → Use  -- `left.reset(fd)` with a new descriptor
  resets : Use  -- `left.reset()`
  moves : Use  -- `left = std::move(right)`
  moves_back : Use
  gives : Use  -- `left.release()`

unfoldable pub use_owners : Owners → Use → Owners
use_owners o (takes fd) =
    let (left, t) = reset_fd o.left (some fd) (got_fd fd ∷ o.trace) in
    record o { left = left; trace = t }
use_owners o resets =
    let (left, t) = reset_fd o.left none o.trace in record o { left = left; trace = t }
use_owners o moves =
    let (left, right, t) = assign_fd o.left o.right o.trace in
    record o { left = left; right = right; trace = t }
use_owners o moves_back =
    let (right, left, t) = assign_fd o.right o.left o.trace in
    record o { left = left; right = right; trace = t }
use_owners o gives =
    let (left, fd) = release_fd o.left in record o { left = left; given = fd ∷ o.given }

unfoldable pub use_all : Owners → List Use → Owners
use_all o [] = o
use_all o (u ∷ us) = use_all (use_owners o u) us

abbrev pub given_away : ℕ → List (Option ℕ) → ℕ
given_away x [] = 0
given_away x (fd ∷ fds) = holds x fd + given_away x fds

abbrev IsOwned : ℕ → Owners → Type 0
IsOwned x o =
    fds_got x o.trace
    ≡ fds_closed x o.trace + holds x o.left + holds x o.right + given_away x o.given

use_owners-IsOwned : (x : ℕ) (o : Owners) (u : Use) → IsOwned x o → IsOwned x (use_owners o u)
unfolding use_owners reset_fd assign_fd release_fd
use_owners-IsOwned x o (takes fd) h = ground arith
use_owners-IsOwned x o resets h = ground arith
use_owners-IsOwned x o moves h = ground arith
use_owners-IsOwned x o moves_back h = ground arith
use_owners-IsOwned x o gives h = ground arith

use_all-IsOwned : (x : ℕ) (us : List Use) (o : Owners) → IsOwned x o → IsOwned x (use_all o us)
unfolding use_all
use_all-IsOwned x [] o h = h
use_all-IsOwned x (u ∷ us) o h = use_all-IsOwned x us (use_owners o u) (use_owners-IsOwned x o u h)

abbrev pub no_owners : Owners
no_owners = record { left = none; right = none; given = []; trace = [] }

-- After any use of two ScopedFd objects and their destructors, each descriptor was closed as often as it was
-- taken over, less the times it was released to the caller: none is closed twice and none is forgotten.
pub owned_once :
    (x : ℕ) (us : List Use)
    → fds_closed x (
          drop_fd
            (use_all no_owners us).left
            (drop_fd (use_all no_owners us).right (use_all no_owners us).trace))
        + given_away x (use_all no_owners us).given
      ≡ fds_got x (use_all no_owners us).trace
unfolding drop_fd reset_fd
owned_once x us = ground (arith, use_all-IsOwned x us no_owners refl)
