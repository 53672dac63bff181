-- ===== src/Raii/Examples.antt =====
-- The owners at concrete inputs.
use x_pilot.Base.{◌≡◌, refl, true, false, some, none, List, [], ◌∷◌}
use x_pilot.Raii.{
  ShmEnv, new_shm, reset, open_, unlinked, closed_fd, created, got_fd, unmapped, mapped,
}
use x_pilot.Raii.Release.{Opening}
use x_pilot.Raii.Ownership.{Use, takes, moves, moves_back, gives}

abbrev cut : ShmEnv
cut = record { shm_open = some 7; truncate_ok = false; mmap = none }

abbrev whole : ShmEnv
whole = record { shm_open = some 7; truncate_ok = true; mmap = some 4096 }

abbrev writer : ShmEnv → Opening
writer env = record { name = "/x_pilot_shm"; size = 64; read_only = false; env = env }

whole_trace :
    (reset (open_ new_shm "/x_pilot_shm" 64 false whole).0).trace
    ≡ unlinked "/x_pilot_shm"
      ∷ closed_fd 7
      ∷ unmapped 4096 64
      ∷ mapped 4096 64
      ∷ created "/x_pilot_shm"
      ∷ got_fd 7
      ∷ []
unfolding reset open_ new_shm
whole_trace = refl

abbrev uses : List Use
uses = takes 5 ∷ moves_back ∷ takes 6 ∷ moves ∷ gives ∷ takes 5 ∷ []
