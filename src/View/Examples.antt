-- ===== src/View/Examples.antt =====
-- The viewer at concrete inputs.
use x_pilot.Base.{◌≡◌, true, some, [], ◌∷◌}
use x_pilot.Platform.Sample.{sample_double}
use x_pilot.Robot.{new_robot}
use x_pilot.Raii.{ShmEnv}
use x_pilot.Raii.Release.{fds_got, fds_closed, maps_made, maps_dropped}
use x_pilot.View.{view_main}
use x_pilot.View.Reader.{namings, view_leaves_memory}

abbrev there : ShmEnv
there = record { shm_open = some 3; truncate_ok = true; mmap = some 4096 }

view_leaves_memory_example :
    (fds_closed 3 (view_main sample_double 64 there (([], new_robot sample_double) ∷ [])).shm.trace
      ≡ fds_got 3 (view_main sample_double 64 there (([], new_robot sample_double) ∷ [])).shm.trace)
    × (maps_dropped 3
          (view_main sample_double 64 there (([], new_robot sample_double) ∷ [])).shm.trace
        ≡ maps_made 3
            (view_main sample_double 64 there (([], new_robot sample_double) ∷ [])).shm.trace)
    × (namings (view_main sample_double 64 there (([], new_robot sample_double) ∷ [])).shm.trace
        ≡ 0)
view_leaves_memory_example =
    view_leaves_memory sample_double 3 64 there (([], new_robot sample_double) ∷ [])
