-- ===== src/Raii/Release.antt =====
-- What the owner of a shared memory gives back.
use text.Mathlib.Text.{◌==◌ as str_eq}
use x_pilot.Base.{
  ℕ, ◌+◌, ◌≡◌, refl, Bool, false, Option, none, some, List, [], ◌∷◌, String, ◌==◌, if◌then◌else◌,
  arith,
}
use x_pilot.Raii.{
  Resource, got_fd, closed_fd, mapped, unmapped, unlinked, ScopedShm, new_shm, reset, ShmEnv, open_,
}

abbrev pub same : ℕ → ℕ → ℕ
same x y = if x == y then 1 else 0

-- How often a descriptor was handed out and closed, and an address mapped and unmapped.
abbrev pub fds_got : ℕ → List Resource → ℕ
fds_got x [] = 0
fds_got x (got_fd y ∷ t) = same x y + fds_got x t
fds_got x (_ ∷ t) = fds_got x t

abbrev pub fds_closed : ℕ → List Resource → ℕ
fds_closed x [] = 0
fds_closed x (closed_fd y ∷ t) = same x y + fds_closed x t
fds_closed x (_ ∷ t) = fds_closed x t

abbrev pub maps_made : ℕ → List Resource → ℕ
maps_made x [] = 0
maps_made x (mapped y n ∷ t) = same x y + maps_made x t
maps_made x (_ ∷ t) = maps_made x t

abbrev pub maps_dropped : ℕ → List Resource → ℕ
maps_dropped x [] = 0
maps_dropped x (unmapped y n ∷ t) = same x y + maps_dropped x t
maps_dropped x (_ ∷ t) = maps_dropped x t

abbrev pub holds : ℕ → Option ℕ → ℕ
holds x none = 0
holds x (some y) = same x y

abbrev IsAccounted : ℕ → ScopedShm → Type 0
IsAccounted x s =
    (fds_got x s.trace ≡ fds_closed x s.trace + holds x s.fd)
    × (maps_made x s.trace ≡ maps_dropped x s.trace + holds x s.ptr)

-- Calls of `open`, with what the kernel answers.
pub record Opening : Type 0 where
  pub name : String
  pub size : ℕ
  pub read_only : Bool
  pub env : ShmEnv

unfoldable pub run : ScopedShm → List Opening → ScopedShm
run s [] = s
run s (o ∷ os) = run (open_ s o.name o.size o.read_only o.env).0 os

reset-IsAccounted : (x : ℕ) (s : ScopedShm) → IsAccounted x s → IsAccounted x (reset s)
unfolding reset
reset-IsAccounted x s h = ground arith

reset-empty : (s : ScopedShm) → ((reset s).fd ≡ none) × ((reset s).ptr ≡ none)
unfolding reset
reset-empty s = ground arith

opened-IsAccounted :
    (x : ℕ) (s : ScopedShm) (name : String) (size : ℕ) (ro : Bool) (env : ShmEnv)
    → IsAccounted x s
    → IsAccounted x (open_ s name size ro env).0
unfolding open_
opened-IsAccounted x s name size ro env h = ground (arith, reset-IsAccounted x s h, reset-empty s)

run-IsAccounted :
    (x : ℕ) (os : List Opening) (s : ScopedShm) → IsAccounted x s → IsAccounted x (run s os)
unfolding run
run-IsAccounted x [] s h = h
run-IsAccounted x (o ∷ os) s h =
    run-IsAccounted x os (open_ s o.name o.size o.read_only o.env).0
      (opened-IsAccounted x s o.name o.size o.read_only o.env h)

new-IsAccounted : (x : ℕ) → IsAccounted x new_shm
unfolding new_shm
new-IsAccounted x = (refl, refl)

-- After any calls of `open`, failures included, the destructor leaves every descriptor closed as often as
-- it was handed out, and every address unmapped as often as it was mapped.
pub all_released :
    (x : ℕ) (os : List Opening)
    → (fds_closed x (reset (run new_shm os)).trace ≡ fds_got x (reset (run new_shm os)).trace)
      × (maps_dropped x (reset (run new_shm os)).trace ≡ maps_made x (reset (run new_shm os)).trace)
all_released x os =
    let s = run new_shm os in
    ground (
      arith,
      reset-IsAccounted x s (run-IsAccounted x os new_shm (new-IsAccounted x)),
      reset-empty s,
    )

-- How often a name was removed.
abbrev pub unlinks : String → List Resource → ℕ
unlinks n [] = 0
unlinks n (unlinked m ∷ t) = (if str_eq n m then 1 else 0) + unlinks n t
unlinks n (_ ∷ t) = unlinks n t

-- A writer's `open` that fails after `shm_open`, on an object that owns nothing, does not remove the
-- name that it created, and neither does the destructor.
pub failed_open_stays :
    (s : ScopedShm) (name n : String) (size fd : ℕ) (env : ShmEnv)
    → s.owner ≡ false
    → env.shm_open ≡ some fd
    → (open_ s name size false env).1 ≡ false
    → unlinks n (reset (open_ s name size false env).0).trace ≡ unlinks n s.trace
unfolding open_ reset
failed_open_stays s name n size fd env o e h = ground arith
