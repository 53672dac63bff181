-- ===== src/Raii.antt =====
-- include/raii.h: the owners of a file descriptor and of a mapped shared memory. A descriptor of -1 and a
-- null pointer are `none`; a mapping is named by a number, its address; what the kernel answers are
-- arguments; `trace` holds the effects, newest first.
pub mod Ownership
pub mod Release
mod Examples
use text.Mathlib.Text.{◌==◌ as str_eq}
use x_pilot.Base.{
  ℕ, Bool, true, false, not, ◌&&◌, Option, none, some, List, [], ◌∷◌, String, if◌then◌else◌,
}

pub data Resource : Type 0 where
  got_fd : ℕ → Resource
  closed_fd : ℕ → Resource
  mapped : ℕ → ℕ → Resource
  unmapped : ℕ → ℕ → Resource
  created : String → Resource
  unlinked : String → Resource

-- `ScopedFd` is its descriptor. `reset` closes the one it has and takes over another.
unfoldable pub reset_fd : Option ℕ → Option ℕ → List Resource → Option ℕ × List Resource
reset_fd none new_fd t = (new_fd, t)
reset_fd (some fd) new_fd t = (new_fd, closed_fd fd ∷ t)

-- The destructor.
unfoldable pub drop_fd : Option ℕ → List Resource → List Resource
unfolding reset_fd
drop_fd fd t = (reset_fd fd none t).1

-- `release`: the object, and the descriptor that the caller gets.
unfoldable pub release_fd : Option ℕ → Option ℕ × Option ℕ
release_fd fd = (none, fd)

-- The move constructor: the new object, and the old one.
unfoldable pub move_fd : Option ℕ → Option ℕ × Option ℕ
move_fd other = (other, none)

-- The move assignment of two different objects: the assigned one, the other one, the effects. The
-- assignment of an object to itself does nothing.
unfoldable pub assign_fd : Option ℕ → Option ℕ → List Resource → Option ℕ × Option ℕ × List Resource
unfolding reset_fd
assign_fd fd other t = (other, none, (reset_fd fd none t).1)

pub record ScopedShm : Type 0 where
  pub fd : Option ℕ
  pub ptr : Option ℕ
  pub size : ℕ
  pub name : String
  pub owner : Bool
  pub trace : List Resource

unfoldable pub new_shm : ScopedShm
new_shm = record { fd = none; ptr = none; size = 0; name = ""; owner = false; trace = [] }

unmap : Option ℕ → ℕ → List Resource → List Resource
unmap none size t = t
unmap (some p) size t = unmapped p size ∷ t

-- `ScopedShm::reset`, which is the destructor too.
unfoldable pub reset : ScopedShm → ScopedShm
unfolding unmap drop_fd
reset s =
    let closed = record s {
      fd = none;
      ptr = none;
      size = 0;
      trace = drop_fd s.fd (unmap s.ptr s.size s.trace);
    } in
    if s.owner && not (str_eq s.name "")
    then record closed { name = ""; owner = false; trace = unlinked s.name ∷ closed.trace }
    else closed

-- What `shm_open`, `ftruncate` and `mmap` answer.
pub record ShmEnv : Type 0 where
  pub shm_open : Option ℕ
  pub truncate_ok : Bool
  pub mmap : Option ℕ

-- From `mmap` on.
map_shm : ScopedShm → ℕ → String → ℕ → Bool → Option ℕ → ScopedShm × Bool
unfolding drop_fd
map_shm s fd name size read_only none =
    (record s { ptr = none; fd = none; trace = drop_fd (some fd) s.trace }, false)
map_shm s fd name size read_only (some p) = (
  record s {
    ptr = some p;
    size = size;
    name = name;
    owner = not read_only;
    trace = mapped p size ∷ s.trace;
  },
  true,
)

-- From `shm_open` on. O_CREAT, for a writer, creates the object if there is none of that name.
open_shm : ScopedShm → String → ℕ → Bool → ShmEnv → ℕ → ScopedShm × Bool
unfolding map_shm
open_shm s name size read_only env fd =
    let read = record s { fd = some fd; trace = got_fd fd ∷ s.trace } in
    let written = record s { fd = some fd; trace = created name ∷ got_fd fd ∷ s.trace } in
    if read_only
    then map_shm read fd name size read_only env.mmap
    else if env.truncate_ok
    then map_shm written fd name size read_only env.mmap
    else (written, false)

unfoldable pub open_ : ScopedShm → String → ℕ → Bool → ShmEnv → ScopedShm × Bool
unfolding reset open_shm
open_ s name size read_only env =
    let r = reset s in
    elim env.shm_open [ none ↦ (r, false) | some fd ↦ open_shm r name size read_only env fd ]
