-- ===== src/Effects.antt =====
-- What the processes do to the world outside their own memory, as data: descriptors that the kernel
-- hands out and takes back, bytes that it accepts, lines of metrics.log, and the answers of the clock to the
-- attempts to connect that get as far as `::connect`, and to their failures.
pub mod Wire
use x_pilot.Base.{
  Bool, false, take, ℕ, ◌+◌, String, Option, none, some, List, [], ◌∷◌, ◌++◌, ◌==◌, if◌then◌else◌,
}
use x_pilot.Base.Word.{Bytes}

-- The events of the processes, with the values that their fields show.
pub data Metric : Type 0 where
  tcp_connect_success : String → ℕ → Metric
  tcp_connect_fail : String → ℕ → ℕ → Metric
  heartbeat_timeout : String → ℕ → Metric
  command_received : String → Option String → Metric

pub data Effect : Type 0 where
  opened : ℕ → Effect
  dialled : ℕ → String → ℕ → Effect
  sent : ℕ → Bytes → Effect
  closed : ℕ → Effect
  unlinked : String → Effect
  emitted : Metric → Effect
  clocked : ℕ → Effect

-- How often a descriptor was handed out, and closed.
abbrev one_if : ℕ → ℕ → ℕ
one_if fd x = if x == fd then 1 else 0

abbrev opening : ℕ → Effect → ℕ
opening fd (opened x) = one_if fd x
opening fd _ = 0

abbrev closing : ℕ → Effect → ℕ
closing fd (closed x) = one_if fd x
closing fd _ = 0

abbrev pub opens : ℕ → List Effect → ℕ
opens fd [] = 0
opens fd (e ∷ es) = opening fd e + opens fd es

abbrev pub closes : ℕ → List Effect → ℕ
closes fd [] = 0
closes fd (e ∷ es) = closing fd e + closes fd es

-- 1 if the variable holds the descriptor.
abbrev pub holds : ℕ → Option ℕ → ℕ
holds fd none = 0
holds fd (some x) = one_if fd x

-- `close(fd)` where the variable is not -1.
abbrev pub close_if : Option ℕ → List Effect → List Effect
close_if none t = t
close_if (some fd) t = closed fd ∷ t

-- The bytes that the kernel took on a descriptor, in order.
abbrev pub wire : ℕ → List Effect → Bytes
wire fd [] = []
wire fd (sent x b ∷ t) = wire fd t ++ (if x == fd then b else [])
wire fd (opened _ ∷ t) = wire fd t
wire fd (dialled _ _ _ ∷ t) = wire fd t
wire fd (closed _ ∷ t) = wire fd t
wire fd (unlinked _ ∷ t) = wire fd t
wire fd (emitted _ ∷ t) = wire fd t
wire fd (clocked _ ∷ t) = wire fd t

-- The answer of `::send`: how many bytes the kernel took, or `none` for -1.
abbrev pub accepted : ℕ → Bytes → Option ℕ → List Effect → List Effect
accepted fd bytes none t = t
accepted fd bytes (some n) t = sent fd (take n bytes) ∷ t

abbrev pub took_all : Option ℕ → ℕ → Bool
took_all none n = false
took_all (some m) n = m == n
