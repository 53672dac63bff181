-- ===== src/Platform.antt =====
-- What the program takes from outside its own sources, as interfaces that the models are given: the JSON
-- library that is vendored as include/json.hpp, the machine's `double`, and the kernel's blocking read of a
-- socket.
pub mod Sample
use x_pilot.Base.{ℕ, String, Bool, Option}
use x_pilot.Base.Word.{Bytes}

-- `json::parse`: a value, a `json::parse_error`, or another exception of the library. The last is
-- what a number that no double holds gives (`out_of_range`, id 406).
pub data Parsed {ℓ} (J : Type ℓ) : Type ℓ where
  value : J → Parsed J
  parse_error : Parsed J
  out_of_range : Parsed J

-- The calls of nlohmann::json that the program makes. `as_string` and the others are the implicit
-- conversions: `none` is the `type_error` that they throw.
pub record JsonLib : Type 1 where
  pub Json : Type 0
  pub parse : Bytes → Parsed Json
  pub dump : Json → Bytes
  pub contains : Json → String → Bool
  pub at : Json → String → Json
  pub put : Json → String → Json → Json
  pub null : Json
  pub of_string : String → Json
  pub of_int : ℕ → Json
  pub as_string : Json → Option String
  pub as_int : Json → Option ℕ

-- The operations on doubles that the control process makes. `truncate` is the conversion to
-- `int32_t` that a compound assignment on an integer ends with.
pub record DoubleLib : Type 1 where
  pub Double : Type 0
  pub zero_double : Double
  pub ten : Double
  pub tenth : Double
  pub add : Double → Double → Double
  pub sub : Double → Double → Double
  pub mul : Double → Double → Double
  pub lt : Double → Double → Bool
  pub of_int : ℕ → Double
  pub truncate : Double → ℕ
  pub show : Double → String

-- `::recv(fd, buf, n, MSG_WAITALL)` on a connected stream socket: the bytes read, or `none` for -1.
pub record SocketLib : Type 1 where
  pub Conn : Type 0
  pub recv_all : Conn → ℕ → Option Bytes × Conn
