-- ===== src/Platform/Sample.antt =====
-- A JSON library and doubles small enough to compute with. The witnesses instantiate the interfaces
-- with them, which shows that what the theorems assume can be met.
use text.Mathlib.Text.{◌==◌ as str_eq}
use x_pilot.Base.{
  ℕ, ◌+◌, ◌-◌, ◌*◌, ◌/◌, Bool, true, false, String, Option, none, some, [], ◌∷◌, ltb, take, drop,
  if◌then◌else◌,
}
use x_pilot.Base.Word.{Bytes}
use x_pilot.Platform.{JsonLib, DoubleLib, SocketLib, Parsed, value, parse_error, out_of_range}

mutual
  pub data Value : Type 0 where
    null : Value
    num : ℕ → Value
    word : String → Value
    obj : Fields → Value

  pub data Fields : Type 0 where
    end : Fields
    field : String → Value → Fields → Fields

abbrev pub find : String → Fields → Option Value
find k end = none
find k (field j v fs) = if str_eq j k then some v else find k fs

abbrev fields : Value → Fields
fields (obj fs) = fs
fields _ = end

abbrev has : Value → String → Bool
has v k = elim (find k (fields v)) [ none ↦ false | some w ↦ true ]

abbrev child : Value → String → Value
child v k = elim (find k (fields v)) [ none ↦ null | some w ↦ w ]

abbrev string_of : Value → Option String
string_of (word s) = some s
string_of _ = none

abbrev int_of : Value → Option ℕ
int_of (num n) = some n
int_of _ = none

-- Texts of one or two bytes stand for the values: `49` is the text `1`, and so on. A lone `69` is a
-- number that no double holds.
abbrev read : Bytes → Parsed Value
read (a ∷ []) = if ltb a 65 then value (num a) else if ltb a 70 then out_of_range else parse_error
read (a ∷ b ∷ []) =
    if ltb a 65
    then value (
        obj (field "cmd" (word "SET_SPEED") (field "params" (obj (field "speed" (num b) end)) end)))
    else if ltb a 70
    then value (obj (field "cmd" (word "START_SPRAY") end))
    else parse_error
read _ = parse_error

abbrev print : Value → Bytes
print null = 0 ∷ []
print (num n) = n ∷ []
print (word s) = 1 ∷ []
print (obj end) = 1 ∷ []
print (obj (field k v fs)) = 65 ∷ 66 ∷ []

abbrev pub sample_json : JsonLib
sample_json = record {
  Json = Value;
  parse = read;
  dump = print;
  contains = has;
  at = child;
  put = λ v k w. obj (field k w (fields v));
  null = null;
  of_string = word;
  of_int = num;
  as_string = string_of;
  as_int = int_of;
}

-- Doubles as tenths.
abbrev pub sample_double : DoubleLib
sample_double = record {
  Double = ℕ;
  zero_double = 0;
  ten = 100;
  tenth = 1;
  add = ◌+◌;
  sub = ◌-◌;
  mul = λ a b. a * b / 10;
  lt = ltb;
  of_int = λ n. n * 10;
  truncate = λ d. d / 10;
  show = λ d. "";
}

-- A connection as the bytes that are still to come.
abbrev pub sample_socket : SocketLib
sample_socket = record { Conn = Bytes; recv_all = λ c n. (some (take n c), drop n c) }
