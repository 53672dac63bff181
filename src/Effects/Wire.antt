-- ===== src/Effects/Wire.antt =====
-- Two sends that the kernel takes whole.
use x_pilot.Base.{
  ℕ, ◌≡◌, true, List, ◌∷◌, ◌++◌, ◌==◌, append_assoc, length, take, take-length, arith,
}
use x_pilot.Base.Word.{Bytes}
use x_pilot.Effects.{Effect, wire, sent}

eq_self : (n : ℕ) → (n == n) ≡ true
eq_self n = ground arith

pub wire_two :
    (fd n m : ℕ) (len body : Bytes) (t : List Effect)
    → n ≡ length len
    → m ≡ length body
    → wire fd (sent fd (take m body) ∷ sent fd (take n len) ∷ t) ≡ wire fd t ++ (len ++ body)
wire_two fd n m len body t e f =
    rw (eq_self fd, e, f, take-length len, take-length body) (append_assoc (wire fd t) len body)
