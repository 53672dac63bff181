-- ===== src/Base/Word.antt =====
-- A uint32_t in network byte order: what `htonl` and `ntohl` do to the four bytes of a header.
use Prim.Native.Nat.{ℕ, ◌+◌, ◌*◌, ◌/◌, ◌%◌, ◌^◌, ◌≤◌}
use mathlib.Core.Path.{◌≡◌, refl}
use mathlib.Core.List.{List, [], ◌∷◌, ◌++◌}
use native.Mathlib.Omega.{arith}
use x_pilot.Base.Lists.{length}

abbrev pub Bytes : Type 0
Bytes = List ℕ

-- The bytes in memory after `uint32_t len = htonl(n)`: `n` is cut to 32 bits first.
unfoldable pub htonl : ℕ → Bytes
htonl n = n / 2 ^ 24 % 256 ∷ n / 2 ^ 16 % 256 ∷ n / 2 ^ 8 % 256 ∷ n % 256 ∷ []

-- `ntohl` of the first four bytes of a buffer. The callers read no shorter one.
unfoldable pub ntohl : Bytes → ℕ
ntohl (a ∷ b ∷ c ∷ d ∷ rest) = a * 2 ^ 24 + b * 2 ^ 16 + c * 2 ^ 8 + d
ntohl _ = 0

pub length-htonl : (n : ℕ) → length (htonl n) ≡ 4
unfolding htonl
length-htonl n = refl

pub ntohl-htonl : (n : ℕ) (rest : Bytes) → ntohl (htonl n ++ rest) ≡ n % 2 ^ 32
unfolding htonl ntohl
ntohl-htonl n rest = omega arith

-- Only the first four bytes count.
pub ntohl-append : (buf more : Bytes) → 4 ≤ length buf → ntohl (buf ++ more) ≡ ntohl buf
unfolding ntohl
ntohl-append [] more h = absurd (omega arith)
ntohl-append (a ∷ []) more h = absurd (omega arith)
ntohl-append (a ∷ b ∷ []) more h = absurd (omega arith)
ntohl-append (a ∷ b ∷ c ∷ []) more h = absurd (omega arith)
ntohl-append (a ∷ b ∷ c ∷ d ∷ rest) more h = refl
