-- ===== src/Lookup/Bytes.antt =====
-- `int.to_bytes(n, "big")` and `int.from_bytes(data, "big")`, which the lookup's frames are made of.
use mtsc.Common.{
  ◌≡◌, ◌∷◌, ◌<◌, ◌/◌, ◌+◌, ◌++◌, ◌*◌, ◌%◌, ℕ, zero, suc, refl, raise, overflow_error, ok, ltb,
  length-append, length, if◌then◌else◌, arith, [], Result, List,
}

-- 256 ** n
abbrev pub limit : ℕ → ℕ
limit zero = 1
limit (suc n) = 256 * limit n

-- The n lowest bytes of a number, the highest first.
unfoldable pub digits : ℕ → ℕ → List ℕ
digits zero v = []
digits (suc n) v = digits n (v / 256) ++ v % 256 ∷ []

-- value.to_bytes(n, "big")
unfoldable pub to_bytes : ℕ → ℕ → Result (List ℕ)
to_bytes n v =
    if ltb v (limit n) then ok (digits n v) else raise (overflow_error "int too big to convert")

abbrev from_digits : ℕ → List ℕ → ℕ
from_digits acc [] = acc
from_digits acc (b ∷ bs) = from_digits (acc * 256 + b) bs

-- int.from_bytes(data, "big")
unfoldable pub from_bytes : List ℕ → ℕ
from_bytes = from_digits 0

from_digits-append :
    (acc b : ℕ) (bs : List ℕ) → from_digits acc (bs ++ b ∷ []) ≡ from_digits acc bs * 256 + b
from_digits-append acc b [] = refl
from_digits-append acc b (c ∷ bs) = from_digits-append (acc * 256 + c) b bs

pub from_bytes-digits : (n v : ℕ) → v < limit n → from_bytes (digits n v) ≡ v
unfolding from_bytes digits
from_bytes-digits zero v h = omega arith
from_bytes-digits (suc n) v h = grind (
  arith,
  from_digits-append 0 (v % 256) (digits n (v / 256)),
  from_bytes-digits n (v / 256) (grind arith),
)

pub length-digits : (n v : ℕ) → length (digits n v) ≡ n
unfolding digits
length-digits zero v = refl
length-digits (suc n) v =
    omega (arith, length-append (digits n (v / 256)) (v % 256 ∷ []), length-digits n (v / 256))

-- A number that fits is written, and read back as it was.
pub to_bytes-fits : (n v : ℕ) → v < limit n → to_bytes n v ≡ ok (digits n v)
unfolding to_bytes
to_bytes-fits n v h = ground arith
