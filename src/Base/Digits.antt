-- ===== src/Base/Digits.antt =====
-- How many characters the printed number of an `int` has.
use Prim.Native.Nat.{ℕ, zero, suc, ◌+◌, ◌*◌, ◌/◌, ◌%◌, ◌^◌, ◌<◌, ◌≤◌}
use mathlib.Core.List.{[], ◌∷◌}
use native.Mathlib.Omega.{arith}
use coreland_c_string.Base.Int.{ℤ, pos, negsuc}
use coreland_c_string.Base.Lists.{length}
use coreland_c_string.Base.Text.{Bytes, digits_onto, decimal, signed_decimal}

-- `limit k` is 10 ^ (k + 1).
abbrev limit : ℕ → ℕ
limit zero = 10
limit (suc k) = 10 * limit k

length-digits_onto :
    (fuel k n : ℕ) (rest : Bytes)
    → n < limit k
    → length (digits_onto fuel 10 n rest) ≤ suc k + length rest
unfolding digits_onto
length-digits_onto zero k n rest h = omega arith
length-digits_onto (suc fuel) zero n rest h = ground arith
length-digits_onto (suc fuel) (suc k) n rest h =
    ground (arith, length-digits_onto fuel k (n / 10) ((b'0' + n % 10) ∷ rest))

-- The value of an `int`, of 32 bits.
abbrev pub IsInt : ℤ → Type 0
IsInt (pos n) = n < 2 ^ 31
IsInt (negsuc n) = n < 2 ^ 31

pub length-signed_decimal : (n : ℤ) → IsInt n → length (signed_decimal n) < 12
unfolding signed_decimal decimal
length-signed_decimal (pos n) h = omega (arith, length-digits_onto 64 9 n [])
length-signed_decimal (negsuc n) h = omega (arith, length-digits_onto 64 9 (suc n) [])
