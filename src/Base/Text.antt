-- ===== src/Base/Text.antt =====
-- Byte strings: a C string is the list of its bytes before the terminating NUL.
use Prim.Native.Nat.{ℕ, suc, ◌+◌, ◌-◌, ◌/◌, ◌%◌, ◌^◌, zero}
use Prim.Native.Char.{code}
use Prim.Native.String.{String}
use mathlib.Core.Path.{◌≡◌, refl}
use mathlib.Core.Logic.{◌↔◌}
use mathlib.Core.Bool.{Bool, true, false, ◌&&◌}
use mathlib.Core.List.{List, [], ◌∷◌}
use native.Mathlib.Omega.{arith}
use coreland_c_string.Base.Tests.{◌==◌, ltb, if◌then◌else◌}
use coreland_c_string.Base.Int.{ℤ, pos, negsuc, minus_one}
use coreland_c_string.Base.Lists.{length, take}

abbrev pub Bytes : Type 0
Bytes = List ℕ

abbrev codes : String → Bytes
codes String.[] = []
codes (String.◌∷◌ c s) = code c ∷ codes s

-- A string literal of the source. It stays shut in proofs.
unfoldable pub lit : String → Bytes
lit s = codes s

-- `strcmp (a, b) == 0`
unfoldable pub strcmp_eq : Bytes → Bytes → Bool
strcmp_eq [] [] = true
strcmp_eq [] (y ∷ ys) = false
strcmp_eq (x ∷ xs) [] = false
strcmp_eq (x ∷ xs) (y ∷ ys) = x == y && strcmp_eq xs ys

pub strcmp_eq_iff : (a b : Bytes) → (strcmp_eq a b ≡ true) ↔ (a ≡ b)
unfolding strcmp_eq
strcmp_eq_iff [] [] = (λ _. refl, λ _. refl)
strcmp_eq_iff [] (y ∷ ys) = (λ h. cc, λ h. cc)
strcmp_eq_iff (x ∷ xs) [] = (λ h. cc, λ h. cc)
strcmp_eq_iff (x ∷ xs) (y ∷ ys) = ground (arith, strcmp_eq_iff xs ys)

-- `snprintf (buffer, size, …)` for the formatted text: what the buffer holds, cut to fit before
-- the NUL, and the value returned, which is negative where the length is no `int`.
abbrev pub snprintf_text : ℕ → Bytes → Bytes
snprintf_text size text = take (size - 1) text

unfoldable pub snprintf_value : Bytes → ℤ
snprintf_value text = if ltb (length text) (2 ^ 31) then pos (length text) else minus_one

-- The digits of a number in a base, the lowest last; the fuel is its number of bits at most.
unfoldable pub digits_onto : ℕ → ℕ → ℕ → Bytes → Bytes
digits_onto zero base n rest = rest
digits_onto (suc fuel) base n rest =
    let more = digits_onto fuel base (n / base) ((b'0' + n % base) ∷ rest) in
    if ltb n base then (b'0' + n) ∷ rest else more

-- `%lu` and `%o`, of values below 2 ^ 64.
unfoldable pub decimal : ℕ → Bytes
unfolding digits_onto
decimal n = digits_onto 64 10 n []

unfoldable pub octal : ℕ → Bytes
unfolding digits_onto
octal n = digits_onto 64 8 n []

-- `%d`
unfoldable pub signed_decimal : ℤ → Bytes
unfolding decimal
signed_decimal (pos n) = decimal n
signed_decimal (negsuc n) = b'-' ∷ decimal (suc n)
