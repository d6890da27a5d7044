-- ===== src/Base/Bits.antt =====
-- Words of flags: what a union of single bits has.
use Prim.Native.Nat.{ℕ, zero, suc, ◌<◌, bit_and, bit_or}
use mathlib.Core.Path.{◌≡◌, refl}
use mathlib.Core.Bool.{Bool, true, false, not, ◌&&◌, ◌||◌}
use mathlib.Core.List.{List, [], ◌∷◌}
use native.Mathlib.Omega.{arith}
use coreland_c_string.Base.Tests.{ltb, ◌==◌, if◌then◌else◌}

abbrev pub has_bit : ℕ → ℕ → Bool
has_bit word mask = not (bit_and word mask == 0)

-- The bits below 512.
abbrev pub nine_bits : List ℕ
nine_bits = 1 ∷ 2 ∷ 4 ∷ 8 ∷ 16 ∷ 32 ∷ 64 ∷ 128 ∷ 256 ∷ []

unfoldable pub elem : ℕ → List ℕ → Bool
elem x [] = false
elem x (y ∷ rest) = if x == y then true else elem x rest

unfoldable pub each : {A : Type 0} → List A → (A → Bool) → Bool
each [] p = true
each (x ∷ rest) p = p x && each rest p

unfoldable below : ℕ → (ℕ → Bool) → Bool
below zero p = true
below (suc n) p = p n && below n p

each_sound : (l : List ℕ) (p : ℕ → Bool) (x : ℕ) → each l p ≡ true → elem x l ≡ true → p x ≡ true
unfolding each elem
each_sound [] p x all h = cc
each_sound (y ∷ rest) p x all h = ground (arith, each_sound rest p x)

below_sound : (n : ℕ) (p : ℕ → Bool) (x : ℕ) → below n p ≡ true → x < n → p x ≡ true
unfolding below
below_sound zero p x all h = absurd (omega arith)
below_sound (suc n) p x all h = ground (arith, below_sound n p x)

unfoldable pub same_bool : Bool → Bool → Bool
same_bool true b = b
same_bool false b = not b

pub same_bool_sound : (a b : Bool) → same_bool a b ≡ true → a ≡ b
unfolding same_bool
same_bool_sound true true h = refl
same_bool_sound true false h = cc
same_bool_sound false true h = cc
same_bool_sound false false h = refl

sets_bit : ℕ → ℕ → ℕ → Bool
unfolding same_bool
sets_bit bit b flags = same_bool (has_bit (bit_or flags bit) b) (has_bit flags b || bit == b)

bits_table : each nine_bits (λ bit. each nine_bits (λ b. below 512 (sets_bit bit b))) ≡ true
unfolding each below sets_bit same_bool
bits_table = refl

bounds_table : each nine_bits (λ bit. below 512 (λ flags. ltb (bit_or flags bit) 512)) ≡ true
unfolding each below
bounds_table = refl

pub or_false : (b : Bool) → b ≡ (b || false)
or_false true = refl
or_false false = refl

pub or_assoc : (a b c : Bool) → ((a || b) || c) ≡ (a || (b || c))
or_assoc true b c = refl
or_assoc false b c = refl

abbrev pub IsBit : ℕ → Type 0
IsBit bit = elem bit nine_bits ≡ true

pub or-has_bit :
    (bit b flags : ℕ)
    → IsBit bit
    → IsBit b
    → flags < 512
    → has_bit (bit_or flags bit) b ≡ (has_bit flags b || bit == b)
unfolding sets_bit
or-has_bit bit b flags is_bit is_b small =
    let by_bit =
      each_sound nine_bits (λ bit. each nine_bits (λ b. below 512 (sets_bit bit b))) bit bits_table
        is_bit in
    let by_b = each_sound nine_bits (λ b. below 512 (sets_bit bit b)) b by_bit is_b in
    same_bool_sound (has_bit (bit_or flags bit) b) (has_bit flags b || bit == b)
      (below_sound 512 (sets_bit bit b) flags by_b small)

clear_table : each nine_bits (λ b. not (has_bit 0 b)) ≡ true
unfolding each
clear_table = refl

is_clear : (b : Bool) → not b ≡ true → b ≡ false
is_clear true h = cc
is_clear false h = refl

pub has_none : (b : ℕ) → IsBit b → has_bit 0 b ≡ false
has_none b is_b =
    is_clear (has_bit 0 b) (each_sound nine_bits (λ b. not (has_bit 0 b)) b clear_table is_b)

pub or-lt : (bit flags : ℕ) → IsBit bit → flags < 512 → bit_or flags bit < 512
or-lt bit flags is_bit small =
    let by_bit =
      each_sound nine_bits (λ bit. below 512 (λ flags. ltb (bit_or flags bit) 512)) bit bounds_table
        is_bit in
    let less = below_sound 512 (λ flags. ltb (bit_or flags bit) 512) flags by_bit small in
    ground arith

zero_table : below 512 (λ flags. bit_or flags 0 == flags) ≡ true
unfolding below
zero_table = refl

pub or-zero : (flags : ℕ) → flags < 512 → bit_or flags 0 ≡ flags
or-zero flags small =
    let same = below_sound 512 (λ flags. bit_or flags 0 == flags) flags zero_table small in
    ground arith
