-- ===== src/Conf/Compare.antt =====
-- str_diff of c_string-conf.c, the comparison whose loop is unrolled four times.
pub mod Laws
use coreland_c_string.Base.{
  ℕ, zero, suc, ◌+◌, ◌<◌, ◌≤◌, ◌==◌, Bool, true, false, not, Option, none, some, List, [], ◌∷◌, ◌≡◌,
  refl, Bytes, ℤ, pos, sub_ℕ, ◌==ℤ◌, length, ◌↔◌, arith, if◌then◌else◌, Bool-cases, inl, inr,
}

-- `*s` and `s + 1`, for a pointer into a string that ends in NUL.
abbrev pub char_at : Bytes → ℕ
char_at [] = 0
char_at (c ∷ cs) = c

abbrev advance : Bytes → Bytes
advance [] = []
advance (c ∷ cs) = cs

-- Where the loop stands: ended, with the difference that is returned, or at two pointers.
pub data Scan : Type 0 where
  broken : ℤ → Scan
  going : Bytes → Bytes → Scan

-- `u = *s; if (u != *t) break; if (!u) break; ++s; ++t;`
unfoldable pub compare_char : Scan → Scan
compare_char (broken d) = broken d
compare_char (going s t) =
    if char_at s == char_at t
    then (if char_at s == 0
        then broken (sub_ℕ (char_at s) (char_at t))
        else going (advance s) (advance t))
    else broken (sub_ℕ (char_at s) (char_at t))

-- The loop; `none` where the fuel ran out.
unfoldable pub str_diff_loop : ℕ → Bytes → Bytes → Option ℤ
unfolding compare_char
str_diff_loop zero s t = none
str_diff_loop (suc fuel) s t =
    elim (compare_char (compare_char (compare_char (compare_char (going s t))))) [
      | broken d ↦ some d
      | going s' t' ↦ str_diff_loop fuel s' t'
    ]

-- `str_diff`, with a round for every byte.
unfoldable pub str_diff : Bytes → Bytes → Option ℤ
unfolding str_diff_loop
str_diff s t = str_diff_loop (length s + 1) s t

-- `str_diff (s, t) == 0`
unfoldable pub str_diff_zero : Bytes → Bytes → Bool
unfolding str_diff
str_diff_zero s t = elim (str_diff s t) [ none ↦ false | some d ↦ d ==ℤ pos 0 ]
