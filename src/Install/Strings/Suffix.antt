-- ===== src/Install/Strings/Suffix.antt =====
-- What the suffix and library name loops of install-core.c leave.
use coreland_c_string.Base.{
  ℕ, ◌==◌, ◌≡◌, refl, inl, inr, Bool, true, false, [], ◌∷◌, Bytes, arith, Bool-cases,
}
use coreland_c_string.Install.Strings.{is_suffix_char, install_suffix_sanitize, c_string}

abbrev pub All : (ℕ → Bool) → Bytes → Type 0
All p [] = Unit
All p (c ∷ cs) = (p c ≡ true) × All p cs

-- A text is the longest beginning of a buffer whose bytes all pass a test.
abbrev pub IsLongest : (ℕ → Bool) → Bytes → Bytes → Type 0
IsLongest p [] [] = Unit
IsLongest p [] (c ∷ cs) = p c ≡ false
IsLongest p (t ∷ ts) [] = ⊥
IsLongest p (t ∷ ts) (c ∷ cs) = (t ≡ c) × (p c ≡ true) × IsLongest p ts cs

passes-ne-zero : (c : ℕ) → is_suffix_char c ≡ true → (c == 0) ≡ false
passes-ne-zero c h = ground arith

-- After install_suffix_sanitize the string in the buffer is the longest beginning of the buffer
-- that consists of dots, digits and ASCII letters.
pub install_suffix_sanitize-IsLongest :
    (buffer : Bytes) → IsLongest is_suffix_char (c_string (install_suffix_sanitize buffer)) buffer
unfolding install_suffix_sanitize c_string
install_suffix_sanitize-IsLongest [] = tt
install_suffix_sanitize-IsLongest (c ∷ cs) = elim (Bool-cases (is_suffix_char c)) [
  | inl passes ↦
      rw (passes, passes-ne-zero c passes) (refl, passes, install_suffix_sanitize-IsLongest cs)
  | inr fails ↦ rw fails fails
]
