-- ===== src/Sysdeps/Cpuidx86/Flags.antt =====
-- The flags of sd-cpuidx86.c as a set: each bit is set by the registers that name it.
use coreland_c_string.Base.{
  ℕ, ◌<◌, bit_and, ◌==◌, Bool-cases, ◌≡◌, refl, ap, ◌∙◌, inl, inr, Bool, false, ◌&&◌, ◌||◌, List,
  [], ◌∷◌,
}
use coreland_c_string.Base.Bits.{has_bit, elem, or_false, or_assoc, IsBit, or-has_bit, or-lt}
use coreland_c_string.Sysdeps.Cpuidx86.{flag_if, intel_flags, common_flags}
use coreland_c_string.Sysdeps.Cpuidx86.Caches.{Registers}
use coreland_c_string.Sysdeps.Cpuidx86.Tables.{
  ext_mmx, ext_mmx2, ext_3dnow, ext_3dnowext, ext_sse, ext_sse2, ext_sse3, ext_sse4_1, ext_sse4_2,
}

-- A register, a bit of it, and the flag that it sets.
pub record Source : Type 0 where
  pub reg : ℕ
  pub mask : ℕ
  pub bit : ℕ

abbrev source : ℕ → ℕ → ℕ → Source
source reg mask bit = record { reg = reg; mask = mask; bit = bit }

abbrev pub intel_sources : Registers → List Source
intel_sources r =
    source r.edx 0x00800000 ext_mmx
    ∷ source r.edx 0x02000000 ext_mmx2
    ∷ source r.edx 0x02000000 ext_sse
    ∷ source r.edx 0x04000000 ext_sse2
    ∷ source r.ecx 0x00000001 ext_sse3
    ∷ source r.ecx 0x00080000 ext_sse4_1
    ∷ source r.ecx 0x00100000 ext_sse4_2
    ∷ []

abbrev pub common_sources : Registers → List Source
common_sources r =
    source r.edx 0x00800000 ext_mmx
    ∷ source r.edx 0x00400000 ext_mmx2
    ∷ source r.edx 0x80000000 ext_3dnow
    ∷ source r.edx 0x40000000 ext_3dnowext
    ∷ []

-- Some source of the bit is set.
unfoldable pub any_sets : List Source → ℕ → Bool
any_sets [] b = false
any_sets (s ∷ rest) b = (has_bit s.reg s.mask && s.bit == b) || any_sets rest b

unfoldable set_all : List Source → ℕ → ℕ
set_all [] flags = flags
set_all (s ∷ rest) flags = set_all rest (flag_if s.reg s.mask s.bit flags)

abbrev AreBits : List Source → Type 0
AreBits [] = Unit
AreBits (s ∷ rest) = IsBit s.bit × AreBits rest

flag_if-has :
    (reg mask bit b flags : ℕ)
    → IsBit bit
    → IsBit b
    → flags < 512
    → has_bit (flag_if reg mask bit flags) b ≡ (has_bit flags b || (has_bit reg mask && bit == b))
unfolding flag_if
flag_if-has reg mask bit b flags is_bit is_b small = elim (Bool-cases (bit_and reg mask == 0)) [
  | inl clear ↦ rw clear (or_false (has_bit flags b))
  | inr set ↦ rw set (or-has_bit bit b flags is_bit is_b small)
]

flag_if-lt : (reg mask bit flags : ℕ) → IsBit bit → flags < 512 → flag_if reg mask bit flags < 512
unfolding flag_if
flag_if-lt reg mask bit flags is_bit small = elim (Bool-cases (bit_and reg mask == 0)) [
  | inl clear ↦ rw clear small
  | inr set ↦ rw set (or-lt bit flags is_bit small)
]

-- After all the sources a bit is set if it was, or if one of them sets it.
set_all-has_bit :
    (sources : List Source) (b flags : ℕ)
    → AreBits sources
    → IsBit b
    → flags < 512
    → (has_bit (set_all sources flags) b ≡ (has_bit flags b || any_sets sources b))
      × set_all sources flags < 512
unfolding set_all any_sets
set_all-has_bit [] b flags all is_b small = (or_false (has_bit flags b), small)
set_all-has_bit (s ∷ rest) b flags all is_b small =
    let next = flag_if s.reg s.mask s.bit flags in
    let (same, less) =
      set_all-has_bit rest b next all.1 is_b (flag_if-lt s.reg s.mask s.bit flags all.0 small) in
    (
      same
          ∙ ap (λ x. x || any_sets rest b) (flag_if-has s.reg s.mask s.bit b flags all.0 is_b small)
          ∙ or_assoc (has_bit flags b) (has_bit s.reg s.mask && s.bit == b) (any_sets rest b),
      less,
    )

pub intel_flags-has_bit :
    (r : Registers) (b flags : ℕ)
    → IsBit b
    → flags < 512
    → (has_bit (intel_flags r flags) b ≡ (has_bit flags b || any_sets (intel_sources r) b))
      × intel_flags r flags < 512
unfolding intel_flags set_all elem
intel_flags-has_bit r b flags is_b small =
    set_all-has_bit (intel_sources r) b flags
      (refl, (refl, (refl, (refl, (refl, (refl, (refl, tt))))))) is_b small

pub common_flags-has_bit :
    (r : Registers) (b flags : ℕ)
    → IsBit b
    → flags < 512
    → (has_bit (common_flags r flags) b ≡ (has_bit flags b || any_sets (common_sources r) b))
      × common_flags r flags < 512
unfolding common_flags set_all elem
common_flags-has_bit r b flags is_b small =
    set_all-has_bit (common_sources r) b flags (refl, (refl, (refl, (refl, tt)))) is_b small
