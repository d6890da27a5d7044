-- ===== src/Sysdeps/Cpuidx86/Report.antt =====
-- What sd-cpuidx86.c prints for the name of a feature.
use coreland_c_string.Base.{
  ℕ, ◌<◌, bit_and, leb, ◌==◌, ==_iff, Bool-cases, ◌≡◌, refl, sym, ap, ◌∙◌, subst, inl, inr, Bool,
  true, false, not, ◌&&◌, ◌||◌, Option, none, some, List, [], ◌∷◌, Bytes, lit, strcmp_eq,
  if◌then◌else◌, arith,
}
use coreland_c_string.Sysdeps.Cpuidx86.{
  select_vendor, cpu_detect_vendor, intel_flags, common_features, detect, cpu_check_features,
  features_or_size, answer, main, ◌>>=◌,
}
use coreland_c_string.Sysdeps.Cpuidx86.State.{Machine, id_processor_info, id_get_ext_info}
use coreland_c_string.Sysdeps.Cpuidx86.Caches.{Registers, Cpuid, id_get_max_ext_param}
use coreland_c_string.Sysdeps.Cpuidx86.Detect.{
  vendor_flags, vendor_known, vendor_specific-Yields, select_vendor-intel,
}
use coreland_c_string.Sysdeps.Cpuidx86.Flags.{
  any_sets, intel_sources, common_sources, intel_flags-has_bit, common_flags-has_bit,
}
use coreland_c_string.Base.Bits.{has_bit, has_none, or_false, elem, nine_bits, IsBit}
use coreland_c_string.Sysdeps.Cpuidx86.Tables.{Feature, vendors, features, vendor_amd, vendor_intel}

-- A processor that answers each value of EAX in one way.
abbrev pub steady : (ℕ → Registers) → Cpuid
steady regs calls val = regs val

-- "Genu" in EBX
abbrev is_intel : (ℕ → Registers) → Bool
is_intel regs = (regs 0).ebx == 0x756e6547

-- Whether a processor is to be reported as having a feature: one of Intel by its processor
-- information, each one by its extended information, if it has that.
abbrev pub reported : (ℕ → Registers) → ℕ → Bool
reported regs bit =
    (is_intel regs && any_sets (intel_sources (regs id_processor_info)) bit)
    || (leb id_get_ext_info (regs id_get_max_ext_param).eax
        && any_sets (common_sources (regs id_get_ext_info)) bit)

-- The bit of a feature's name.
unfoldable pub feature_bit : List Feature → Bytes → Option ℕ
feature_bit [] name = none
feature_bit (f ∷ rest) name = if strcmp_eq f.name name then some f.bit else feature_bit rest name

unfoldable all_ext : List Feature → Bool
all_ext [] = true
all_ext (f ∷ rest) = elem f.bit nine_bits && all_ext rest

-- The line for a known feature.
abbrev pub yes_no : Bool → Bytes
yes_no b = if b then lit "1\n" else lit "0\n"

one_vendor :
    {A : Type 0} (v : ℕ) (x y : A)
    → (if v == vendor_amd then y else if v == vendor_intel then x else y)
      ≡ (if v == vendor_intel then x else y)
one_vendor v x y = elim (Bool-cases (v == vendor_amd)) [
  | inl amd ↦ rw ((==_iff v vendor_amd).0 amd) refl
  | inr not_amd ↦ rw not_amd refl
]

vendor_flags-has_bit :
    (regs : ℕ → Registers) (b : ℕ)
    → IsBit b
    → (has_bit (vendor_flags (steady regs) (vendor_known (steady regs))) b
        ≡ (is_intel regs && any_sets (intel_sources (regs id_processor_info)) b))
      × vendor_flags (steady regs) (vendor_known (steady regs)) < 512
unfolding cpu_detect_vendor
vendor_flags-has_bit regs b is_b =
    let flags = intel_flags (regs id_processor_info) 0 in
    let (same, small) = intel_flags-has_bit (regs id_processor_info) b 0 is_b (omega arith) in
    rw (one_vendor (select_vendor vendors (regs 0).ebx 0) flags 0, select_vendor-intel (regs 0).ebx)
      (elim (Bool-cases (is_intel regs)) [
        | inl intel ↦ rw intel (
          same
              ∙ ap (λ x. x || any_sets (intel_sources (regs id_processor_info)) b)
                  (has_none b is_b),
          small,
        )
        | inr other ↦ rw other (has_none b is_b, omega arith)
      ])

common_features-has_bit :
    (regs : ℕ → Registers) (m : Machine) (b : ℕ)
    → IsBit b
    → m.cpu.flags < 512
    → has_bit (common_features (steady regs) m).cpu.flags b ≡ (
        has_bit m.cpu.flags b
        || (leb id_get_ext_info (regs id_get_max_ext_param).eax
            && any_sets (common_sources (regs id_get_ext_info)) b))
common_features-has_bit regs m b is_b small =
    elim (Bool-cases (leb id_get_ext_info (regs id_get_max_ext_param).eax)) [
      | inl extended ↦
          rw extended (common_flags-has_bit (regs id_get_ext_info) b m.cpu.flags is_b small).0
      | inr basic ↦ rw basic (or_false (has_bit m.cpu.flags b))
    ]

abbrev line_for : ℕ → Option ℕ → Option Bytes
line_for flags none = none
line_for flags (some bit) = some (yes_no (has_bit flags bit))

yes_no-not : (c : Bool) → some (if c then lit "0\n" else lit "1\n") ≡ some (yes_no (not c))
yes_no-not true = refl
yes_no-not false = refl

check-feature_bit :
    (fs : List Feature) (flags : ℕ) (name : Bytes)
    → cpu_check_features fs flags name ≡ line_for flags (feature_bit fs name)
unfolding cpu_check_features feature_bit
check-feature_bit [] flags name = refl
check-feature_bit (f ∷ rest) flags name = elim (Bool-cases (strcmp_eq f.name name)) [
  | inl same ↦ rw same (yes_no-not (bit_and flags f.bit == 0))
  | inr other ↦ rw other (check-feature_bit rest flags name)
]

bit_or_one : Option ℕ → ℕ
bit_or_one none = 1
bit_or_one (some bit) = bit

and_both : (a b : Bool) → (a && b) ≡ true → (a ≡ true) × (b ≡ true)
and_both true true h = (refl, refl)
and_both true false h = cc
and_both false b h = cc

feature_bit-IsBit :
    (fs : List Feature) (name : Bytes)
    → all_ext fs ≡ true
    → IsBit (bit_or_one (feature_bit fs name))
unfolding all_ext feature_bit elem bit_or_one
feature_bit-IsBit [] name all = refl
feature_bit-IsBit (f ∷ rest) name all = elim (Bool-cases (strcmp_eq f.name name)) [
  | inl same ↦ rw same (and_both (elem f.bit nine_bits) (all_ext rest) all).0
  | inr other ↦
      rw other (feature_bit-IsBit rest name (and_both (elem f.bit nine_bits) (all_ext rest) all).1)
]

-- A processor that answers each value of EAX in one way is reported as having a known feature
-- exactly if one of the bits for it is set: of the processor information for one of Intel, and
-- of the extended information for each one that has that. The exit code is zero.
pub feature-reported :
    (regs : ℕ → Registers) (name : Bytes) (arguments : List Bytes) (bit : ℕ)
    → feature_bit features name ≡ some bit
    → main true (steady regs) (name ∷ arguments) ≡ some (yes_no (reported regs bit), 0)
unfolding main detect answer all_ext elem bit_or_one
feature-reported regs name arguments bit h =
    let is_ext : IsBit bit =
      subst (λ o. IsBit (bit_or_one o)) h (feature_bit-IsBit features name refl) in
    let (m, same, kept, _) = vendor_specific-Yields (steady regs) (vendor_known (steady regs)) in
    let (by_vendor, small) = vendor_flags-has_bit regs bit is_ext in
    let all =
      common_features-has_bit regs m bit is_ext (subst (λ flags. flags < 512) (sym kept) small) in
    let found = common_features (steady regs) m in
    let line = check-feature_bit features found.cpu.flags name ∙ ap (line_for found.cpu.flags) h in
    let extended =
      leb id_get_ext_info (regs id_get_max_ext_param).eax
      && any_sets (common_sources (regs id_get_ext_info)) bit in
    let value = all ∙ ap (λ x. x || extended) (ap (λ flags. has_bit flags bit) kept ∙ by_vendor) in
    ap (λ o. o >>= (λ m. some (common_features (steady regs) m)) >>= λ m. some (answer m.cpu name))
      same
    ∙ ap (λ o. some (features_or_size found.cpu name o)) (line ∙ ap (λ c. some (yes_no c)) value)
