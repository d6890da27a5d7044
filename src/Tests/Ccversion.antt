-- ===== src/Tests/Ccversion.antt =====
-- The version of a compiler at concrete macros.
use coreland_c_string.Base.{◌≡◌, refl, arith, ◌||◌, strcmp_eq, lit, decimal, if◌then◌else◌}
use coreland_c_string.Sysdeps.Ccversion.{Macros, blocks, holds, version_line, print_version}
use coreland_c_string.Sysdeps.Ccversion.Schemes.{intel, IsLast}
use coreland_c_string.Sysdeps.Ccversion.Decoded.{print_version-decodes}

-- An Intel compiler of version 11.1.2, which also claims to be a GNU compiler of version 4.0.
abbrev icc : Macros
icc = record {
  defined = λ m. strcmp_eq m (lit "__GNUC__") || strcmp_eq m (lit "__INTEL_COMPILER");
  value = λ m. if strcmp_eq m (lit "__INTEL_COMPILER") then 1112 else 4;
}

icc-IsLast : IsLast icc intel
unfolding blocks holds strcmp_eq lit
icc-IsLast = record { own = refl; none_later = refl }

print_version-decodes_example : print_version icc ≡ version_line 11 1 2
unfolding strcmp_eq lit
print_version-decodes_example =
    print_version-decodes icc intel 11 1 2 icc-IsLast (omega arith)
      (omega arith, omega arith, omega arith)

line : version_line 11 1 2 ≡ lit "11.1.2\n"
unfolding version_line decimal lit
line = refl
