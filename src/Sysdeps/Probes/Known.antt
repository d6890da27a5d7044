-- ===== src/Sysdeps/Probes/Known.antt =====
-- Each line that sd-os.c, sd-arch.c and sd-cctype.c can print names a constant of sd-sysinfo.h.
use coreland_c_string.Base.{
  ◌≡◌, refl, sym, Bool, true, false, ◌&&◌, List, [], ◌∷◌, ◌++◌, append_assoc, Bytes, lit, strcmp_eq,
  if◌then◌else◌,
}
use coreland_c_string.Sysdeps.Probes.{
  Probe, any_defined, assign, os_probes, arch_probes, cc_type_probes, print_os, print_arch,
  print_cc_type,
}
use coreland_c_string.Sysdeps.Probes.Constants.{Constant, sysinfo_os, sysinfo_arch, sysinfo_cc_type}

-- The name is that of a constant.
unfoldable pub is_constant : List Constant → Bytes → Bool
is_constant [] name = false
is_constant (c ∷ rest) name = if strcmp_eq c.name name then true else is_constant rest name

-- Each probe of a list assigns a name that makes a constant.
unfoldable all_constants : List Constant → Bytes → List Probe → Bool
all_constants constants prefix [] = true
all_constants constants prefix (p ∷ rest) =
    is_constant constants (prefix ++ p.name) && all_constants constants prefix rest

and_both : (a b : Bool) → (a && b) ≡ true → (a ≡ true) × (b ≡ true)
and_both true true h = (refl, refl)
and_both true false h = cc
and_both false b h = cc

either : (P : Bytes → Type 0) (b : Bool) (x y : Bytes) → P x → P y → P (if b then x else y)
either P true x y h h' = h
either P false x y h h' = h'

assign-constant :
    (constants : List Constant) (prefix : Bytes) (defined : Bytes → Bool) (probes : List Probe)
    (var : Bytes)
    → all_constants constants prefix probes ≡ true
    → is_constant constants (prefix ++ var) ≡ true
    → is_constant constants (prefix ++ assign defined probes var) ≡ true
unfolding all_constants assign
assign-constant constants prefix defined [] var all known = known
assign-constant constants prefix defined (p ∷ rest) var all known =
    let (this, others) =
      and_both (is_constant constants (prefix ++ p.name)) (all_constants constants prefix rest)
        all in
    assign-constant constants prefix defined rest
      (if any_defined defined p.macros then p.name else var) others
      (either (λ name. is_constant constants (prefix ++ name) ≡ true) (any_defined defined p.macros)
        p.name var this known)

-- A line that names a constant, and its end.
abbrev pub Names : List Constant → Bytes → Type 0
Names constants line =
    (name : Bytes) × (line ≡ name ++ lit "\n") × (is_constant constants name ≡ true)

os_known : all_constants sysinfo_os (lit "SD_SYSINFO_OS_") os_probes ≡ true
unfolding all_constants is_constant strcmp_eq lit
os_known = refl

arch_known : all_constants sysinfo_arch (lit "SD_SYSINFO_ARCH_") arch_probes ≡ true
unfolding all_constants is_constant strcmp_eq lit
arch_known = refl

cc_type_known : all_constants sysinfo_cc_type (lit "SD_SYSINFO_CC_TYPE_") cc_type_probes ≡ true
unfolding all_constants is_constant strcmp_eq lit
cc_type_known = refl

-- Whatever macros are defined, the lines that the three programs print are the names of
-- constants of sd-sysinfo.h: of a system, of a processor and of a compiler.
pub print-Names :
    (defined : Bytes → Bool)
    → Names sysinfo_os (print_os defined)
      × Names sysinfo_arch (print_arch defined)
      × Names sysinfo_cc_type (print_cc_type defined)
unfolding print_os print_arch print_cc_type is_constant strcmp_eq lit
print-Names defined =
    let os = assign defined os_probes (lit "UNKNOWN") in
    let arch = assign defined arch_probes (lit "UNKNOWN") in
    let cc_type = assign defined cc_type_probes (lit "UNKNOWN") in
    (
      (
        lit "SD_SYSINFO_OS_" ++ os,
        sym (append_assoc (lit "SD_SYSINFO_OS_") os (lit "\n")),
        assign-constant sysinfo_os (lit "SD_SYSINFO_OS_") defined os_probes (lit "UNKNOWN") os_known
            refl,
      ),
      (
        lit "SD_SYSINFO_ARCH_" ++ arch,
        sym (append_assoc (lit "SD_SYSINFO_ARCH_") arch (lit "\n")),
        assign-constant sysinfo_arch (lit "SD_SYSINFO_ARCH_") defined arch_probes (lit "UNKNOWN")
            arch_known refl,
      ),
      (
        lit "SD_SYSINFO_CC_TYPE_" ++ cc_type,
        sym (append_assoc (lit "SD_SYSINFO_CC_TYPE_") cc_type (lit "\n")),
        assign-constant sysinfo_cc_type (lit "SD_SYSINFO_CC_TYPE_") defined cc_type_probes
            (lit "UNKNOWN") cc_type_known refl,
      ),
    )
