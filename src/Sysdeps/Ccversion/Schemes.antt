-- ===== src/Sysdeps/Ccversion/Schemes.antt =====
-- How compilers put their version into one number, as sd-ccversion.c takes it apart.
use coreland_c_string.Base.{
  ℕ, ◌+◌, ◌*◌, ◌<◌, ◌≡◌, Bool, true, false, ◌||◌, List, [], ◌∷◌, Bytes, lit, drop,
}
use coreland_c_string.Sysdeps.Ccversion.{Macros, Block, blocks, holds}

-- A way to write three numbers as one.
pub data Scheme : Type 0 where
  -- major * a + minor * b + patch
  digits : ℕ → ℕ → Scheme
  -- major * a + minor, with no patch
  two : ℕ → Scheme
  -- as `digits`, but the lowest part is not the patch, which there is none of
  low_lost : ℕ → ℕ → Scheme
  -- VVMMTPPPP: the digit T, the kind of release, stands between minor and patch
  vvmmtpppp : Scheme
  -- 0xVVMPPRRR: the three lowest digits are not in the version
  vvmpprrr : Scheme

-- The number codes the version, each part within its place.
abbrev pub Codes : Scheme → ℕ → ℕ → ℕ → ℕ → Type 0
Codes (digits a b) major minor patch n =
    (n ≡ major * a + minor * b + patch) × (minor * b + patch < a) × (patch < b)
Codes (two a) major minor patch n = (n ≡ major * a + minor) × (minor < a) × (patch ≡ 0)
Codes (low_lost a b) major minor patch n =
    (low : ℕ) × (n ≡ major * a + minor * b + low) × (minor * b + low < a) × (low < b) × (patch ≡ 0)
Codes vvmmtpppp major minor patch n =
    (kind : ℕ) × (n ≡ major * 10000000 + minor * 100000 + kind * 10000 + patch)
    × (minor < 100)
    × (kind < 10)
    × (patch < 10000)
Codes vvmpprrr major minor patch n =
    (rest : ℕ) × (n ≡ major * 0x1000000 + minor * 0x100000 + patch * 0x1000 + rest)
    × (minor < 0x10)
    × (patch < 0x100)
    × (rest < 0x1000)

-- The compilers of sd-ccversion.c that put their version into one number.
pub data Compiler : Type 0 where
  borland comeau compaq_c compaq_cxx digital_mars edg green_hills hp_acc ibm_xl_c ibm_c ibm_cxx :
      Compiler
  iar intel kai keil_carm keil_c166 keil_c51 codewarrior mipspro mipspro_again mpw palm_c pelles :
      Compiler
  small_device sun_c sun_cxx systems_c watcom : Compiler

-- The macro that holds the number.
abbrev pub version_macro : Compiler → Bytes
version_macro borland = lit "__BORLANDC__"
version_macro comeau = lit "__COMO_VERSION__"
version_macro compaq_c = lit "__DECC_VER"
version_macro compaq_cxx = lit "__DECCXX_VER"
version_macro digital_mars = lit "__DMC__"
version_macro edg = lit "__EDG_VERSION__"
version_macro green_hills = lit "__GHS_VERSION_NUMBER__"
version_macro hp_acc = lit "__HP_aCC"
version_macro ibm_xl_c = lit "__xlC__"
version_macro ibm_c = lit "__IBMC__"
version_macro ibm_cxx = lit "__IBMCPP__"
version_macro iar = lit "__VER__"
version_macro intel = lit "__INTEL_COMPILER"
version_macro kai = lit "__KCC_VERSION"
version_macro keil_carm = lit "__CA__"
version_macro keil_c166 = lit "__C166__"
version_macro keil_c51 = lit "__C51__"
version_macro codewarrior = lit "__MWERKS__"
version_macro mipspro = lit "_SGI_COMPILER_VERSION"
version_macro mipspro_again = lit "_COMPILER_VERSION"
version_macro mpw = lit "__MRC__"
version_macro palm_c = lit "_PACC_VER"
version_macro pelles = lit "__POCC__"
version_macro small_device = lit "SDCC"
version_macro sun_c = lit "__SUNPRO_C"
version_macro sun_cxx = lit "__SUNPRO_CC"
version_macro systems_c = lit "__SYSC_VER__"
version_macro watcom = lit "__WATCOMC__"

abbrev pub scheme : Compiler → Scheme
scheme borland = digits 0x100 0x10
scheme comeau = digits 100 10
scheme compaq_c = vvmmtpppp
scheme compaq_cxx = vvmmtpppp
scheme digital_mars = digits 0x100 0x10
scheme edg = digits 100 10
scheme green_hills = digits 100 10
scheme hp_acc = digits 10000 100
scheme ibm_xl_c = digits 0x100 0x10
scheme ibm_c = digits 100 10
scheme ibm_cxx = digits 100 10
scheme iar = two 100
scheme intel = digits 100 10
scheme kai = digits 0x1000 0x100
scheme keil_carm = two 100
scheme keil_c166 = two 100
scheme keil_c51 = two 100
scheme codewarrior = digits 0x1000 0x100
scheme mipspro = digits 100 10
scheme mipspro_again = digits 100 10
scheme mpw = low_lost 0x100 0x10
scheme palm_c = vvmpprrr
scheme pelles = digits 100 10
scheme small_device = digits 100 10
scheme sun_c = digits 0x100 0x10
scheme sun_cxx = digits 0x100 0x10
scheme systems_c = digits 10000 1000
scheme watcom = low_lost 100 10

-- The place of the compiler's block in `main`, counted from 0.
abbrev pub place : Compiler → ℕ
place borland = 0
place comeau = 1
place compaq_c = 2
place compaq_cxx = 3
place digital_mars = 5
place edg = 8
place green_hills = 10
place hp_acc = 11
place ibm_xl_c = 12
place ibm_c = 13
place ibm_cxx = 14
place iar = 15
place intel = 16
place kai = 17
place keil_carm = 18
place keil_c166 = 19
place keil_c51 = 20
place codewarrior = 21
place mipspro = 23
place mipspro_again = 24
place mpw = 25
place palm_c = 26
place pelles = 27
place small_device = 29
place sun_c = 30
place sun_cxx = 31
place systems_c = 32
place watcom = 34

abbrev pub first_condition : List Block → List (List Bytes)
first_condition [] = [] ∷ []
first_condition (b ∷ rest) = b.condition

-- The blocks from the compiler's own one on.
abbrev pub from_own : Compiler → List Block
from_own c = drop (place c) blocks

abbrev pub any_holds : Macros → List Block → Bool
any_holds macros [] = false
any_holds macros (b ∷ rest) = holds macros b.condition || any_holds macros rest

-- The compiler's block is compiled, and no later one is.
pub record IsLast (macros : Macros) (c : Compiler) : Type 0 where
  pub own : holds macros (first_condition (from_own c)) ≡ true
  pub none_later : any_holds macros (drop 1 (from_own c)) ≡ false
