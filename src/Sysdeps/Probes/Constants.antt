-- ===== src/Sysdeps/Probes/Constants.antt =====
-- The constants of sd-sysinfo.h that the probes name.
use coreland_c_string.Base.{ℕ, List, [], ◌∷◌, Bytes, lit}

-- `#define name value`
pub record Constant : Type 0 where
  pub name : Bytes
  pub value : ℕ

abbrev define : Bytes → ℕ → Constant
define name value = record { name = name; value = value }

abbrev pub sysinfo_os : List Constant
sysinfo_os =
    define (lit "SD_SYSINFO_OS_UNKNOWN") 0x0000
    ∷ define (lit "SD_SYSINFO_OS_AIX") 0x0001
    ∷ define (lit "SD_SYSINFO_OS_AMIGAOS") 0x0002
    ∷ define (lit "SD_SYSINFO_OS_BEOS") 0x0003
    ∷ define (lit "SD_SYSINFO_OS_BSD_OS") 0x0004
    ∷ define (lit "SD_SYSINFO_OS_CRAY_UNICOS") 0x0005
    ∷ define (lit "SD_SYSINFO_OS_DARWIN") 0x0006
    ∷ define (lit "SD_SYSINFO_OS_DG_UX") 0x0007
    ∷ define (lit "SD_SYSINFO_OS_DRAGONFLY") 0x0008
    ∷ define (lit "SD_SYSINFO_OS_DYNIX_PTX") 0x0009
    ∷ define (lit "SD_SYSINFO_OS_FREEBSD") 0x000a
    ∷ define (lit "SD_SYSINFO_OS_GNU_HURD") 0x000b
    ∷ define (lit "SD_SYSINFO_OS_HAIKU") 0x000c
    ∷ define (lit "SD_SYSINFO_OS_HI_UX_MPP") 0x000d
    ∷ define (lit "SD_SYSINFO_OS_HPUX") 0x000e
    ∷ define (lit "SD_SYSINFO_OS_IRIX") 0x000f
    ∷ define (lit "SD_SYSINFO_OS_LINUX") 0x0010
    ∷ define (lit "SD_SYSINFO_OS_LYNXOS") 0x0011
    ∷ define (lit "SD_SYSINFO_OS_MACOS") 0x0012
    ∷ define (lit "SD_SYSINFO_OS_MICROWARE_OS_9") 0x0013
    ∷ define (lit "SD_SYSINFO_OS_MINIX") 0x0014
    ∷ define (lit "SD_SYSINFO_OS_MPE_IX") 0x0015
    ∷ define (lit "SD_SYSINFO_OS_MSDOS") 0x0016
    ∷ define (lit "SD_SYSINFO_OS_MS_WINDOWS") 0x0017
    ∷ define (lit "SD_SYSINFO_OS_NETBSD") 0x0018
    ∷ define (lit "SD_SYSINFO_OS_OPENBSD") 0x0019
    ∷ define (lit "SD_SYSINFO_OS_OS2") 0x001a
    ∷ define (lit "SD_SYSINFO_OS_PYRAMID_DC_OS") 0x001b
    ∷ define (lit "SD_SYSINFO_OS_QNX") 0x001c
    ∷ define (lit "SD_SYSINFO_OS_RELIANT_UNIX") 0x001d
    ∷ define (lit "SD_SYSINFO_OS_SCO_OPENSERVER") 0x001e
    ∷ define (lit "SD_SYSINFO_OS_SUNOS") 0x001f
    ∷ define (lit "SD_SYSINFO_OS_SYMBIAN_OS") 0x0020
    ∷ define (lit "SD_SYSINFO_OS_TRU64_OSF_1") 0x0021
    ∷ define (lit "SD_SYSINFO_OS_ULTRIX") 0x0022
    ∷ define (lit "SD_SYSINFO_OS_UNIXWARE") 0x0023
    ∷ define (lit "SD_SYSINFO_OS_VMS") 0x0024
    ∷ define (lit "SD_SYSINFO_OS_Z_OS_OS390") 0x0025
    ∷ []

abbrev pub sysinfo_arch : List Constant
sysinfo_arch =
    define (lit "SD_SYSINFO_ARCH_UNKNOWN") 0x0000
    ∷ define (lit "SD_SYSINFO_ARCH_ALPHA") 0x0001
    ∷ define (lit "SD_SYSINFO_ARCH_ARM") 0x0002
    ∷ define (lit "SD_SYSINFO_ARCH_CRAY") 0x0003
    ∷ define (lit "SD_SYSINFO_ARCH_CRAY_2") 0x0004
    ∷ define (lit "SD_SYSINFO_ARCH_CRAY_X_MP") 0x0005
    ∷ define (lit "SD_SYSINFO_ARCH_IA64") 0x0006
    ∷ define (lit "SD_SYSINFO_ARCH_M68K") 0x0007
    ∷ define (lit "SD_SYSINFO_ARCH_MIPS") 0x0008
    ∷ define (lit "SD_SYSINFO_ARCH_PARISC") 0x0009
    ∷ define (lit "SD_SYSINFO_ARCH_PPC") 0x000a
    ∷ define (lit "SD_SYSINFO_ARCH_PPC64") 0x000b
    ∷ define (lit "SD_SYSINFO_ARCH_RS6000") 0x000c
    ∷ define (lit "SD_SYSINFO_ARCH_SPARC") 0x000d
    ∷ define (lit "SD_SYSINFO_ARCH_SUPERH") 0x000e
    ∷ define (lit "SD_SYSINFO_ARCH_SYSTEM_370") 0x000f
    ∷ define (lit "SD_SYSINFO_ARCH_SYSTEM_390") 0x0010
    ∷ define (lit "SD_SYSINFO_ARCH_X86") 0x0011
    ∷ define (lit "SD_SYSINFO_ARCH_X86_64") 0x0012
    ∷ define (lit "SD_SYSINFO_ARCH_Z_ARCHITECTURE") 0x0013
    ∷ []

abbrev pub sysinfo_cc_type : List Constant
sysinfo_cc_type =
    define (lit "SD_SYSINFO_CC_TYPE_UNKNOWN") 0x0000
    ∷ define (lit "SD_SYSINFO_CC_TYPE_AMSTERDAM_KIT") 0x0001
    ∷ define (lit "SD_SYSINFO_CC_TYPE_BORLAND_CXX") 0x0002
    ∷ define (lit "SD_SYSINFO_CC_TYPE_BORLAND_TURBO_C") 0x0003
    ∷ define (lit "SD_SYSINFO_CC_TYPE_CODEWARRIOR") 0x0004
    ∷ define (lit "SD_SYSINFO_CC_TYPE_COMEAU_CXX") 0x0005
    ∷ define (lit "SD_SYSINFO_CC_TYPE_COMPAQ_C") 0x0006
    ∷ define (lit "SD_SYSINFO_CC_TYPE_COMPAQ_CXX") 0x0007
    ∷ define (lit "SD_SYSINFO_CC_TYPE_CRAY_C") 0x0008
    ∷ define (lit "SD_SYSINFO_CC_TYPE_DIAB") 0x0009
    ∷ define (lit "SD_SYSINFO_CC_TYPE_DIGITAL_MARS") 0x000a
    ∷ define (lit "SD_SYSINFO_CC_TYPE_DJGPP") 0x000b
    ∷ define (lit "SD_SYSINFO_CC_TYPE_EKOPATH") 0x000c
    ∷ define (lit "SD_SYSINFO_CC_TYPE_GCC") 0x000d
    ∷ define (lit "SD_SYSINFO_CC_TYPE_GREENHILL") 0x000e
    ∷ define (lit "SD_SYSINFO_CC_TYPE_HP_ACC") 0x000f
    ∷ define (lit "SD_SYSINFO_CC_TYPE_HP_C") 0x0010
    ∷ define (lit "SD_SYSINFO_CC_TYPE_IAR") 0x0011
    ∷ define (lit "SD_SYSINFO_CC_TYPE_IBM_XL") 0x0012
    ∷ define (lit "SD_SYSINFO_CC_TYPE_INTEL") 0x0013
    ∷ define (lit "SD_SYSINFO_CC_TYPE_KAI") 0x0014
    ∷ define (lit "SD_SYSINFO_CC_TYPE_KEIL_C166") 0x0015
    ∷ define (lit "SD_SYSINFO_CC_TYPE_KEIL_C51") 0x0016
    ∷ define (lit "SD_SYSINFO_CC_TYPE_KEIL_CARM") 0x0017
    ∷ define (lit "SD_SYSINFO_CC_TYPE_LCC") 0x0018
    ∷ define (lit "SD_SYSINFO_CC_TYPE_LLVM") 0x0019
    ∷ define (lit "SD_SYSINFO_CC_TYPE_METAWARE") 0x001a
    ∷ define (lit "SD_SYSINFO_CC_TYPE_MICROTEC") 0x001b
    ∷ define (lit "SD_SYSINFO_CC_TYPE_MINGW32") 0x001c
    ∷ define (lit "SD_SYSINFO_CC_TYPE_MIPSPRO") 0x001d
    ∷ define (lit "SD_SYSINFO_CC_TYPE_MPW") 0x001e
    ∷ define (lit "SD_SYSINFO_CC_TYPE_NORCROFT") 0x001f
    ∷ define (lit "SD_SYSINFO_CC_TYPE_PACIFIC") 0x0020
    ∷ define (lit "SD_SYSINFO_CC_TYPE_PALM") 0x0021
    ∷ define (lit "SD_SYSINFO_CC_TYPE_PCC") 0x0022
    ∷ define (lit "SD_SYSINFO_CC_TYPE_PELLES") 0x0023
    ∷ define (lit "SD_SYSINFO_CC_TYPE_PORTLAND") 0x0024
    ∷ define (lit "SD_SYSINFO_CC_TYPE_REALVIEW") 0x0025
    ∷ define (lit "SD_SYSINFO_CC_TYPE_SAS") 0x0026
    ∷ define (lit "SD_SYSINFO_CC_TYPE_SCO") 0x0027
    ∷ define (lit "SD_SYSINFO_CC_TYPE_SMALLDEV") 0x0028
    ∷ define (lit "SD_SYSINFO_CC_TYPE_SUN_C") 0x0029
    ∷ define (lit "SD_SYSINFO_CC_TYPE_SUN_CXX") 0x002a
    ∷ define (lit "SD_SYSINFO_CC_TYPE_SYSTEMS") 0x002b
    ∷ define (lit "SD_SYSINFO_CC_TYPE_TENDRA") 0x002c
    ∷ define (lit "SD_SYSINFO_CC_TYPE_TINYC") 0x002d
    ∷ define (lit "SD_SYSINFO_CC_TYPE_ULTIMATE") 0x002e
    ∷ define (lit "SD_SYSINFO_CC_TYPE_USL_C") 0x002f
    ∷ define (lit "SD_SYSINFO_CC_TYPE_VISUAL_CXX") 0x0030
    ∷ define (lit "SD_SYSINFO_CC_TYPE_WATCOM") 0x0031
    ∷ []
