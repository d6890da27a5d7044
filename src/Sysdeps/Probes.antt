-- ===== src/Sysdeps/Probes.antt =====
-- sd-os.c, sd-arch.c and sd-cctype.c: which system, processor and compiler the macros tell of.
pub mod Constants
pub mod Known
use coreland_c_string.Base.{Bool, true, false, List, [], ◌∷◌, ◌++◌, Bytes, lit, if◌then◌else◌}

-- `#if defined (m) || …`, and the name that is assigned
pub record Probe : Type 0 where
  pub macros : List Bytes
  pub name : Bytes

abbrev probe : List Bytes → Bytes → Probe
probe macros name = record { macros = macros; name = name }

-- What the preprocessor decides.
unfoldable pub any_defined : (Bytes → Bool) → List Bytes → Bool
any_defined defined [] = false
any_defined defined (m ∷ rest) = if defined m then true else any_defined defined rest

-- The assignments to `var`, one after the other.
unfoldable pub assign : (Bytes → Bool) → List Probe → Bytes → Bytes
unfolding any_defined
assign defined [] var = var
assign defined (p ∷ rest) var =
    assign defined rest (if any_defined defined p.macros then p.name else var)

abbrev pub os_probes : List Probe
os_probes =
    probe (lit "___TOS_AIX__" ∷ []) (lit "AIX")
    ∷ probe (lit "AMIGA" ∷ lit "__amigaos__" ∷ []) (lit "AMIGAOS")
    ∷ probe (lit "__BEOS__" ∷ []) (lit "BEOS")
    ∷ probe (lit "__bsdi__" ∷ []) (lit "BSD_OS")
    ∷ probe (lit "_UNICOS" ∷ []) (lit "CRAY_UNICOS")
    ∷ probe (lit "__APPLE__" ∷ lit "__MACH__" ∷ []) (lit "DARWIN")
    ∷ probe (lit "DGUX" ∷ lit "__DGUX__" ∷ lit "__dgux__" ∷ []) (lit "DG_UX")
    ∷ probe (lit "__DragonFly__" ∷ []) (lit "DRAGONFLY")
    ∷ probe (lit "_SEQUENT_" ∷ lit "sequent" ∷ []) (lit "DYNIX_PTX")
    ∷ probe (lit "__FreeBSD__" ∷ []) (lit "FREEBSD")
    ∷ probe (lit "__GNU__" ∷ []) (lit "GNU_HURD")
    ∷ probe (lit "__HAIKU__" ∷ []) (lit "HAIKU")
    ∷ probe (lit "__hiuxmpp" ∷ []) (lit "HI_UX_MPP")
    ∷ probe (lit "_hpux" ∷ lit "hpux" ∷ lit "__hpux" ∷ []) (lit "HPUX")
    ∷ probe (lit "sgi" ∷ lit "__sgi" ∷ []) (lit "IRIX")
    ∷ probe (lit "linux" ∷ lit "__linux" ∷ []) (lit "LINUX")
    ∷ probe (lit "__Lynx__" ∷ []) (lit "LYNXOS")
    ∷ probe (lit "macintosh" ∷ lit "Macintosh" ∷ []) (lit "MACOS")
    ∷ probe (lit "__OS9000" ∷ lit "_OSK" ∷ []) (lit "MICROWARE_OS_9")
    ∷ probe (lit "__minix" ∷ []) (lit "MINIX")
    ∷ probe (lit "mpeix" ∷ lit "__mpexl" ∷ []) (lit "MPE_IX")
    ∷ probe (lit "__MSDOS__" ∷ lit "___DOS__" ∷ []) (lit "MSDOS")
    ∷ probe
        (lit "_WIN32" ∷ lit "_WIN64" ∷ lit "__WIN32__" ∷ lit "__WIN64__" ∷ lit "__TOS_WIN__" ∷ [])
        (lit "MS_WINDOWS")
    ∷ probe (lit "__NetBSD__" ∷ []) (lit "NETBSD")
    ∷ probe (lit "__OpenBSD__" ∷ []) (lit "OPENBSD")
    ∷ probe (lit "___OS2__" ∷ lit "__TOS_OS2__" ∷ []) (lit "OS2")
    ∷ probe (lit "pyr" ∷ []) (lit "PYRAMID_DC_OS")
    ∷ probe (lit "__QNX__" ∷ lit "__QNXNTO__" ∷ []) (lit "QNX")
    ∷ probe (lit "sinux" ∷ []) (lit "RELIANT_UNIX")
    ∷ probe (lit "M_XENIX" ∷ lit "_SCO_DS" ∷ []) (lit "SCO_OPENSERVER")
    ∷ probe (lit "sun" ∷ lit "__sun" ∷ []) (lit "SUNOS")
    ∷ probe (lit "__SYMBIAN32__" ∷ []) (lit "SYMBIAN_OS")
    ∷ probe (lit "__osf__" ∷ lit "__osf" ∷ []) (lit "TRU64_OSF_1")
    ∷ probe (lit "ultrix" ∷ lit "__ultrix" ∷ lit "__ultrix__" ∷ []) (lit "ULTRIX")
    ∷ probe (lit "sco" ∷ lit "_UNIXWARE7" ∷ []) (lit "UNIXWARE")
    ∷ probe (lit "____VMS_VER" ∷ []) (lit "VMS")
    ∷ probe (lit "__MVS__" ∷ lit "__HOS_MVS__" ∷ lit "__TOS_MVS__" ∷ []) (lit "Z_OS_OS390")
    ∷ []

abbrev pub arch_probes : List Probe
arch_probes =
    probe (lit "__alpha__" ∷ lit "__alpha" ∷ lit "_M_ALPHA" ∷ []) (lit "ALPHA")
    ∷ probe (lit "__arm__" ∷ lit "__thumb__" ∷ lit "__TARGET_ARCH___TARGET_ARCH_THUMB" ∷ [])
        (lit "ARM")
    ∷ probe (lit "_CRAY" ∷ []) (lit "CRAY")
    ∷ probe (lit "_CRAY2" ∷ []) (lit "CRAY_2")
    ∷ probe (lit "_CRAY1" ∷ []) (lit "CRAY_X_MP")
    ∷ probe (lit "__ia64" ∷ lit "__ia64__" ∷ lit "___IA64__" ∷ lit "_M_IA64" ∷ []) (lit "IA64")
    ∷ probe (lit "__m68k__" ∷ lit "M68000" ∷ []) (lit "M68K")
    ∷ probe
        (lit "__mips__"
          ∷ lit "_MIPS_ISA"
          ∷ lit "_R3000"
          ∷ lit "_R4000"
          ∷ lit "__mips"
          ∷ lit "__MIPS__"
          ∷ [])
        (lit "MIPS")
    ∷ probe (lit "__hppa__" ∷ lit "__hppa" ∷ []) (lit "PARISC")
    ∷ probe
        (lit "__powerpc"
          ∷ lit "__powerpc__"
          ∷ lit "__POWERPC__"
          ∷ lit "__ppc__"
          ∷ lit "_M__ARCH_PPC"
          ∷ [])
        (lit "PPC")
    ∷ probe
        (lit "__powerpc64"
          ∷ lit "__powerpc64__"
          ∷ lit "__POWERPC64__"
          ∷ lit "__ppc64__"
          ∷ lit "_ARCH_PPC64"
          ∷ [])
        (lit "PPC64")
    ∷ probe (lit "__THW__IBMR2" ∷ lit "_POWER" ∷ lit "_ARCH_PWR" ∷ lit "_ARCH_PWR2" ∷ [])
        (lit "RS6000")
    ∷ probe (lit "__sparc__" ∷ lit "__sparc" ∷ lit "__sparcv8" ∷ lit "__sparcv9" ∷ []) (lit "SPARC")
    ∷ probe
        (lit "__sh__"
          ∷ lit "__sh1__"
          ∷ lit "__sh2__"
          ∷ lit "__sh3__"
          ∷ lit "__SH3__"
          ∷ lit "__SH4__"
          ∷ lit "__SH5__"
          ∷ [])
        (lit "SUPERH")
    ∷ probe (lit "__370__" ∷ lit "__THW_370__" ∷ []) (lit "SYSTEM_370")
    ∷ probe (lit "__s390__" ∷ lit "__s390x__" ∷ []) (lit "SYSTEM_390")
    ∷ probe
        (lit "__i386__"
          ∷ lit "__i386__"
          ∷ lit "__i486__"
          ∷ lit "__i586__"
          ∷ lit "__i686__"
          ∷ lit "__i386"
          ∷ lit "_M_I_X86_"
          ∷ lit "__THW_INTEL__"
          ∷ lit "__I86__"
          ∷ lit "__INTEL__"
          ∷ [])
        (lit "X86")
    ∷ probe (lit "__amd64__" ∷ lit "__amd64" ∷ lit "__x86_64__" ∷ lit "__x86_64" ∷ [])
        (lit "X86_64")
    ∷ probe (lit "__SYSC_ZARCH__" ∷ []) (lit "Z_ARCHITECTURE")
    ∷ []

abbrev pub cc_type_probes : List Probe
cc_type_probes =
    probe (lit "__ACK__" ∷ []) (lit "AMSTERDAM_KIT")
    ∷ probe (lit "__BORLANDC__" ∷ []) (lit "BORLAND_CXX")
    ∷ probe (lit "__TURBOC__" ∷ []) (lit "BORLAND_TURBO_C")
    ∷ probe (lit "__MWERKS__" ∷ []) (lit "CODEWARRIOR")
    ∷ probe (lit "__COMO__" ∷ []) (lit "COMEAU_CXX")
    ∷ probe (lit "__DECC" ∷ lit "__VAXC" ∷ lit "VAXC" ∷ []) (lit "COMPAQ_C")
    ∷ probe (lit "__DECCXX" ∷ lit "__VAXC" ∷ lit "VAXC" ∷ []) (lit "COMPAQ_CXX")
    ∷ probe (lit "_CRAYC" ∷ []) (lit "CRAY_C")
    ∷ probe (lit "__DCC__" ∷ []) (lit "DIAB")
    ∷ probe (lit "__DMC__" ∷ lit "__SC__" ∷ lit "__ZTC__" ∷ []) (lit "DIGITAL_MARS")
    ∷ probe (lit "__DJGPP__" ∷ lit "__GO32__" ∷ []) (lit "DJGPP")
    ∷ probe (lit "__PATHCC__" ∷ []) (lit "EKOPATH")
    ∷ probe (lit "__GNUC__" ∷ []) (lit "GCC")
    ∷ probe (lit "__ghs__" ∷ []) (lit "GREENHILL")
    ∷ probe (lit "__HP_aCC" ∷ []) (lit "HP_ACC")
    ∷ probe (lit "__HP_cc" ∷ []) (lit "HP_C")
    ∷ probe (lit "__IAR_SYSTEMS_ICC__" ∷ []) (lit "IAR")
    ∷ probe (lit "__xlC__" ∷ lit "__IBMC__" ∷ lit "__IBMCPP__" ∷ []) (lit "IBM_XL")
    ∷ probe (lit "__INTEL_COMPILER" ∷ lit "__ICC" ∷ lit "__ECC" ∷ lit "__ICL" ∷ []) (lit "INTEL")
    ∷ probe (lit "__KCC" ∷ []) (lit "KAI")
    ∷ probe (lit "__C166__" ∷ []) (lit "KEIL_C166")
    ∷ probe (lit "__C51__" ∷ lit "__CX51__" ∷ []) (lit "KEIL_C51")
    ∷ probe (lit "__CA__" ∷ lit "__KEIL__" ∷ []) (lit "KEIL_CARM")
    ∷ probe (lit "__LCC__" ∷ []) (lit "LCC")
    ∷ probe (lit "__llvm__" ∷ []) (lit "LLVM")
    ∷ probe (lit "__HIGHC__" ∷ []) (lit "METAWARE")
    ∷ probe (lit "_MRI" ∷ []) (lit "MICROTEC")
    ∷ probe (lit "__MINGW32__" ∷ []) (lit "MINGW32")
    ∷ probe (lit "__sgi" ∷ lit "sgi" ∷ []) (lit "MIPSPRO")
    ∷ probe (lit "__MRC__" ∷ lit "MPW_C" ∷ lit "MPW_CPLUS" ∷ []) (lit "MPW")
    ∷ probe (lit "__CC_NORCROFT" ∷ []) (lit "NORCROFT")
    ∷ probe (lit "__PACIFIC__" ∷ []) (lit "PACIFIC")
    ∷ probe (lit "_PACC_VER" ∷ []) (lit "PALM")
    ∷ probe (lit "__PCC__" ∷ []) (lit "PCC")
    ∷ probe (lit "__POCC__" ∷ []) (lit "PELLES")
    ∷ probe (lit "__PGI" ∷ []) (lit "PORTLAND")
    ∷ probe (lit "__CC_ARM" ∷ []) (lit "REALVIEW")
    ∷ probe (lit "SASC" ∷ lit "__SASC" ∷ lit "__SASC__" ∷ []) (lit "SAS")
    ∷ probe (lit "_SCO_DS" ∷ []) (lit "SCO")
    ∷ probe (lit "SDCC" ∷ []) (lit "SMALLDEV")
    ∷ probe (lit "__SUNPRO_C" ∷ []) (lit "SUN_C")
    ∷ probe (lit "__SUNPRO_CC" ∷ []) (lit "SUN_CXX")
    ∷ probe (lit "__SYSC__" ∷ []) (lit "SYSTEMS")
    ∷ probe (lit "__TenDRA__" ∷ []) (lit "TENDRA")
    ∷ probe (lit "__TINYC__" ∷ []) (lit "TINYC")
    ∷ probe (lit "_UCC" ∷ []) (lit "ULTIMATE")
    ∷ probe (lit "__USLC__" ∷ []) (lit "USL_C")
    ∷ probe (lit "_MSC_VER" ∷ []) (lit "VISUAL_CXX")
    ∷ probe (lit "__WATCOMC__" ∷ []) (lit "WATCOM")
    ∷ []

-- What `main` of sd-os.c prints, for the macros that are defined.
unfoldable pub print_os : (Bytes → Bool) → Bytes
unfolding assign
print_os defined = lit "SD_SYSINFO_OS_" ++ (assign defined os_probes (lit "UNKNOWN") ++ lit "\n")

-- What `main` of sd-arch.c prints, for the macros that are defined.
unfoldable pub print_arch : (Bytes → Bool) → Bytes
unfolding assign
print_arch defined =
    lit "SD_SYSINFO_ARCH_" ++ (assign defined arch_probes (lit "UNKNOWN") ++ lit "\n")

-- What `main` of sd-cctype.c prints, for the macros that are defined.
unfoldable pub print_cc_type : (Bytes → Bool) → Bytes
unfolding assign
print_cc_type defined =
    lit "SD_SYSINFO_CC_TYPE_" ++ (assign defined cc_type_probes (lit "UNKNOWN") ++ lit "\n")
