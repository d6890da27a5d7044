-- ===== src/Lib.antt =====
-- A model of the installer of coreland-c_string, of the program that prints its flags, and of the
-- programs that its build runs to lock and to probe the system.
--
-- The repository installs an Ada library. Its C code has a portable core (install-core.c) that
-- runs over a table of platform callbacks (install.h); install-posix.c fills the table with system
-- calls, and install-win32.c with functions of Windows. A program walks the table of insthier.c
-- and calls for each item `install` (installer.c), `install_check` (instchk.c) or `deinstall` (deinstaller.c). Each of these first
-- translates the item's names (ntran_*) and then calls the operator of the item's kind (inst_*,
-- instchk_*, deinst_*), which copies files (install_file_copy), makes directories (install_rmkdir),
-- makes links, compares what is there (install_file_check) or removes it. c_string-conf.c is a
-- program of its own. The build runs its commands under a lock (SYSDEPS/sd-locker.c), and asks
-- small programs for the processor (sd-cpuidx86.c), the system and the compiler (sd-os.c,
-- sd-arch.c, sd-cctype.c), whose lines name constants of sd-sysinfo.h, and for the compiler's
-- version (sd-ccversion.c).
--
-- The files:
--   Base                   numbers, integers of C, lists and byte strings, snprintf;
--                          Base/Bits has the laws of words of flags
--   Install/Header         install.h: operations, statuses, items, file types, sizes
--   Install/World          the global variables of install-core.c and the form of a C function:
--                          a state, an early return, or a fault (a failed assertion, a null
--                          pointer, a write outside of a buffer, a stream used after fclose)
--   Install/World/Keeps    rules for what a function keeps
--   Install/Os             the system calls and stream functions, a parameter; Os/Stdio numbers the
--                          streams and knows which are open
--   Install/Platform       install_platform_callbacks_t of install.h
--   Install/Posix          install-posix.c
--   Install/Windows        install-win32.c: Windows/Api has the functions of Windows, a parameter,
--                          and the static variables; Windows/Sids the users and groups,
--                          Windows/Files the files
--   Install/Strings        base_name, str_same, str_ends, the loop of libname,
--                          install_suffix_sanitize
--   Install/Status         install_status_assign and the messages of install-core.c
--   Install/FileTypes      install_file_type and its lookups
--   Install/Rmkdir         install_rmkdir
--   Install/Copy           install_file_copy
--   Install/Check          install_uidgid_lookup and install_file_check
--   Install/Operators      inst_*, instchk_* and deinst_*
--   Install/Translate      libname and ntran_*
--   Install/Interface      the operator tables, install_init, install, install_check, deinstall
--   Install/Programs       installer.c, deinstaller.c, instchk.c, insthier.c
--   Conf                   c_string-conf.c; Conf/Compare is its str_diff, Conf/Asked and
--                          Conf/Printed what it prints
--   Sysdeps/Locker         sd-locker.c and sd-locker_posix.c, as a tree of system calls
--                          (Locker/Calls); Locker/Run runs any number of its processes, with
--                          `fcntl`, `fork` and `waitpid` as a step relation; Locker/Mutex is the
--                          mutual exclusion they are meant to be, Locker/Phases the order of the
--                          calls; Locker/Shell is the command line of sd-locker_win32.c, and
--                          Locker/Windows the rest of it, Locker/Moves its calls in
--                          their order
--   Sysdeps/Cpuidx86       sd-cpuidx86.c over the CPUID instruction, a parameter; Cpuidx86/Tables,
--                          Cpuidx86/State and Cpuidx86/Caches are its tables, its variables and
--                          its search
--   Sysdeps/Ccversion      sd-ccversion.c over the macros that are defined and their values, a
--                          parameter; Ccversion/Schemes says how compilers write their version
--   Sysdeps/Probes         sd-os.c, sd-arch.c, sd-cctype.c over the macros that are defined, a
--                          parameter; Probes/Constants is sd-sysinfo.h
--   Tests                  a small system, and the theorems at concrete data
-- A module below one of these holds what is proved of it (Install/Interface/DryRun,
-- Install/Copy/Whole, Install/Programs/Failed and so on), with a predicate of its own where an
-- invariant is followed through a call. Functions keep the names of the source,
-- those of sd-locker_posix.c and sd-locker_win32.c without the prefix sd_locker_.
--
-- Numbers: an `int` is an integer without bounds, since the code only passes it on and compares it;
-- `permissions_t` is an unsigned int of 32 bits, which a conversion wraps; sizes and install_failed
-- are of 64 bits. The registers of CPUID are numbers without a bound. Strings are the bytes before
-- the NUL. A Windows SID is known by its address, a null pointer by -1. A buffer's size is written
-- out where the code depends on it: snprintf cuts, memcpy into path_buf stops.
--
-- Fuel: install_rmkdir takes a byte in every round, so the length of the path and one more is
-- enough. The loops of install_file_copy take their fuel from the caller, as the source's length
-- is the system's: the outer loop needs more than the bytes left, the inner one more than the
-- buffer's size. str_diff takes a round per byte.
-- The loop of cpu_cache_size is counted by the low byte of EAX, and sd-locker has no loop.
--
-- Not modelled: the shell scripts of SYSDEPS; what sd-cpuidx86.c writes to the standard error
-- stream, and its assembler; messages that SD_LOCKER_DEBUGGING would add; the Ada sources; the unit tests; the Makefile and shell scripts.
-- The static buffers that an item's names point into are values here, so that no item can see
-- another one's names.
pub mod Base
pub mod Install
pub mod Conf
pub mod Sysdeps
pub mod Tests
