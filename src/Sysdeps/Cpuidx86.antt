-- ===== src/Sysdeps/Cpuidx86.antt =====
-- sd-cpuidx86.c: what the CPUID instruction tells of an x86 processor.
pub mod Tables
pub mod Caches
pub mod State
pub mod Report
pub mod Detect
pub mod Flags
pub mod Search
use coreland_c_string.Base.{
  ℕ, zero, suc, ◌+◌, ◌*◌, ◌/◌, ◌%◌, ◌^◌, bit_and, bit_or, ◌==◌, leb, Bool, true, false, Option,
  none, some, List, [], ◌∷◌, ◌++◌, Bytes, lit, length, strcmp_eq, decimal, if◌then◌else◌,
}
use coreland_c_string.Sysdeps.Cpuidx86.Caches.{
  Registers, Cpuid, id_get_max_ext_param, Searched, cpu_cache_size,
}
use coreland_c_string.Sysdeps.Cpuidx86.State.{
  CpuInfo, Machine, initial, exec_cpuid, id_vendor_id, id_processor_info, id_get_max_ext_alt_param,
  id_get_ext_info, id_l1_cache_tlb, id_l2_cache,
}
use coreland_c_string.Sysdeps.Cpuidx86.Tables.{
  CacheDescription, VendorDescription, Feature, intel_l1i_caches, intel_l1d_caches, intel_l2_caches,
  intel_l3_caches, vendors, features, vendor_unknown, vendor_amd, vendor_intel, ext_mmx, ext_mmx2,
  ext_3dnow, ext_3dnowext, ext_sse, ext_sse2, ext_sse3, ext_sse4_1, ext_sse4_2,
}

-- The loop of `cpu_detect_vendor`, which goes on after a match.
unfoldable pub select_vendor : List VendorDescription → ℕ → ℕ → ℕ
select_vendor [] ebx vendor = vendor
select_vendor (v ∷ rest) ebx vendor =
    select_vendor rest ebx (if ebx == v.id then v.vendor else vendor)

unfoldable pub cpu_detect_vendor : Cpuid → Machine → Machine
unfolding select_vendor
cpu_detect_vendor cpuid m =
    let m = exec_cpuid cpuid id_vendor_id m in
    record m { cpu = record m.cpu { vendor = select_vendor vendors m.regs.ebx m.cpu.vendor } }

-- `if (reg & mask) cpu.flags |= bit;`
unfoldable pub flag_if : ℕ → ℕ → ℕ → ℕ → ℕ
flag_if reg mask bit flags = if bit_and reg mask == 0 then flags else bit_or flags bit

-- The flags that `cpu_vendor_intel` adds.
unfoldable pub intel_flags : Registers → ℕ → ℕ
unfolding flag_if
intel_flags r flags =
    let flags = flag_if r.edx 0x00800000 ext_mmx flags in
    let flags = flag_if r.edx 0x02000000 ext_mmx2 flags in
    let flags = flag_if r.edx 0x02000000 ext_sse flags in
    let flags = flag_if r.edx 0x04000000 ext_sse2 flags in
    let flags = flag_if r.ecx 0x00000001 ext_sse3 flags in
    let flags = flag_if r.ecx 0x00080000 ext_sse4_1 flags in
    flag_if r.ecx 0x00100000 ext_sse4_2 flags

-- What a search stores through its two pointers: a size, and the line.
abbrev store_l1i : Option CacheDescription → CpuInfo → CpuInfo
store_l1i none cpu = cpu
store_l1i (some c) cpu = record cpu { cache_l1_instruction = c.size; cacheline = c.line }

abbrev store_l1d : Option CacheDescription → CpuInfo → CpuInfo
store_l1d none cpu = cpu
store_l1d (some c) cpu = record cpu { cache_l1_data = c.size; cacheline = c.line }

abbrev store_l2 : Option CacheDescription → CpuInfo → CpuInfo
store_l2 none cpu = cpu
store_l2 (some c) cpu = record cpu { cache_l2 = c.size; cacheline = c.line }

abbrev store_l3 : Option CacheDescription → CpuInfo → CpuInfo
store_l3 none cpu = cpu
store_l3 (some c) cpu = record cpu { cache_l3 = c.size; cacheline = c.line }

abbrev pub store :
    (Option CacheDescription → CpuInfo → CpuInfo) → Machine → Searched → Option Machine
store into m none = none
store into m (some (found, calls)) = some (record m { cpu = into found m.cpu; calls = calls })

-- What comes after a step that may leave a table.
infixl 5 ◌>>=◌
abbrev pub ◌>>=◌ : {A B : Type 0} → Option A → (A → Option B) → Option B
none >>= f = none
some a >>= f = f a

abbrev pub cache_sizes : Cpuid → Machine → Option Machine
cache_sizes cpuid m = do
  m ← store store_l1i m (cpu_cache_size cpuid intel_l1i_caches m.calls)
  m ← store store_l1d m (cpu_cache_size cpuid intel_l1d_caches m.calls)
  m ← store store_l2 m (cpu_cache_size cpuid intel_l2_caches m.calls)
  store store_l3 m (cpu_cache_size cpuid intel_l3_caches m.calls)

-- `cpu_vendor_intel`, which does not return where a search leaves its table.
unfoldable pub cpu_vendor_intel : Cpuid → Machine → Option Machine
unfolding intel_flags cpu_cache_size
cpu_vendor_intel cpuid m =
    let m = exec_cpuid cpuid id_processor_info m in
    cache_sizes cpuid (record m {
      cpu = record m.cpu {
        step = m.regs.eax % 16;
        model = m.regs.eax / 2 ^ 4 % 16;
        family = m.regs.eax / 2 ^ 8 % 16;
        type = m.regs.eax / 2 ^ 12 % 4;
        brand = m.regs.ebx % 16;
        flags = intel_flags m.regs m.cpu.flags;
      };
    })

-- `cpu_vendor_amd`, in three steps
abbrev amd_info : Cpuid → Machine → Machine
amd_info cpuid m =
    let m = exec_cpuid cpuid id_processor_info m in
    record m {
      cpu = record m.cpu {
        step = m.regs.eax % 16;
        model = m.regs.eax / 2 ^ 4 % 16;
        family = m.regs.eax / 2 ^ 8 % 16;
        ext_model = m.regs.eax / 2 ^ 16 % 256;
        ext_family = m.regs.eax / 2 ^ 20 % 16;
      };
    }

abbrev amd_l1 : Cpuid → Machine → Machine
amd_l1 cpuid m =
    let read = exec_cpuid cpuid id_l1_cache_tlb m in
    if leb id_l1_cache_tlb m.cpu.max_extended_param
    then record read {
      cpu = record read.cpu {
        cache_l1_data = read.regs.ecx / 2 ^ 24;
        cacheline = read.regs.ecx % 256;
        cache_l1_instruction = read.regs.edx / 2 ^ 24;
      };
    }
    else m

abbrev amd_l2 : Cpuid → Machine → Machine
amd_l2 cpuid m =
    let read = exec_cpuid cpuid id_l2_cache m in
    if leb id_l2_cache m.cpu.max_extended_param
    then record read { cpu = record read.cpu { cache_l2 = read.regs.ecx / 2 ^ 24 } }
    else m

unfoldable pub cpu_vendor_amd : Cpuid → Machine → Machine
cpu_vendor_amd cpuid m = amd_l2 cpuid (amd_l1 cpuid (amd_info cpuid m))

-- The vendor's own part of `main`: the `switch`.
abbrev pub vendor_specific : Cpuid → Machine → Option Machine
vendor_specific cpuid m =
    if m.cpu.vendor == vendor_amd
    then some (cpu_vendor_amd cpuid m)
    else if m.cpu.vendor == vendor_intel
    then cpu_vendor_intel cpuid m
    else some m

-- The flags of the extended information.
unfoldable pub common_flags : Registers → ℕ → ℕ
unfolding flag_if
common_flags r flags =
    let flags = flag_if r.edx 0x00800000 ext_mmx flags in
    let flags = flag_if r.edx 0x00400000 ext_mmx2 flags in
    let flags = flag_if r.edx 0x80000000 ext_3dnow flags in
    flag_if r.edx 0x40000000 ext_3dnowext flags

abbrev pub common_features : Cpuid → Machine → Machine
common_features cpuid m =
    let m = exec_cpuid cpuid id_get_max_ext_param m in
    let read = exec_cpuid cpuid id_get_ext_info m in
    if leb id_get_ext_info m.regs.eax
    then record read { cpu = record read.cpu { flags = common_flags read.regs read.cpu.flags } }
    else m

-- The first three calls of `main`.
abbrev pub max_params : Cpuid → Machine → Machine
max_params cpuid m =
    let m = exec_cpuid cpuid id_vendor_id m in
    let m = record m { cpu = record m.cpu { max_basic_param = m.regs.eax % 2 ^ 16 } } in
    let m = exec_cpuid cpuid id_get_max_ext_param m in
    let m = record m { cpu = record m.cpu { max_extended_param = m.regs.eax } } in
    let m = exec_cpuid cpuid id_get_max_ext_alt_param m in
    record m { cpu = record m.cpu { max_alt_extended_param = m.regs.eax } }

-- All that `main` asks the processor.
unfoldable pub detect : Cpuid → Option Machine
unfolding cpu_detect_vendor cpu_vendor_amd cpu_vendor_intel common_flags
detect cpuid = do
  m ← vendor_specific cpuid (cpu_detect_vendor cpuid (max_params cpuid initial))
  some (common_features cpuid m)

-- `cpu_check_features`: what it prints for a name that it knows.
unfoldable pub cpu_check_features : List Feature → ℕ → Bytes → Option Bytes
cpu_check_features [] flags name = none
cpu_check_features (f ∷ rest) flags name =
    if strcmp_eq f.name name
    then some (if bit_and flags f.bit == 0 then lit "0\n" else lit "1\n")
    else cpu_check_features rest flags name

-- What the program prints, and its exit code.
abbrev pub Output : Type 0
Output = Bytes × ℕ

-- `return !!printf (...)`, where `printf` returns the number of bytes that it has printed.
abbrev pub returns_printed : Bytes → Output
returns_printed text = (text, if length text == 0 then 0 else 1)

abbrev pub size_line : ℕ → Bytes
size_line size = decimal (size * 2 ^ 10 % 2 ^ 64) ++ lit "\n"

-- The rest of `main`, for an `unsigned long` of 64 bits.
unfoldable pub print_size : CpuInfo → Bytes → Output
print_size cpu name =
    if strcmp_eq name (lit "l1icachesize")
    then returns_printed (size_line cpu.cache_l1_instruction)
    else if strcmp_eq name (lit "l1dcachesize")
    then returns_printed (size_line cpu.cache_l1_data)
    else if strcmp_eq name (lit "l2cachesize")
    then returns_printed (size_line cpu.cache_l2)
    else if strcmp_eq name (lit "l3cachesize")
    then returns_printed (size_line cpu.cache_l3)
    else if strcmp_eq name (lit "cacheline")
    then returns_printed (decimal cpu.cacheline ++ lit "\n")
    else (lit "0\n", 0)

abbrev features_or_size : CpuInfo → Bytes → Option Bytes → Output
features_or_size cpu name (some printed) = (printed, 0)
features_or_size cpu name none = print_size cpu name

unfoldable pub answer : CpuInfo → Bytes → Output
unfolding cpu_check_features print_size
answer cpu name = features_or_size cpu name (cpu_check_features features cpu.flags name)

-- `main`, where `cpuid_check_support` says whether there is such an instruction.
unfoldable pub main : Bool → Cpuid → List Bytes → Option Output
unfolding detect answer
main supported cpuid [] = some ([], 1)
main false cpuid (name ∷ arguments) = some (lit "0\n", 0)
main true cpuid (name ∷ arguments) = do m ← detect cpuid; some (answer m.cpu name)
