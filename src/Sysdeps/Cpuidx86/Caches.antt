-- ===== src/Sysdeps/Cpuidx86/Caches.antt =====
-- How sd-cpuidx86.c looks for the descriptors of caches that the processor lists.
use coreland_c_string.Base.{
  ℕ, zero, suc, ◌/◌, ◌%◌, ◌^◌, bit_and, ◌==◌, Option, none, some, List, [], ◌∷◌, if◌then◌else◌,
}
use coreland_c_string.Sysdeps.Cpuidx86.Tables.{CacheDescription}

-- The four registers that the CPUID instruction sets.
pub record Registers : Type 0 where
  pub eax : ℕ
  pub ebx : ℕ
  pub ecx : ℕ
  pub edx : ℕ

-- The instruction: what the registers are after the call of this number, for a value of EAX.
abbrev pub Cpuid : Type 0
Cpuid = ℕ → ℕ → Registers

-- `CPU_ID_CACHE_TLB_INFO` and `CPU_ID_GET_MAX_EXT_PARAM`
abbrev pub id_cache_tlb_info : ℕ
id_cache_tlb_info = 0x00000002

abbrev pub id_get_max_ext_param : ℕ
id_get_max_ext_param = 0x80000000

-- The walk over a table up to the row whose `val` is zero: the row found, if one is; nothing at
-- all for a walk that leaves the table.
unfoldable pub search_list : List CacheDescription → ℕ → Option (Option CacheDescription)
search_list [] id = none
search_list (c ∷ rest) id =
    if c.val == 0 then some none else if c.val == id then some (some c) else search_list rest id

-- `cpu_check_cache_list`, which hands back the row whose size and line it stores.
unfoldable pub cpu_check_cache_list : List CacheDescription → ℕ → Option (Option CacheDescription)
unfolding search_list
cpu_check_cache_list cache_list zero = some none
cpu_check_cache_list cache_list (suc id) = search_list cache_list (suc id)

-- `if (...) return 1;`: the rest runs where nothing was found.
abbrev pub or_next :
    Option (Option CacheDescription)
    → Option (Option CacheDescription)
    → Option (Option CacheDescription)
or_next none rest = none
or_next (some none) rest = rest
or_next (some (some c)) rest = some (some c)

-- `cpu_check_cache_list_by_register`
unfoldable pub cpu_check_cache_list_by_register :
    List CacheDescription → ℕ → Option (Option CacheDescription)
unfolding cpu_check_cache_list
cpu_check_cache_list_by_register cache_list reg_value =
    or_next (cpu_check_cache_list cache_list (reg_value / 2 ^ 24 % 256)) (
      or_next (cpu_check_cache_list cache_list (reg_value / 2 ^ 16 % 256)) (
        or_next (cpu_check_cache_list cache_list (reg_value / 2 ^ 8 % 256))
          (cpu_check_cache_list cache_list (reg_value % 256))))

-- A register whose top bit is set lists nothing.
abbrev pub valid : ℕ → ℕ
valid reg = if bit_and reg id_get_max_ext_param == 0 then reg else 0

-- One round of the loop: the four registers in turn.
unfoldable pub check_registers :
    List CacheDescription → Registers → Option (Option CacheDescription)
unfolding cpu_check_cache_list_by_register
check_registers ctab r = or_next (cpu_check_cache_list_by_register ctab (valid r.eax)) (
    or_next (cpu_check_cache_list_by_register ctab (valid r.ebx)) (
      or_next (cpu_check_cache_list_by_register ctab (valid r.ecx))
        (cpu_check_cache_list_by_register ctab (valid r.edx))))

-- What a search comes to: the row, if one was found, and the number of calls so far.
abbrev pub Searched : Type 0
Searched = Option (Option CacheDescription × ℕ)

abbrev pub after_round : Option (Option CacheDescription) → ℕ → Searched → Searched
after_round none calls rest = none
after_round (some none) calls rest = rest
after_round (some (some c)) calls rest = some (some c, calls)

-- The loop, for the rounds that are left.
unfoldable pub cache_rounds : Cpuid → List CacheDescription → ℕ → ℕ → Searched
unfolding check_registers
cache_rounds cpuid ctab zero calls = some (none, calls)
cache_rounds cpuid ctab (suc n) calls =
    let rest = cache_rounds cpuid ctab n (suc calls) in
    after_round (check_registers ctab (cpuid calls id_cache_tlb_info)) (suc calls) rest

-- `cpu_cache_size`, for a table that is there.
unfoldable pub cpu_cache_size : Cpuid → List CacheDescription → ℕ → Searched
unfolding cache_rounds
cpu_cache_size cpuid ctab calls =
    let max = (cpuid calls id_cache_tlb_info).eax % 256 in cache_rounds cpuid ctab max (suc calls)
