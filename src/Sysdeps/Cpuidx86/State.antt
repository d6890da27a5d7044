-- ===== src/Sysdeps/Cpuidx86/State.antt =====
-- What sd-cpuidx86.c knows of the processor, and the CPUID instruction.
use coreland_c_string.Base.{ℕ, suc}
use coreland_c_string.Sysdeps.Cpuidx86.Caches.{Registers, Cpuid}

-- `struct cpu_info`
pub record CpuInfo : Type 0 where
  pub number : ℕ
  pub vendor : ℕ
  pub ext_family : ℕ
  pub family : ℕ
  pub model : ℕ
  pub ext_model : ℕ
  pub step : ℕ
  pub type : ℕ
  pub brand : ℕ
  pub cache_l1_instruction : ℕ
  pub cache_l1_data : ℕ
  pub cache_l2 : ℕ
  pub cache_l3 : ℕ
  pub cacheline : ℕ
  pub flags : ℕ
  pub eflags : ℕ
  pub bflags : ℕ
  pub freq : ℕ
  pub max_basic_param : ℕ
  pub max_extended_param : ℕ
  pub max_alt_extended_param : ℕ

-- The static variables, which start at zero, and the number of CPUID instructions so far. What
-- goes to the standard error stream is not kept.
pub record Machine : Type 0 where
  pub cpu : CpuInfo
  pub regs : Registers
  pub calls : ℕ

abbrev no_cpu : CpuInfo
no_cpu = record {
  number = 0;
  vendor = 0;
  ext_family = 0;
  family = 0;
  model = 0;
  ext_model = 0;
  step = 0;
  type = 0;
  brand = 0;
  cache_l1_instruction = 0;
  cache_l1_data = 0;
  cache_l2 = 0;
  cache_l3 = 0;
  cacheline = 0;
  flags = 0;
  eflags = 0;
  bflags = 0;
  freq = 0;
  max_basic_param = 0;
  max_extended_param = 0;
  max_alt_extended_param = 0;
}

abbrev pub initial : Machine
initial = record { cpu = no_cpu; regs = record { eax = 0; ebx = 0; ecx = 0; edx = 0 }; calls = 0 }

-- `cpuid (val, &eax, &ebx, &ecx, &edx)`
abbrev pub exec_cpuid : Cpuid → ℕ → Machine → Machine
exec_cpuid cpuid val m = record m { regs = cpuid m.calls val; calls = suc m.calls }

-- `CPU_ID_VENDOR_ID`, which is `CPU_ID_GET_MAX_BASIC_PARAM`, and the other values of EAX
abbrev pub id_vendor_id : ℕ
id_vendor_id = 0x00000000

abbrev pub id_processor_info : ℕ
id_processor_info = 0x00000001

abbrev pub id_get_max_ext_alt_param : ℕ
id_get_max_ext_alt_param = 0xc0000000

abbrev pub id_get_ext_info : ℕ
id_get_ext_info = 0x80000001

abbrev pub id_l1_cache_tlb : ℕ
id_l1_cache_tlb = 0x80000005

abbrev pub id_l2_cache : ℕ
id_l2_cache = 0x80000006
