-- ===== src/Sysdeps/Cpuidx86/Detect.antt =====
-- What sd-cpuidx86.c finds out about a processor, and what it prints.
use coreland_c_string.Base.{
  ℕ, suc, ◌+◌, ◌≤◌, ◌%◌, leb, ◌==◌, ==_iff, Bool-cases, ◌≡◌, refl, ap, ◌∙◌, subst, inl, inr, Bool,
  true, false, ◌||◌, Option, none, some, List, [], ◌∷◌, if◌then◌else◌, arith,
}
use coreland_c_string.Sysdeps.Cpuidx86.{
  select_vendor, cpu_detect_vendor, intel_flags, cpu_vendor_intel, cpu_vendor_amd, amd_info, amd_l1,
  amd_l2, cache_sizes, vendor_specific, common_features, max_params, detect, store, store_l1i,
  store_l1d, store_l2, store_l3, ◌>>=◌,
}
use coreland_c_string.Sysdeps.Cpuidx86.State.{
  CpuInfo, Machine, initial, id_processor_info, id_get_ext_info, id_l1_cache_tlb, id_l2_cache,
}
use coreland_c_string.Sysdeps.Cpuidx86.Caches.{
  id_cache_tlb_info, Cpuid, id_get_max_ext_param, cpu_cache_size,
}
use coreland_c_string.Sysdeps.Cpuidx86.Search.{find_first, listed, IsTable, cpu_cache_size-Finds}
use coreland_c_string.Sysdeps.Cpuidx86.Tables.{
  CacheDescription, intel_l1i_caches, intel_l1d_caches, intel_l2_caches, intel_l3_caches, vendors,
  vendor_amd, vendor_intel,
}

unfoldable has_end : List CacheDescription → Bool
has_end [] = false
has_end (c ∷ rest) = c.val == 0 || has_end rest

has_end-IsTable : (t : List CacheDescription) → has_end t ≡ true → IsTable t
unfolding has_end
has_end-IsTable [] h = cc
has_end-IsTable (c ∷ rest) h = elim (Bool-cases (c.val == 0)) [
  | inl last ↦ inl ((==_iff c.val 0).0 last)
  | inr more ↦ inr (has_end-IsTable rest (subst (λ b. (b || has_end rest) ≡ true) more h))
]

intel_l1i_caches-IsTable : IsTable intel_l1i_caches
unfolding has_end
intel_l1i_caches-IsTable = has_end-IsTable intel_l1i_caches refl

intel_l1d_caches-IsTable : IsTable intel_l1d_caches
unfolding has_end
intel_l1d_caches-IsTable = has_end-IsTable intel_l1d_caches refl

intel_l2_caches-IsTable : IsTable intel_l2_caches
unfolding has_end
intel_l2_caches-IsTable = has_end-IsTable intel_l2_caches refl

intel_l3_caches-IsTable : IsTable intel_l3_caches
unfolding has_end
intel_l3_caches-IsTable = has_end-IsTable intel_l3_caches refl

-- A step of the detection returns, with these flags and at most so many calls.
abbrev pub Yields : Option Machine → ℕ → ℕ → Type 0
Yields o flags most = (m : Machine) × (o ≡ some m) × (m.cpu.flags ≡ flags) × (m.calls ≤ most)

store-Yields :
    (into : Option CacheDescription → CpuInfo → CpuInfo) (cpuid : Cpuid) (t : List CacheDescription)
    (m : Machine)
    → IsTable t
    → ((found : Option CacheDescription) → (into found m.cpu).flags ≡ m.cpu.flags)
    → Yields (store into m (cpu_cache_size cpuid t m.calls)) m.cpu.flags (m.calls + 256)
store-Yields into cpuid t m h keeps =
    let (calls, same, few) = cpu_cache_size-Finds cpuid t m.calls h in
    let found =
      find_first t (listed cpuid ((cpuid m.calls id_cache_tlb_info).eax % 256) (suc m.calls)) in
    (record m { cpu = into found m.cpu; calls = calls }, ap (store into m) same, keeps found, few)

bind-Yields :
    (o : Option Machine) (f : Machine → Option Machine) (flags most most' : ℕ)
    → Yields o flags most
    → ((m : Machine) → m.calls ≤ most → Yields (f m) m.cpu.flags most')
    → Yields (o >>= f) flags most'
bind-Yields o f flags most most' (m, same, kept, few) after =
    let (m', same', kept', few') = after m few in
    (m', ap (λ x. x >>= f) same ∙ same', kept' ∙ kept, few')

weaken :
    (o : Option Machine) (flags most most' : ℕ)
    → most ≤ most'
    → Yields o flags most
    → Yields o flags most'
weaken o flags most most' h (m, same, kept, few) = (m, same, kept, omega arith)

l1i-flags :
    (found : Option CacheDescription) (cpu : CpuInfo) → (store_l1i found cpu).flags ≡ cpu.flags
l1i-flags none cpu = refl
l1i-flags (some c) cpu = refl

l1d-flags :
    (found : Option CacheDescription) (cpu : CpuInfo) → (store_l1d found cpu).flags ≡ cpu.flags
l1d-flags none cpu = refl
l1d-flags (some c) cpu = refl

l2-flags :
    (found : Option CacheDescription) (cpu : CpuInfo) → (store_l2 found cpu).flags ≡ cpu.flags
l2-flags none cpu = refl
l2-flags (some c) cpu = refl

l3-flags :
    (found : Option CacheDescription) (cpu : CpuInfo) → (store_l3 found cpu).flags ≡ cpu.flags
l3-flags none cpu = refl
l3-flags (some c) cpu = refl

cache_sizes-Yields :
    (cpuid : Cpuid) (m : Machine) → Yields (cache_sizes cpuid m) m.cpu.flags (m.calls + 1024)
cache_sizes-Yields cpuid m =
    bind-Yields _ _ _ _ _
      (store-Yields store_l1i cpuid intel_l1i_caches m intel_l1i_caches-IsTable
        (λ f. l1i-flags f m.cpu))
      (λ m1 few1.
        bind-Yields _ _ _ _ _
          (store-Yields store_l1d cpuid intel_l1d_caches m1 intel_l1d_caches-IsTable
            (λ f. l1d-flags f m1.cpu))
          (λ m2 few2.
            bind-Yields _ _ _ _ _
              (store-Yields store_l2 cpuid intel_l2_caches m2 intel_l2_caches-IsTable
                (λ f. l2-flags f m2.cpu))
              (λ m3 few3. weaken _ _ _ _ (omega arith) (
                store-Yields store_l3 cpuid intel_l3_caches m3 intel_l3_caches-IsTable
                  (λ f. l3-flags f m3.cpu)))))

cpu_vendor_intel-Yields :
    (cpuid : Cpuid) (m : Machine)
    → Yields
        (cpu_vendor_intel cpuid m)
        (intel_flags (cpuid m.calls id_processor_info) m.cpu.flags)
        (m.calls + 1025)
unfolding cpu_vendor_intel
cpu_vendor_intel-Yields cpuid m = weaken _ _ _ _ (omega arith) (cache_sizes-Yields cpuid _)

amd_l1_keeps :
    (cpuid : Cpuid) (m : Machine)
    → ((amd_l1 cpuid m).cpu.flags ≡ m.cpu.flags) × (amd_l1 cpuid m).calls ≤ suc m.calls
amd_l1_keeps cpuid m = elim (Bool-cases (leb id_l1_cache_tlb m.cpu.max_extended_param)) [
  | inl read ↦ rw read (refl, omega arith)
  | inr old ↦ rw old (refl, omega arith)
]

amd_l2_keeps :
    (cpuid : Cpuid) (m : Machine)
    → ((amd_l2 cpuid m).cpu.flags ≡ m.cpu.flags) × (amd_l2 cpuid m).calls ≤ suc m.calls
amd_l2_keeps cpuid m = elim (Bool-cases (leb id_l2_cache m.cpu.max_extended_param)) [
  | inl read ↦ rw read (refl, omega arith)
  | inr old ↦ rw old (refl, omega arith)
]

cpu_vendor_amd-Yields :
    (cpuid : Cpuid) (m : Machine) → Yields (some (cpu_vendor_amd cpuid m)) m.cpu.flags (m.calls + 3)
unfolding cpu_vendor_amd
cpu_vendor_amd-Yields cpuid m =
    let (same1, few1) = amd_l1_keeps cpuid (amd_info cpuid m) in
    let (same2, few2) = amd_l2_keeps cpuid (amd_l1 cpuid (amd_info cpuid m)) in
    (cpu_vendor_amd cpuid m, refl, same2 ∙ same1, omega arith)

-- The flags of the vendor's own part.
abbrev pub vendor_flags : Cpuid → Machine → ℕ
vendor_flags cpuid m =
    if m.cpu.vendor == vendor_amd
    then m.cpu.flags
    else if m.cpu.vendor == vendor_intel
    then intel_flags (cpuid m.calls id_processor_info) m.cpu.flags
    else m.cpu.flags

pub vendor_specific-Yields :
    (cpuid : Cpuid) (m : Machine)
    → Yields (vendor_specific cpuid m) (vendor_flags cpuid m) (m.calls + 1025)
vendor_specific-Yields cpuid m = elim (Bool-cases (m.cpu.vendor == vendor_amd)) [
  | inl amd ↦ rw amd (weaken _ _ _ _ (omega arith) (cpu_vendor_amd-Yields cpuid m))
  | inr not_amd ↦ elim (Bool-cases (m.cpu.vendor == vendor_intel)) [
    | inl intel ↦ rw (not_amd, intel) (cpu_vendor_intel-Yields cpuid m)
    | inr other ↦ rw (not_amd, other) (m, refl, refl, omega arith)
  ]
]

common_features-calls :
    (cpuid : Cpuid) (m : Machine) → (common_features cpuid m).calls ≤ m.calls + 2
common_features-calls cpuid m =
    elim (Bool-cases (leb id_get_ext_info (cpuid m.calls id_get_max_ext_param).eax)) [
      | inl extended ↦ rw extended (omega arith)
      | inr basic ↦ rw basic (omega arith)
    ]

two_more : (calls before : ℕ) → calls ≤ before + 2 → before ≤ 1029 → calls ≤ 1031
two_more calls before h h' = omega arith

-- The machine that has asked for the maxima and the vendor.
abbrev pub vendor_known : Cpuid → Machine
vendor_known cpuid = cpu_detect_vendor cpuid (max_params cpuid initial)

-- Whatever the instruction answers, the detection comes to its end: no search leaves its table,
-- and at most 1031 instructions are executed.
pub detect_returns : (cpuid : Cpuid) → (m : Machine) × (detect cpuid ≡ some m) × (m.calls ≤ 1031)
unfolding detect cpu_detect_vendor
detect_returns cpuid =
    let (m, same, _, few) = vendor_specific-Yields cpuid (vendor_known cpuid) in
    (
      common_features cpuid m,
      ap (λ x. x >>= λ m. some (common_features cpuid m)) same,
      two_more (common_features cpuid m).calls m.calls (common_features-calls cpuid m) few,
    )

-- The vendor table knows one Intel.
pub select_vendor-intel :
    (ebx : ℕ) → (select_vendor vendors ebx 0 == vendor_intel) ≡ (ebx == 0x756e6547)
unfolding select_vendor
select_vendor-intel ebx = ground arith

pub select_vendor-amd :
    (ebx : ℕ) → (select_vendor vendors ebx 0 == vendor_amd) ≡ (ebx == 0x68747541)
unfolding select_vendor
select_vendor-amd ebx = ground arith
