-- ===== src/Sysdeps/Cpuidx86/Search.antt =====
-- The search for cache descriptors in sd-cpuidx86.c, against a search in the list of all of them.
use coreland_c_string.Base.{
  ℕ, zero, suc, ◌+◌, ◌/◌, ◌%◌, ◌^◌, ◌≤◌, ◌==◌, Bool-cases, ◌≡◌, refl, sym, ap, ◌∙◌, ◌⊎◌, inl, inr,
  true, false, Option, none, some, List, [], ◌∷◌, ◌++◌, if◌then◌else◌, arith, Bool,
}
use coreland_c_string.Sysdeps.Cpuidx86.Caches.{
  Registers, Cpuid, id_cache_tlb_info, valid, or_next, after_round, search_list,
  cpu_check_cache_list, cpu_check_cache_list_by_register, check_registers, cache_rounds,
  cpu_cache_size, Searched,
}
use coreland_c_string.Sysdeps.Cpuidx86.Tables.{CacheDescription}

-- A table has a row whose `val` is zero.
abbrev pub IsTable : List CacheDescription → Type 0
IsTable [] = ⊥
IsTable (c ∷ rest) = (c.val ≡ 0) ⊎ IsTable rest

-- The row of a descriptor among those before the first `val` that is zero.
unfoldable pub find_row : List CacheDescription → ℕ → Option CacheDescription
find_row [] id = none
find_row (c ∷ rest) id =
    if c.val == 0 then none else if c.val == id then some c else find_row rest id

abbrev first_or : {A : Type 0} → Option A → Option A → Option A
first_or none rest = rest
first_or (some c) rest = some c

-- The first descriptor of a list that has a row.
unfoldable pub find_first : List CacheDescription → List ℕ → Option CacheDescription
find_first table [] = none
find_first table (id ∷ ids) = first_or (find_row table id) (find_first table ids)

-- The descriptors that a register lists, from the highest byte on.
abbrev pub bytes_of : ℕ → List ℕ
bytes_of reg = reg / 2 ^ 24 % 256 ∷ reg / 2 ^ 16 % 256 ∷ reg / 2 ^ 8 % 256 ∷ reg % 256 ∷ []

abbrev pub listed_by : Registers → List ℕ
listed_by r =
    bytes_of (valid r.eax)
    ++ (bytes_of (valid r.ebx) ++ (bytes_of (valid r.ecx) ++ bytes_of (valid r.edx)))

-- The descriptors that so many calls list, from the call of a number on.
unfoldable pub listed : Cpuid → ℕ → ℕ → List ℕ
listed cpuid zero calls = []
listed cpuid (suc n) calls = listed_by (cpuid calls id_cache_tlb_info) ++ listed cpuid n (suc calls)

some_if :
    {A : Type 0} (b : Bool) (x y : A) → (if b then some x else some y) ≡ some (if b then x else y)
some_if true x y = refl
some_if false x y = refl

search-find_row :
    (t : List CacheDescription) (id : ℕ) → IsTable t → search_list t id ≡ some (find_row t id)
unfolding search_list find_row
search-find_row [] id h = elim h [ ]
search-find_row (c ∷ rest) id (inl last) = rw last refl
search-find_row (c ∷ rest) id (inr h) = elim (Bool-cases (c.val == 0)) [
  | inl last ↦ rw last refl
  | inr more ↦
      rw (more, search-find_row rest id h) (some_if (c.val == id) (some c) (find_row rest id))
]

find_row_zero : (t : List CacheDescription) → find_row t 0 ≡ none
unfolding find_row
find_row_zero [] = refl
find_row_zero (c ∷ rest) = elim (Bool-cases (c.val == 0)) [
  | inl last ↦ rw last refl
  | inr more ↦ rw more (find_row_zero rest)
]

check-find_row :
    (t : List CacheDescription) (id : ℕ)
    → IsTable t
    → cpu_check_cache_list t id ≡ some (find_row t id)
unfolding cpu_check_cache_list
check-find_row t zero h = ap some (sym (find_row_zero t))
check-find_row t (suc id) h = search-find_row t (suc id) h

or_next-some :
    (o rest : Option CacheDescription) → or_next (some o) (some rest) ≡ some (first_or o rest)
or_next-some none rest = refl
or_next-some (some c) rest = refl

first_or_assoc :
    {A : Type 0} (x y z : Option A) → first_or x (first_or y z) ≡ first_or (first_or x y) z
first_or_assoc none y z = refl
first_or_assoc (some c) y z = refl

first_or-none : {A : Type 0} (x : Option A) → x ≡ first_or x none
first_or-none none = refl
first_or-none (some c) = refl

-- A search that goes on with more descriptors.
find_first-append :
    (t : List CacheDescription) (ids ids' : List ℕ)
    → first_or (find_first t ids) (find_first t ids') ≡ find_first t (ids ++ ids')
unfolding find_first
find_first-append t [] ids' = refl
find_first-append t (id ∷ ids) ids' =
    sym (first_or_assoc (find_row t id) (find_first t ids) (find_first t ids'))
    ∙ ap (first_or (find_row t id)) (find_first-append t ids ids')

first_append :
    (t : List CacheDescription) (ids ids' : List ℕ)
    → or_next (some (find_first t ids)) (some (find_first t ids'))
      ≡ some (find_first t (ids ++ ids'))
first_append t ids ids' =
    or_next-some (find_first t ids) (find_first t ids') ∙ ap some (find_first-append t ids ids')

first_row :
    (t : List CacheDescription) (id : ℕ) (ids : List ℕ)
    → or_next (some (find_row t id)) (some (find_first t ids)) ≡ some (find_first t (id ∷ ids))
unfolding find_first
first_row t id ids = or_next-some (find_row t id) (find_first t ids)

last_row :
    (t : List CacheDescription) (id : ℕ) → some (find_row t id) ≡ some (find_first t (id ∷ []))
unfolding find_first
last_row t id = ap some (first_or-none (find_row t id))

register-find_first :
    (t : List CacheDescription) (reg : ℕ)
    → IsTable t
    → cpu_check_cache_list_by_register t reg ≡ some (find_first t (bytes_of reg))
unfolding cpu_check_cache_list_by_register
register-find_first t reg h =
    rw
      (
        check-find_row t (reg / 2 ^ 24 % 256) h,
        check-find_row t (reg / 2 ^ 16 % 256) h,
        check-find_row t (reg / 2 ^ 8 % 256) h,
        check-find_row t (reg % 256) h,
        last_row t (reg % 256),
        first_row t (reg / 2 ^ 8 % 256) (reg % 256 ∷ []),
        first_row t (reg / 2 ^ 16 % 256) (reg / 2 ^ 8 % 256 ∷ reg % 256 ∷ []),
      )
      (first_row t (reg / 2 ^ 24 % 256) (reg / 2 ^ 16 % 256 ∷ reg / 2 ^ 8 % 256 ∷ reg % 256 ∷ []))

registers-find_first :
    (t : List CacheDescription) (r : Registers)
    → IsTable t
    → check_registers t r ≡ some (find_first t (listed_by r))
unfolding check_registers
registers-find_first t r h =
    rw
      (
        register-find_first t (valid r.eax) h,
        register-find_first t (valid r.ebx) h,
        register-find_first t (valid r.ecx) h,
        register-find_first t (valid r.edx) h,
        first_append t (bytes_of (valid r.ecx)) (bytes_of (valid r.edx)),
        first_append t (bytes_of (valid r.ebx)) (bytes_of (valid r.ecx) ++ bytes_of (valid r.edx)),
      )
      (first_append t (bytes_of (valid r.eax))
        (bytes_of (valid r.ebx) ++ (bytes_of (valid r.ecx) ++ bytes_of (valid r.edx))))

-- A search comes to this row, with at most so many calls.
abbrev pub Finds : Searched → Option CacheDescription → ℕ → Type 0
Finds s found most = (calls : ℕ) × (s ≡ some (found, calls)) × (calls ≤ most)

nothing_listed : (t : List CacheDescription) → none ≡ find_first t []
unfolding find_first
nothing_listed t = refl

after_here :
    (o rest : Option CacheDescription) (calls after most : ℕ)
    → calls ≤ most
    → after ≤ most
    → Finds (after_round (some o) calls (some (rest, after))) (first_or o rest) most
after_here none rest calls after most here' there = (after, refl, there)
after_here (some c) rest calls after most here' there = (calls, refl, here')

rounds-Finds :
    (cpuid : Cpuid) (t : List CacheDescription) (n calls : ℕ)
    → IsTable t
    → Finds (cache_rounds cpuid t n calls) (find_first t (listed cpuid n calls)) (calls + n)
unfolding cache_rounds listed
rounds-Finds cpuid t zero calls h =
    (calls, ap (λ found. some (found, calls)) (nothing_listed t), omega arith)
rounds-Finds cpuid t (suc n) calls h =
    let (after, same, few) = rounds-Finds cpuid t n (suc calls) h in
    let ids = listed_by (cpuid calls id_cache_tlb_info) in
    let rest = find_first t (listed cpuid n (suc calls)) in
    rw
      (
        registers-find_first t (cpuid calls id_cache_tlb_info) h,
        same,
        sym (find_first-append t ids (listed cpuid n (suc calls))),
      )
      (after_here (find_first t ids) rest (suc calls) after (calls + suc n) (omega arith)
        (omega arith))

-- On a table that ends with a zero, the search for a cache finds the row of the first
-- descriptor that has one, among those that all rounds list in the order of the registers and of
-- their bytes from the highest on; it never leaves the table and makes at most 1 + 255 calls.
pub cpu_cache_size-Finds :
    (cpuid : Cpuid) (t : List CacheDescription) (calls : ℕ)
    → IsTable t
    → Finds
        (cpu_cache_size cpuid t calls)
        (find_first t (listed cpuid ((cpuid calls id_cache_tlb_info).eax % 256) (suc calls)))
        (calls + 256)
unfolding cpu_cache_size
cpu_cache_size-Finds cpuid t calls h =
    let (after, same, few) =
      rounds-Finds cpuid t ((cpuid calls id_cache_tlb_info).eax % 256) (suc calls) h in
    (after, same, omega arith)
