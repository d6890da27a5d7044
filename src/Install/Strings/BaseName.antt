-- ===== src/Install/Strings/BaseName.antt =====
-- What base_name and str_ends of install-core.c compute.
use coreland_c_string.Base.{
  ℕ, zero, suc, ◌+◌, ◌-◌, ◌<◌, ◌≤◌, ◌≡◌, ◌≢◌, refl, ◌⊎◌, inl, inr, [], ◌∷◌, ◌++◌, some, Bytes,
  length, get_or, take, drop, replicate, length-append, length-replicate, get_or-append,
  get_or-replicate, take-append, drop-append, arith, le_suc-cases, ltb, if◌then◌else◌,
}
use coreland_c_string.Install.Header.{max_pathlen}
use coreland_c_string.Install.Strings.{slash, skip_slashes, skip_name, base_name}

abbrev pub NoSlash : Bytes → Type 0
NoSlash [] = Unit
NoSlash (c ∷ cs) = (c ≢ slash) × NoSlash cs

-- A directory part: nothing, or a text that ends in a slash.
pub data IsDirPart : Bytes → Type 0 where
  here : IsDirPart []
  below : (d : Bytes) → IsDirPart (d ++ (slash ∷ []))

get_or-ne-slash : (n : Bytes) (i : ℕ) → NoSlash n → get_or n i 0 ≢ slash
get_or-ne-slash [] i h = ground arith
get_or-ne-slash (c ∷ cs) zero h = h.0
get_or-ne-slash (c ∷ cs) (suc i) h = get_or-ne-slash cs i h.1

-- The first loop stops at the last byte that is no slash, or at the first byte.
skip_slashes-eq :
    (s : Bytes) (t m : ℕ)
    → m ≤ t
    → (m ≡ 0) ⊎ (get_or s m 0 ≢ slash)
    → ((i : ℕ) → m < i → i ≤ t → get_or s i 0 ≡ slash)
    → skip_slashes s t ≡ m
unfolding skip_slashes
skip_slashes-eq s zero m le stop all = omega arith
skip_slashes-eq s (suc t) m le stop all = elim (le_suc-cases m t le) [
  | inl before ↦ ground (
    arith,
    all (suc t) (omega arith) (omega arith),
    skip_slashes-eq s t m before stop (λ i lo hi. all i lo (omega arith)),
  )
  | inr last ↦ rw (← last) (ground arith)
]

-- The second loop stops behind the last slash, or at the first byte.
skip_name-eq :
    (s : Bytes) (t u : ℕ)
    → u ≤ t
    → (u ≡ 0) ⊎ (get_or s (u - 1) 0 ≡ slash)
    → ((i : ℕ) → u ≤ i → i < t → get_or s i 0 ≢ slash)
    → skip_name s t ≡ u
unfolding skip_name
skip_name-eq s zero u le stop all = omega arith
skip_name-eq s (suc t) u le stop all = elim (le_suc-cases u t le) [
  | inl before ↦ ground (
    arith,
    all t before (omega arith),
    skip_name-eq s t u before stop (λ i lo hi. all i lo (omega arith)),
  )
  | inr last ↦ rw last (ground arith)
]

-- The bytes of a path in three parts: a directory, a name and slashes.
module _ (d n : Bytes) (k : ℕ) where
  abbrev pub path : Bytes
  path = d ++ (n ++ replicate k slash)

  get_or-path :
      (i : ℕ)
      → get_or path i 0 ≡ (
          if ltb i (length d)
          then get_or d i 0
          else if ltb (i - length d) (length n)
          then get_or n (i - length d) 0
          else if ltb (i - length d - length n) k
          then slash
          else 0)
  get_or-path i = rw (
    get_or-append d (n ++ replicate k slash) i 0,
    get_or-append n (replicate k slash) (i - length d) 0,
    get_or-replicate k (i - length d - length n) slash 0,
  )

  length-path : length path ≡ length d + length n + k
  length-path = omega (
    arith,
    length-append {0} d (n ++ replicate k slash),
    length-append {0} n (replicate k slash),
    length-replicate {0} k slash,
  )

get_or-last : (d : Bytes) → IsDirPart d → (length d ≡ 0) ⊎ (get_or d (length d - 1) 0 ≡ slash)
get_or-last d here = inl refl
get_or-last d (below e) = inr (rw (length-append {0}, get_or-append) (ground arith))

module _ (d n : Bytes) (k : ℕ) (part : IsDirPart d) (clean : NoSlash n) (named : 0 < length n) where
  -- The place of the last byte of the name.
  abbrev last : ℕ
  last = length d + length n - 1

  last-ne-slash : get_or (path d n k) last 0 ≢ slash
  last-ne-slash = ground (arith, get_or-path d n k last, get_or-ne-slash n (last - length d) clean)

  skip_slashes-path : skip_slashes (path d n k) (length (path d n k) - 1) ≡ last
  skip_slashes-path =
      skip_slashes-eq (path d n k) (length (path d n k) - 1) last (omega (arith, length-path d n k))
        (inr last-ne-slash) (λ i lo hi. ground (arith, length-path d n k, get_or-path d n k i))

  skip_name-path : skip_name (path d n k) last ≡ length d
  skip_name-path =
      skip_name-eq (path d n k) last (length d) (omega arith)
        (ground (arith, get_or-last d part, get_or-path d n k (length d - 1)))
        (λ i lo hi. ground (arith, get_or-path d n k i, get_or-ne-slash n (i - length d) clean))

  taken : take (last - length d + 1) (drop (length d) (path d n k)) ≡ n
  taken =
      let whole : last - length d + 1 ≡ length n = omega arith in
      rw (whole, drop-append d (n ++ replicate k slash)) (take-append n (replicate k slash))

  -- For a path of fewer than 1024 bytes made of a directory part (nothing, or a text that ends in
  -- a slash), a name that is not empty and has no slash, and any number of slashes behind it,
  -- base_name returns the name.
  pub base_name-path : length (path d n k) < max_pathlen → base_name (path d n k) ≡ some n
  unfolding base_name
  base_name-path short =
      rw skip_slashes-path
        (rw skip_name-path (rw taken (ground (arith, last-ne-slash, length-path d n k))))

-- A path of one slash or more, and of fewer than 1024, has the base name "/".
base_name-slashes :
    (k : ℕ) → 0 < k → k < max_pathlen → base_name (replicate k slash) ≡ some (slash ∷ [])
unfolding base_name
base_name-slashes k pos short =
    let full : length (replicate k slash) ≡ k = length-replicate k slash in
    let stop : skip_slashes (replicate k slash) (length (replicate k slash) - 1) ≡ 0 =
      skip_slashes-eq _ _ 0 (omega arith) (inl refl)
        (λ i lo hi. ground (arith, get_or-replicate k i slash 0)) in
    rw stop (ground (arith, get_or-replicate k 0 slash 0))
