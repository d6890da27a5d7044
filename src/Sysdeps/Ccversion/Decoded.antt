-- ===== src/Sysdeps/Ccversion/Decoded.antt =====
-- sd-ccversion.c prints the version that a compiler has put into one number.
use coreland_c_string.Base.{
  ℕ, zero, suc, ◌+◌, ◌-◌, ◌*◌, ◌/◌, ◌%◌, ◌<◌, ◌^◌, ◌≡◌, refl, sym, subst, true, false, List, [],
  ◌∷◌, Bytes, arith, drop, take, Bool-cases, inl, inr, if◌then◌else◌,
}
use coreland_c_string.Sysdeps.Ccversion.{
  Macros, Version, Block, blocks, holds, run_blocks, mul32, sub32, hex_decode_tri, dec_decode_tri,
  load, take_major, take_minor, drop_above, rest_minor, rest_patch, set_patch, patch_over, number,
  version_line, first_version, print_version,
}
use coreland_c_string.Sysdeps.Ccversion.Schemes.{
  digits, two, low_lost, vvmmtpppp, vvmpprrr, Codes, Compiler, borland, comeau, compaq_c,
  compaq_cxx, digital_mars, edg, green_hills, hp_acc, ibm_xl_c, ibm_c, ibm_cxx, iar, intel, kai,
  keil_carm, keil_c166, keil_c51, codewarrior, mipspro, mipspro_again, mpw, palm_c, pelles,
  small_device, sun_c, sun_cxx, systems_c, watcom, version_macro, scheme, place, first_condition,
  from_own, any_holds, IsLast,
}

-- The three numbers that are printed.
abbrev Shows : ℕ → ℕ → ℕ → Version → Type 0
Shows major minor patch v = (v.ver_major ≡ major) × (v.ver_minor ≡ minor) × (v.ver_patch ≡ patch)

-- Taking a multiple off a number leaves the rest.
sub32-mul32 : (n q k r : ℕ) → n < 2 ^ 32 → n ≡ q * k + r → sub32 n (mul32 q k) ≡ r
unfolding sub32 mul32
sub32-mul32 n q k r small e =
    let p : ℕ = q * k in
    let same : (n + 2 ^ 32 - p % 2 ^ 32) % 2 ^ 32 ≡ r = omega (arith, e, small) in same

div_lem : (n q k r : ℕ) → n ≡ q * k + r → r < k → n / k ≡ q
div_lem n q k r e small = grind arith

-- The step of a major or minor number: the quotient and what is left.
module _ (n q k r : ℕ) (e : n ≡ q * k + r) (below : r < k) (small : n < 2 ^ 32) where
  taken : sub32 n (mul32 (n / k) k) ≡ r
  taken = rw (div_lem n q k r e below) (sub32-mul32 n q k r small e)

  take_major_lem : (v : Version) → v.ver ≡ n → take_major k v ≡ record v { ver_major = q; ver = r }
  unfolding take_major
  take_major_lem v has = rw (has, taken, div_lem n q k r e below) refl

  take_minor_lem : (v : Version) → v.ver ≡ n → take_minor k v ≡ record v { ver_minor = q; ver = r }
  unfolding take_minor
  take_minor_lem v has = rw (has, taken, div_lem n q k r e below) refl

  drop_above_lem : (v : Version) → v.ver ≡ n → drop_above k v ≡ record v { ver = r }
  unfolding drop_above
  drop_above_lem v has = rw (has, taken) refl

-- The decoders, each for the numbers of its scheme below 2^32.
module _ (major minor patch n : ℕ) (small : n < 2 ^ 32) where
  parts-Shows :
      (a b : ℕ) (v : Version)
      → Codes (digits a b) major minor patch n
      → Shows major minor patch (rest_patch (take_minor b (take_major a (load n v))))
  unfolding rest_patch load
  parts-Shows a b v (e, below, low) =
      let r : ℕ = minor * b + patch in
      let first : n ≡ major * a + r = omega (arith, e) in
      let less : r < 2 ^ 32 = omega (arith, e, small) in
      rw (take_major_lem n major a r first below small (load n v) refl) (
        rw
          (take_minor_lem r minor b patch refl low less (record v { ver_major = major; ver = r })
            refl)
          (refl, refl, refl))

  no_patch-Shows :
      (a b : ℕ) (v : Version)
      → Codes (low_lost a b) major minor patch n
      → Shows major minor patch (set_patch 0 (take_minor b (take_major a (load n v))))
  unfolding set_patch load
  no_patch-Shows a b v (rest, e, below, low, none) =
      let r : ℕ = minor * b + rest in
      let first : n ≡ major * a + r = omega (arith, e) in
      let less : r < 2 ^ 32 = omega (arith, e, small) in
      rw (take_major_lem n major a r first below small (load n v) refl) (
        rw
          (take_minor_lem r minor b rest refl low less (record v { ver_major = major; ver = r })
            refl)
          (refl, refl, sym none))

  pair-Shows :
      (a : ℕ) (v : Version)
      → Codes (two a) major minor patch n
      → Shows major minor patch (set_patch 0 (rest_minor (take_major a (load n v))))
  unfolding set_patch rest_minor load
  pair-Shows a v (e, below, none) =
      rw (take_major_lem n major a minor e below small (load n v) refl) (refl, refl, sym none)

  compaq-Shows :
      (v : Version)
      → Codes vvmmtpppp major minor patch n
      → Shows major minor patch
          (rest_patch (drop_above 10000 (take_minor 100000 (take_major 10000000 (load n v)))))
  unfolding rest_patch load
  compaq-Shows v (kind, e, m, k, p) =
      let r : ℕ = minor * 100000 + kind * 10000 + patch in
      let s : ℕ = kind * 10000 + patch in
      rw (take_major_lem n major 10000000 r (omega (arith, e)) (omega arith) small (load n v) refl)
        (rw
          (take_minor_lem r minor 100000 s (omega arith) (omega arith) (omega arith)
            (record v { ver_major = major; ver = r }) refl)
          (rw
            (drop_above_lem s kind 10000 patch refl p (omega arith)
              (record v { ver_major = major; ver_minor = minor; ver = s }) refl)
            (refl, refl, refl)))

  palm-Shows :
      (v : Version)
      → Codes vvmpprrr major minor patch n
      → Shows major minor patch
          (patch_over 0x1000 (take_minor 0x100000 (take_major 0x1000000 (load n v))))
  unfolding patch_over load
  palm-Shows v (rest, e, m, p, low) =
      let r : ℕ = minor * 0x100000 + patch * 0x1000 + rest in
      let s : ℕ = patch * 0x1000 + rest in
      rw (take_major_lem n major 0x1000000 r (omega (arith, e)) (omega arith) small (load n v) refl)
        (rw
          (take_minor_lem r minor 0x100000 s (omega arith) (omega arith) (omega arith)
            (record v { ver_major = major; ver = r }) refl)
          (refl, refl, div_lem s patch 0x1000 rest refl low))

  hex-Shows :
      (v : Version)
      → Codes (digits 0x100 0x10) major minor patch n
      → Shows major minor patch (hex_decode_tri n v)
  unfolding hex_decode_tri rest_patch load take_major take_minor
  hex-Shows v code = parts-Shows 0x100 0x10 v code

  dec-Shows :
      (v : Version)
      → Codes (digits 100 10) major minor patch n
      → Shows major minor patch (dec_decode_tri n v)
  unfolding dec_decode_tri rest_patch load take_major take_minor
  dec-Shows v code = parts-Shows 100 10 v code

-- The body of the first block.
abbrev first_body : List Block → Macros → Version → Version
first_body [] macros v = v
first_body (b ∷ rest) macros v = b.body macros v

module _ (macros : Macros) where
  run_blocks-none :
      (bs : List Block) (v : Version) → any_holds macros bs ≡ false → run_blocks macros bs v ≡ v
  unfolding run_blocks
  run_blocks-none [] v h = refl
  run_blocks-none (b ∷ rest) v h = elim (Bool-cases (holds macros b.condition)) [
    | inl on ↦ absurd (ground (arith, h, on))
    | inr off ↦ rw off (run_blocks-none rest v (ground (arith, h, off)))
  ]

  run_blocks-drop :
      (k : ℕ) (bs : List Block) (v : Version)
      → run_blocks macros bs v ≡ run_blocks macros (drop k bs) (run_blocks macros (take k bs) v)
  unfolding run_blocks
  run_blocks-drop zero bs v = refl
  run_blocks-drop (suc k) [] v = refl
  run_blocks-drop (suc k) (b ∷ rest) v =
      run_blocks-drop k rest (if holds macros b.condition then b.body macros v else v)

  -- Blocks of which the first one alone is compiled.
  run_blocks-first :
      (bs : List Block) (v : Version)
      → holds macros (first_condition bs) ≡ true
      → any_holds macros (drop 1 bs) ≡ false
      → run_blocks macros bs v ≡ first_body bs macros v
  unfolding run_blocks
  run_blocks-first [] v own later = refl
  run_blocks-first (b ∷ rest) v own later = rw own (run_blocks-none rest (b.body macros v) later)

  number-lt : (macro : Bytes) → number macros macro < 2 ^ 32
  number-lt macro = omega arith

in_range : (n : ℕ) → n < 2 ^ 32 → n ≡ n % 2 ^ 32
in_range n small = omega arith

module _ (macros : Macros) (major minor patch : ℕ) where
  -- The body of a compiler's block finds the version.
  body-Shows :
      (c : Compiler) (v : Version)
      → Codes (scheme c) major minor patch (number macros (version_macro c))
      → Shows major minor patch (first_body (from_own c) macros v)
  unfolding blocks
  body-Shows borland v code =
      hex-Shows major minor patch _ (number-lt macros (version_macro borland)) v code
  body-Shows comeau v code =
      dec-Shows major minor patch _ (number-lt macros (version_macro comeau)) v code
  body-Shows compaq_c v code =
      compaq-Shows major minor patch _ (number-lt macros (version_macro compaq_c)) v code
  body-Shows compaq_cxx v code =
      compaq-Shows major minor patch _ (number-lt macros (version_macro compaq_cxx)) v code
  body-Shows digital_mars v code =
      hex-Shows major minor patch _ (number-lt macros (version_macro digital_mars)) v code
  body-Shows edg v code =
      dec-Shows major minor patch _ (number-lt macros (version_macro edg)) v code
  body-Shows green_hills v code =
      dec-Shows major minor patch _ (number-lt macros (version_macro green_hills)) v code
  body-Shows hp_acc v code =
      parts-Shows major minor patch _ (number-lt macros (version_macro hp_acc)) 10000 100 v code
  body-Shows ibm_xl_c v code =
      hex-Shows major minor patch _ (number-lt macros (version_macro ibm_xl_c)) v code
  body-Shows ibm_c v code =
      dec-Shows major minor patch _ (number-lt macros (version_macro ibm_c)) v code
  body-Shows ibm_cxx v code =
      dec-Shows major minor patch _ (number-lt macros (version_macro ibm_cxx)) v code
  body-Shows iar v code =
      pair-Shows major minor patch _ (number-lt macros (version_macro iar)) 100 v code
  body-Shows intel v code =
      dec-Shows major minor patch _ (number-lt macros (version_macro intel)) v code
  body-Shows kai v code =
      parts-Shows major minor patch _ (number-lt macros (version_macro kai)) 0x1000 0x100 v code
  body-Shows keil_carm v code =
      pair-Shows major minor patch _ (number-lt macros (version_macro keil_carm)) 100 v code
  body-Shows keil_c166 v code =
      pair-Shows major minor patch _ (number-lt macros (version_macro keil_c166)) 100 v code
  body-Shows keil_c51 v code =
      pair-Shows major minor patch _ (number-lt macros (version_macro keil_c51)) 100 v code
  body-Shows codewarrior v code =
      parts-Shows major minor patch _ (number-lt macros (version_macro codewarrior)) 0x1000 0x100 v
        code
  body-Shows mipspro v code =
      parts-Shows major minor patch _ (number-lt macros (version_macro mipspro)) 100 10 v code
  body-Shows mipspro_again v code =
      parts-Shows major minor patch _ (number-lt macros (version_macro mipspro_again)) 100 10 v code
  body-Shows mpw v code =
      no_patch-Shows major minor patch _ (number-lt macros (version_macro mpw)) 0x100 0x10 v code
  body-Shows palm_c v code =
      palm-Shows major minor patch _ (number-lt macros (version_macro palm_c)) v code
  body-Shows pelles v code =
      dec-Shows major minor patch _ (number-lt macros (version_macro pelles)) v code
  body-Shows small_device v code =
      dec-Shows major minor patch _ (number-lt macros (version_macro small_device)) v code
  body-Shows sun_c v code =
      hex-Shows major minor patch _ (number-lt macros (version_macro sun_c)) v code
  body-Shows sun_cxx v code =
      hex-Shows major minor patch _ (number-lt macros (version_macro sun_cxx)) v code
  body-Shows systems_c v code =
      parts-Shows major minor patch _ (number-lt macros (version_macro systems_c)) 10000 1000 v code
  body-Shows watcom v code =
      no_patch-Shows major minor patch _ (number-lt macros (version_macro watcom)) 100 10 v code

-- The line for numbers that are known.
line-Shows :
    (v : Version) (major minor patch : ℕ)
    → Shows major minor patch v
    → version_line v.ver_major v.ver_minor v.ver_patch ≡ version_line major minor patch
line-Shows v major minor patch s = rw (s.0, s.1, s.2) refl

-- What the blocks leave, if the compiler's own one is the last that is compiled.
run_blocks-Shows :
    (macros : Macros) (c : Compiler) (major minor patch : ℕ) (v : Version)
    → IsLast macros c
    → Codes (scheme c) major minor patch (number macros (version_macro c))
    → Shows major minor patch (run_blocks macros blocks v)
run_blocks-Shows macros c major minor patch v last code =
    let u = run_blocks macros (take (place c) blocks) v in
    rw (run_blocks-drop macros (place c) blocks v) (
      rw (run_blocks-first macros (from_own c) u last.own last.none_later)
        (body-Shows macros major minor patch c u code))

-- A compiler of sd-ccversion.c that defines its macros puts a version into one number of 32 bits by
-- its scheme. If its block is the last that is compiled, whatever blocks before it are, the
-- program prints that version: its major, minor and patch number in decimal, with dots between.
pub print_version-decodes :
    (macros : Macros) (c : Compiler) (major minor patch : ℕ)
    → IsLast macros c
    → macros.value (version_macro c) < 2 ^ 32
    → Codes (scheme c) major minor patch (macros.value (version_macro c))
    → print_version macros ≡ version_line major minor patch
unfolding print_version
print_version-decodes macros c major minor patch last small code =
    line-Shows (run_blocks macros blocks first_version) major minor patch (
      run_blocks-Shows macros c major minor patch first_version last
        (subst (Codes (scheme c) major minor patch) (in_range _ small) code))
