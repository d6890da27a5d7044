-- ===== src/Sysdeps/Ccversion.antt =====
-- sd-ccversion.c: the version of the compiler, from the macros that it defines.
pub mod Schemes
pub mod Decoded
use coreland_c_string.Base.{
  ℕ, ◌+◌, ◌-◌, ◌*◌, ◌/◌, ◌%◌, ◌^◌, Bool, true, false, ◌&&◌, ◌||◌, List, [], ◌∷◌, ◌++◌, Bytes, lit,
  decimal, if◌then◌else◌,
}

-- What the preprocessor knows: which macros are defined, and their values.
pub record Macros : Type 0 where
  pub defined : Bytes → Bool
  pub value : Bytes → ℕ

-- The global variables, of 32 bits without a sign.
pub record Version : Type 0 where
  pub ver_major : ℕ
  pub ver_minor : ℕ
  pub ver_patch : ℕ
  pub ver : ℕ

-- The product and the difference of two `unsigned int`.
unfoldable pub mul32 : ℕ → ℕ → ℕ
mul32 a b = (a * b) % 2 ^ 32

unfoldable pub sub32 : ℕ → ℕ → ℕ
sub32 a b = (a + 2 ^ 32 - b) % 2 ^ 32

unfoldable pub hex_decode_tri : ℕ → Version → Version
unfolding mul32 sub32
hex_decode_tri ver v =
    let major = ver / 0x100 in
    let below_major = sub32 ver (mul32 major 0x100) in
    let minor = below_major / 0x010 in
    let below_minor = sub32 below_major (mul32 minor 0x010) in
    record v { ver_major = major; ver_minor = minor; ver_patch = below_minor }

unfoldable pub dec_decode_tri : ℕ → Version → Version
unfolding mul32 sub32
dec_decode_tri ver v =
    let major = ver / 100 in
    let below_major = sub32 ver (mul32 major 100) in
    let minor = below_major / 10 in
    let below_minor = sub32 below_major (mul32 minor 10) in
    record v { ver_major = major; ver_minor = minor; ver_patch = below_minor }

-- One statement after another.
infixl 5 ◌>>◌
abbrev pub ◌>>◌ : (Version → Version) → (Version → Version) → Version → Version
◌>>◌ first second v = second (first v)

-- `ver = n;`
unfoldable pub load : ℕ → Version → Version
load n v = record v { ver = n }

-- `ver_major = ver / unit; ver -= ver_major * unit;`
unfoldable pub take_major : ℕ → Version → Version
unfolding mul32 sub32
take_major unit v =
    let major = v.ver / unit in record v { ver_major = major; ver = sub32 v.ver (mul32 major unit) }

-- `ver_minor = ver / unit; ver -= ver_minor * unit;`
unfoldable pub take_minor : ℕ → Version → Version
unfolding mul32 sub32
take_minor unit v =
    let minor = v.ver / unit in record v { ver_minor = minor; ver = sub32 v.ver (mul32 minor unit) }

-- `ver -= (ver / unit) * unit;`
unfoldable pub drop_above : ℕ → Version → Version
unfolding mul32 sub32
drop_above unit v = record v { ver = sub32 v.ver (mul32 (v.ver / unit) unit) }

unfoldable pub set_major : ℕ → Version → Version
set_major n v = record v { ver_major = n }

unfoldable pub set_minor : ℕ → Version → Version
set_minor n v = record v { ver_minor = n }

unfoldable pub set_patch : ℕ → Version → Version
set_patch n v = record v { ver_patch = n }

-- `ver_minor = ver;`
unfoldable pub rest_minor : Version → Version
rest_minor v = record v { ver_minor = v.ver }

-- `ver_patch = ver;`
unfoldable pub rest_patch : Version → Version
rest_patch v = record v { ver_patch = v.ver }

-- `ver_patch = ver / unit;`
unfoldable pub patch_over : ℕ → Version → Version
patch_over unit v = record v { ver_patch = v.ver / unit }

module _ (macros : Macros) where
  -- A macro as an `unsigned int`.
  abbrev pub number : Bytes → ℕ
  number macro = macros.value macro % 2 ^ 32

  -- `hex_decode_tri (macro);`
  abbrev pub hex : Bytes → Version → Version
  hex macro v = hex_decode_tri (number macro) v

  -- `dec_decode_tri (macro);`
  abbrev pub dec : Bytes → Version → Version
  dec macro v = dec_decode_tri (number macro) v

  -- The decoders that are written out in the blocks, for the macro that is loaded.
  abbrev pub compaq : Bytes → Version → Version
  compaq macro = do
    load (number macro)
    take_major 10000000
    take_minor 100000
    drop_above 10000
    rest_patch

  abbrev pub parts : ℕ → ℕ → Bytes → Version → Version
  parts major_unit minor_unit macro = do
    load (number macro)
    take_major major_unit
    take_minor minor_unit
    rest_patch

  abbrev pub pair : ℕ → Bytes → Version → Version
  pair major_unit macro = do load (number macro); take_major major_unit; rest_minor; set_patch 0

  abbrev pub no_patch : ℕ → ℕ → Bytes → Version → Version
  no_patch major_unit minor_unit macro = do
    load (number macro)
    take_major major_unit
    take_minor minor_unit
    set_patch 0

  abbrev pub palm : Bytes → Version → Version
  palm macro = do load (number macro); take_major 0x1000000; take_minor 0x100000; patch_over 0x1000

  -- The compilers that have a macro for each number.
  abbrev pub cray : Version → Version
  cray = do set_major (number (lit "_RELEASE")); set_minor (number (lit "_RELEASE_MINOR"))

  abbrev pub djgpp : Version → Version
  djgpp = do set_major (number (lit "__DJGPP__")); set_minor (number (lit "__DJGPP_MINOR__"))

  abbrev pub ekopath : Version → Version
  ekopath = do
    set_major (number (lit "__PATHCC__"))
    set_minor (number (lit "__PATHCC_MINOR__"))
    set_patch (number (lit "__PATHCC_PATCHLEVEL__"))

  abbrev pub gnu_c : Version → Version
  gnu_c = do
    set_major (number (lit "__GNUC__"))
    set_minor (number (lit "__GNUC_MINOR__"))
    if macros.defined (lit "__GNUC_PATCHLEVEL__")
        then set_patch (number (lit "__GNUC_PATCHLEVEL__"))
        else set_patch 0

  abbrev pub mingw : Version → Version
  mingw = do
    set_major (number (lit "__MINGW32_MAJOR_VERSION"))
    set_minor (number (lit "__MINGW32_MINOR_VERSION"))
    set_patch 0

  abbrev pub pcc : Version → Version
  pcc = do
    set_major (number (lit "__PCC__"))
    set_minor (number (lit "__PCC_MINOR__"))
    set_patch (number (lit "__PCC_MINORMINOR__"))

  abbrev pub ultimate : Version → Version
  ultimate = do
    set_major (number (lit "_MAJOR_REV"))
    set_minor (number (lit "_MINOR_REV"))
    set_patch 0

-- A block between `#if` and `#endif`: one of each list of macros is defined.
pub record Block : Type 0 where
  pub condition : List (List Bytes)
  pub body : Macros → Version → Version

-- `#if defined (macro)`
abbrev on : Bytes → (Macros → Version → Version) → Block
on macro body = record { condition = (macro ∷ []) ∷ []; body = body }

abbrev when : List (List Bytes) → (Macros → Version → Version) → Block
when condition body = record { condition = condition; body = body }

abbrev any_of : Macros → List Bytes → Bool
any_of macros [] = false
any_of macros (m ∷ rest) = macros.defined m || any_of macros rest

-- What the preprocessor decides.
unfoldable pub holds : Macros → List (List Bytes) → Bool
holds macros [] = true
holds macros (alternatives ∷ rest) = any_of macros alternatives && holds macros rest

-- The blocks of `main` from Borland's to Intel's, in their order.
abbrev blocks_b_to_i : List Block
blocks_b_to_i =
    on (lit "__BORLANDC__") (λ ms. hex ms (lit "__BORLANDC__"))
    ∷ on (lit "__COMO_VERSION__") (λ ms. dec ms (lit "__COMO_VERSION__"))
    ∷ on (lit "__DECC_VER") (λ ms. compaq ms (lit "__DECC_VER"))
    ∷ on (lit "__DECCXX_VER") (λ ms. compaq ms (lit "__DECCXX_VER"))
    ∷ on (lit "_CRAY") cray
    ∷ on (lit "__DMC__") (λ ms. hex ms (lit "__DMC__"))
    ∷ on (lit "__DJGPP__") djgpp
    ∷ on (lit "__PATHCC__") ekopath
    ∷ on (lit "__EDG__") (λ ms. dec ms (lit "__EDG_VERSION__"))
    ∷ on (lit "__GNUC__") gnu_c
    ∷ on (lit "__ghs__") (λ ms. dec ms (lit "__GHS_VERSION_NUMBER__"))
    ∷ on (lit "__HP_aCC") (λ ms. parts ms 10000 100 (lit "__HP_aCC"))
    ∷ on (lit "__xlC__") (λ ms. hex ms (lit "__xlC__"))
    ∷ on (lit "__IBMC__") (λ ms. dec ms (lit "__IBMC__"))
    ∷ on (lit "__IBMCPP__") (λ ms. dec ms (lit "__IBMCPP__"))
    ∷ on (lit "__IAR_SYSTEMS_ICC__") (λ ms. pair ms 100 (lit "__VER__"))
    ∷ on (lit "__INTEL_COMPILER") (λ ms. dec ms (lit "__INTEL_COMPILER"))
    ∷ []

-- The blocks from KAI's to Watcom's.
abbrev blocks_k_to_w : List Block
blocks_k_to_w =
    on (lit "__KCC") (λ ms. parts ms 0x1000 0x100 (lit "__KCC_VERSION"))
    ∷ on (lit "__CA__") (λ ms. pair ms 100 (lit "__CA__"))
    ∷ on (lit "__C166__") (λ ms. pair ms 100 (lit "__C166__"))
    ∷ on (lit "__C51__") (λ ms. pair ms 100 (lit "__C51__"))
    ∷ on (lit "__MWERKS__") (λ ms. parts ms 0x1000 0x0100 (lit "__MWERKS__"))
    ∷ on (lit "__MINGW32__") mingw
    ∷ when ((lit "__sgi" ∷ lit "sgi" ∷ []) ∷ (lit "_SGI_COMPILER_VERSION" ∷ []) ∷ [])
        (λ ms. parts ms 100 10 (lit "_SGI_COMPILER_VERSION"))
    ∷ when ((lit "__sgi" ∷ lit "sgi" ∷ []) ∷ (lit "_COMPILER_VERSION" ∷ []) ∷ [])
        (λ ms. parts ms 100 10 (lit "_COMPILER_VERSION"))
    ∷ when ((lit "__MRC__" ∷ lit "MPW_C" ∷ lit "MPW_CPLUS" ∷ []) ∷ [])
        (λ ms. no_patch ms 0x100 0x10 (lit "__MRC__"))
    ∷ on (lit "_PACC_VER") (λ ms. palm ms (lit "_PACC_VER"))
    ∷ on (lit "__POCC__") (λ ms. dec ms (lit "__POCC__"))
    ∷ on (lit "__PCC__") pcc
    ∷ on (lit "SDCC") (λ ms. dec ms (lit "SDCC"))
    ∷ on (lit "__SUNPRO_C") (λ ms. hex ms (lit "__SUNPRO_C"))
    ∷ on (lit "__SUNPRO_CC") (λ ms. hex ms (lit "__SUNPRO_CC"))
    ∷ on (lit "__SYSC__") (λ ms. parts ms 10000 1000 (lit "__SYSC_VER__"))
    ∷ on (lit "_UCC") ultimate
    ∷ on (lit "__WATCOMC__") (λ ms. no_patch ms 100 10 (lit "__WATCOMC__"))
    ∷ []

-- The blocks of `main`.
unfoldable pub blocks : List Block
blocks = blocks_b_to_i ++ blocks_k_to_w

-- The statements that the preprocessor leaves.
unfoldable pub run_blocks : Macros → List Block → Version → Version
unfolding holds
run_blocks macros [] v = v
run_blocks macros (b ∷ rest) v =
    run_blocks macros rest (if holds macros b.condition then b.body macros v else v)

-- The start of `main`, where the decoders are only called to be used.
abbrev pub start : Version → Version
start = do hex_decode_tri 1; dec_decode_tri 1; set_major 0; set_minor 0; set_patch 0; load 0

-- `printf ("%u.%u.%u\n", …)`
unfoldable pub version_line : ℕ → ℕ → ℕ → Bytes
version_line major minor patch =
    decimal major ++ (lit "." ++ (decimal minor ++ (lit "." ++ (decimal patch ++ lit "\n"))))

-- The global variables in front of the blocks; a static variable starts at 0.
abbrev pub first_version : Version
first_version = start (record { ver_major = 0; ver_minor = 0; ver_patch = 0; ver = 0 })

-- What `main` prints.
unfoldable pub print_version : Macros → Bytes
unfolding run_blocks version_line blocks
print_version macros =
    let v = run_blocks macros blocks first_version in
    version_line v.ver_major v.ver_minor v.ver_patch
