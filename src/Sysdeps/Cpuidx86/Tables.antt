-- ===== src/Sysdeps/Cpuidx86/Tables.antt =====
-- The tables of sd-cpuidx86.c and the constants that they name.
use coreland_c_string.Base.{ℕ, List, [], ◌∷◌, Bytes, lit}

-- `struct cache_description`
pub record CacheDescription : Type 0 where
  pub val : ℕ
  pub size : ℕ
  pub line : ℕ

-- `struct vendor_description`
pub record VendorDescription : Type 0 where
  pub id : ℕ
  pub vendor : ℕ
  pub name : Bytes

-- `struct feature`
pub record Feature : Type 0 where
  pub name : Bytes
  pub bit : ℕ

abbrev row : ℕ → ℕ → ℕ → CacheDescription
row val size line = record { val = val; size = size; line = line }

abbrev vendor_row : ℕ → ℕ → Bytes → VendorDescription
vendor_row id vendor name = record { id = id; vendor = vendor; name = name }

abbrev feature_row : Bytes → ℕ → Feature
feature_row name bit = record { name = name; bit = bit }

abbrev pub intel_l1i_caches : List CacheDescription
intel_l1i_caches =
    row 0x06 8 32
    ∷ row 0x08 16 32
    ∷ row 0x09 32 64
    ∷ row 0x15 16 32
    ∷ row 0x30 32 64
    ∷ row 0x77 16 64
    ∷ row 0 0 0
    ∷ []

abbrev pub intel_l1d_caches : List CacheDescription
intel_l1d_caches =
    row 0x0a 8 32
    ∷ row 0x0c 16 32
    ∷ row 0x0d 16 64
    ∷ row 0x10 16 32
    ∷ row 0x2c 32 64
    ∷ row 0x60 16 64
    ∷ row 0x66 8 64
    ∷ row 0x67 16 64
    ∷ row 0x68 32 64
    ∷ row 0 0 0
    ∷ []

abbrev pub intel_l2_caches : List CacheDescription
intel_l2_caches =
    row 0x21 256 64
    ∷ row 0x39 128 64
    ∷ row 0x3a 192 64
    ∷ row 0x3b 128 64
    ∷ row 0x3c 256 64
    ∷ row 0x3d 384 64
    ∷ row 0x3e 512 64
    ∷ row 0x41 128 32
    ∷ row 0x42 256 32
    ∷ row 0x43 512 32
    ∷ row 0x44 1024 32
    ∷ row 0x45 2048 32
    ∷ row 0x48 3072 64
    ∷ row 0x49 4096 64
    ∷ row 0x4e 6144 64
    ∷ row 0x78 1024 64
    ∷ row 0x79 128 64
    ∷ row 0x7a 256 64
    ∷ row 0x7b 512 64
    ∷ row 0x7c 1024 64
    ∷ row 0x7d 2048 64
    ∷ row 0x7f 512 64
    ∷ row 0x82 256 32
    ∷ row 0x83 512 32
    ∷ row 0x84 1024 32
    ∷ row 0x85 2048 32
    ∷ row 0x86 512 64
    ∷ row 0x87 1024 64
    ∷ row 0 0 0
    ∷ []

abbrev pub intel_l3_caches : List CacheDescription
intel_l3_caches =
    row 0x22 512 64
    ∷ row 0x23 1024 64
    ∷ row 0x25 2048 64
    ∷ row 0x29 4096 64
    ∷ row 0xd0 524288 64
    ∷ row 0xd1 1048576 64
    ∷ row 0xd2 2097152 64
    ∷ row 0xd6 1048576 64
    ∷ row 0xd7 2097152 64
    ∷ row 0xd8 8388608 64
    ∷ row 0xdc 1572864 64
    ∷ row 0xdd 3145728 64
    ∷ row 0xde 6291456 64
    ∷ row 0xe2 2097152 64
    ∷ row 0xe3 4194304 64
    ∷ row 0xe4 8388608 64
    ∷ row 0xea 12582912 64
    ∷ row 0xeb 18874368 64
    ∷ row 0xec 25165824 64
    ∷ row 0 0 0
    ∷ []

abbrev pub vendor_unknown : ℕ
vendor_unknown = 0

abbrev pub vendor_amd : ℕ
vendor_amd = 1

abbrev pub vendor_centaur : ℕ
vendor_centaur = 2

abbrev pub vendor_cyrix : ℕ
vendor_cyrix = 3

abbrev pub vendor_intel : ℕ
vendor_intel = 4

abbrev pub vendor_natsemi : ℕ
vendor_natsemi = 5

abbrev pub vendor_rise : ℕ
vendor_rise = 6

abbrev pub vendor_transmeta : ℕ
vendor_transmeta = 7

abbrev pub vendor_sis : ℕ
vendor_sis = 8

abbrev pub ext_mmx : ℕ
ext_mmx = 0x0001

abbrev pub ext_mmx2 : ℕ
ext_mmx2 = 0x0002

abbrev pub ext_3dnow : ℕ
ext_3dnow = 0x0004

abbrev pub ext_3dnowext : ℕ
ext_3dnowext = 0x0008

abbrev pub ext_sse : ℕ
ext_sse = 0x0010

abbrev pub ext_sse2 : ℕ
ext_sse2 = 0x0020

abbrev pub ext_sse3 : ℕ
ext_sse3 = 0x0040

abbrev pub ext_sse4_1 : ℕ
ext_sse4_1 = 0x0080

abbrev pub ext_sse4_2 : ℕ
ext_sse4_2 = 0x0100

abbrev pub vendors : List VendorDescription
vendors =
    vendor_row 0x756e6547 vendor_intel (lit "intel")
    ∷ vendor_row 0x68747541 vendor_amd (lit "amd")
    ∷ vendor_row 0x69727943 vendor_cyrix (lit "cyrix")
    ∷ vendor_row 0x746e6543 vendor_centaur (lit "centaur")
    ∷ vendor_row 0x646f6547 vendor_natsemi (lit "national-semiconductor")
    ∷ vendor_row 0x52697365 vendor_rise (lit "rise")
    ∷ vendor_row 0x65736952 vendor_rise (lit "rise")
    ∷ vendor_row 0x20536953 vendor_sis (lit "sis")
    ∷ []

abbrev pub features : List Feature
features =
    feature_row (lit "mmx") ext_mmx
    ∷ feature_row (lit "mmx2") ext_mmx2
    ∷ feature_row (lit "3dnow") ext_3dnow
    ∷ feature_row (lit "3dnowext") ext_3dnowext
    ∷ feature_row (lit "sse") ext_sse
    ∷ feature_row (lit "sse2") ext_sse2
    ∷ feature_row (lit "sse3") ext_sse3
    ∷ feature_row (lit "sse4.1") ext_sse4_1
    ∷ feature_row (lit "sse4.2") ext_sse4_2
    ∷ []
