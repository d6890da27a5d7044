-- ===== src/Install/Strings.antt =====
-- The string functions of install-core.c: base_name, str_same, str_ends, the loop of libname
-- that cuts white space, and install_suffix_sanitize.
pub mod BaseName
pub mod Ends
pub mod Suffix
use coreland_c_string.Base.{
  ℕ, zero, suc, ◌+◌, ◌-◌, ◌==◌, ltb, leb, Bool, true, false, ◌&&◌, ◌||◌, not, List, [], ◌∷◌, Option,
  none, some, Bytes, strcmp_eq, length, get_or, take, drop, if◌then◌else◌,
}
use coreland_c_string.Install.Header.{max_pathlen}

-- `'/'`
abbrev pub slash : ℕ
slash = b'/'

-- `while ((t > s) && (t [0] == '/')) --t;`
unfoldable pub skip_slashes : Bytes → ℕ → ℕ
skip_slashes s zero = zero
skip_slashes s (suc t) =
    let before = skip_slashes s t in if get_or s (suc t) 0 == slash then before else suc t

-- `while ((u > s) && (*(u - 1) != '/')) --u;`
unfoldable pub skip_name : Bytes → ℕ → ℕ
skip_name s zero = zero
skip_name s (suc u) = let before = skip_name s u in if get_or s u 0 == slash then suc u else before

-- `base_name`: `none` where it returns 0.
unfoldable pub base_name : Bytes → Option Bytes
base_name dir =
    let len = length dir in
    if len == 0
    then some (b'.' ∷ [])
    else if leb max_pathlen len
    then none
    else let t = skip_slashes dir (len - 1) in
      if (t == 0) && (get_or dir t 0 == slash)
      then some (slash ∷ [])
      else let u = skip_name dir t in some (take (t - u + 1) (drop u dir))

-- `str_same`
unfoldable pub str_same : Bytes → Bytes → Bool
str_same a b = strcmp_eq a b

-- `str_ends`
unfoldable pub str_ends : Bytes → Bytes → Bool
unfolding str_same
str_ends s end =
    let slen = length s in
    let elen = if ltb slen (length end) then slen else length end in
    str_same (drop (slen - elen) s) end

-- The C string at the start of a buffer.
unfoldable pub c_string : Bytes → Bytes
c_string [] = []
c_string (c ∷ cs) = if c == 0 then [] else c ∷ c_string cs

-- The four characters of the `switch` in `libname`.
abbrev pub is_blank : ℕ → Bool
is_blank c = (c == b' ') || (c == b'\t') || (c == b'\n') || (c == b'\r')

-- The loop in `libname`: the bytes from `read_buf` up to `s` when it ends.
unfoldable pub clean_blanks : Bytes → Bytes
clean_blanks [] = []
clean_blanks (c ∷ cs) = if is_blank c then [] else c ∷ clean_blanks cs

-- The characters that `install_suffix_sanitize` passes over.
abbrev pub is_suffix_char : ℕ → Bool
is_suffix_char ch =
    (ch == b'.')
    || (leb b'0' ch && leb ch b'9')
    || (leb b'A' ch && leb ch b'Z')
    || (leb b'a' ch && leb ch b'z')

-- `install_suffix_sanitize`: the buffer with its first other byte set to NUL.
unfoldable pub install_suffix_sanitize : Bytes → Bytes
install_suffix_sanitize [] = []
install_suffix_sanitize (ch ∷ rest) =
    if is_suffix_char ch then ch ∷ install_suffix_sanitize rest else 0 ∷ rest
