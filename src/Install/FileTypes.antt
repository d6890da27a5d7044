-- ===== src/Install/FileTypes.antt =====
-- The table of file types of install-core.c and its three lookups.
pub mod Laws
use coreland_c_string.Base.{
  ℕ, Bool, true, false, Option, none, some, List, [], ◌∷◌, String, Bytes, ℤ, pos, lit, strcmp_eq,
  ◌==◌, if◌then◌else◌,
}
use coreland_c_string.Install.Header.{
  FileType, file, character_special, directory, symlink, socket, fifo,
}
use coreland_c_string.Install.World.{World, M, Res, done, fault, Proc, proc, sys, pure, ◌>>=◌}
use coreland_c_string.Install.World.{Exit, next, leave, stop}
use coreland_c_string.Install.Os.{Os, FileInfo}

-- The number of an enumerator, by which C compares.
abbrev pub type_number : FileType → ℕ
type_number file = 0
type_number character_special = 1
type_number directory = 2
type_number symlink = 3
type_number socket = 4
type_number fifo = 5

abbrev pub type_eq : FileType → FileType → Bool
type_eq a b = type_number a == type_number b

-- The entries of `file_type_lookups` without their checks.
abbrev pub file_type_names : List (String × FileType)
file_type_names =
    ("file", file)
    ∷ ("character_special", character_special)
    ∷ ("directory", directory)
    ∷ ("symlink", symlink)
    ∷ ("socket", socket)
    ∷ ("fifo", fifo)
    ∷ []

name_search : List (String × FileType) → Bytes → Option FileType
name_search [] name = none
name_search ((n, t) ∷ rest) name = if strcmp_eq (lit n) name then some t else name_search rest name

type_search : List (String × FileType) → FileType → Option Bytes
type_search [] type = none
type_search ((n, t) ∷ rest) type = if type_eq t type then some (lit n) else type_search rest type

-- `install_file_type_lookup`: `none` where it returns 0.
unfoldable pub install_file_type_lookup : Bytes → Option FileType
unfolding name_search strcmp_eq lit
install_file_type_lookup name = name_search file_type_names name

-- `install_file_type_name_lookup`
unfoldable pub install_file_type_name_lookup : FileType → Option Bytes
unfolding type_search
install_file_type_name_lookup type = type_search file_type_names type

module _ {S : Type 0} (os : Os S) where
  -- The checks of `file_type_lookups`, in its order. Symbolic links exist under POSIX.
  abbrev pub file_type_checks : List ((ℕ → Bool) × FileType)
  file_type_checks =
      (os.s_isreg, file)
      ∷ (os.s_ischr, character_special)
      ∷ (os.s_isdir, directory)
      ∷ (os.s_islnk, symlink)
      ∷ (os.s_issock, socket)
      ∷ (os.s_isfifo, fifo)
      ∷ []

  mode_search : List ((ℕ → Bool) × FileType) → ℕ → Option FileType
  mode_search [] mode = none
  mode_search ((check, t) ∷ rest) mode = if check mode then some t else mode_search rest mode

  -- The type that the mode of a file shows.
  unfoldable pub type_of_info : Option FileInfo → Option FileType
  unfolding mode_search
  type_of_info none = none
  type_of_info (some sb) = mode_search file_type_checks sb.st_mode

  -- `install_file_type`: `none` where it returns 0.
  unfoldable pub install_file_type : Bytes → Bool → M S (Option FileType)
  install_file_type path nofollow =
      proc do sb ← sys (if nofollow then os.lstat path else os.stat path); pure (type_of_info sb)
