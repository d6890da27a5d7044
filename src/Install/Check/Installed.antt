-- ===== src/Install/Check/Installed.antt =====
-- What install_file_check of install-core.c is to find out under POSIX: that a file is installed.
use coreland_c_string.Base.{
  ℕ, ◌%◌, ◌^◌, ◌≡◌, ◌≢◌, true, Option, none, some, Bytes, bit_and, if◌then◌else◌,
}
use coreland_c_string.Base.Digits.{IsInt}
use coreland_c_string.Install.Header.{FileType, Permissions, UserNumber, GroupNumber}
use coreland_c_string.Install.World.{Callback}
use coreland_c_string.Install.Os.{Os, FileInfo}
use coreland_c_string.Install.FileTypes.{type_of_info}
use coreland_c_string.Install.Check.{is_file, is_symlink}

-- What `stat` and `lstat` tell of each path.
pub record Files : Type 0 where
  pub followed : Bytes → Option FileInfo
  pub unfollowed : Bytes → Option FileInfo

-- There is a file, and the predicate holds of it.
abbrev pub Has : Option FileInfo → (FileInfo → Type 0) → Type 0
Has none P = ⊥
Has (some sb) P = P sb

-- `stat` and `lstat` tell of the files and change none, and `errno` is no file.
pub record StatLaws {S : Type 0} (os : Os S) : Type 0 where
  pub files : S → Files
  pub stat_tells : (path : Bytes) (s : S) → (os.stat path s).0 ≡ (files s).followed path
  pub lstat_tells : (path : Bytes) (s : S) → (os.lstat path s).0 ≡ (files s).unfollowed path
  pub stat_keeps : (path : Bytes) (s : S) → files (os.stat path s).1 ≡ files s
  pub lstat_keeps : (path : Bytes) (s : S) → files (os.lstat path s).1 ≡ files s
  pub errno_keeps : (n : ℕ) (s : S) → files (os.set_errno n s) ≡ files s

-- A callback that changes no file.
abbrev pub IsQuiet : {S : Type 0} → (S → Files) → Option (Callback S) → Type 0
IsQuiet files none = Unit
IsQuiet {S} files (some info) =
    (text : Bytes) (pointer : ℕ) (s : S) → files (info text pointer s) ≡ files s

-- `off_t` as a `size_t`
abbrev pub recorded_size : Option FileInfo → ℕ
recorded_size none = 0
recorded_size (some sb) = sb.st_size % 2 ^ 64

-- The owner is a pair of `int`s.
abbrev pub HasIntOwner : Option FileInfo → Type 0
HasIntOwner none = Unit
HasIntOwner (some sb) = IsInt sb.st_uid × IsInt sb.st_gid

-- The destination is there, with the size of the source if a file is wanted, and with the wanted
-- mode and owner, and its type is one of those known.
pub record IsInstalled {S : Type 0} (os : Os S) (files : Files) (src dst : Bytes) (type : FileType)
    (mode : Permissions) (uid : UserNumber) (gid : GroupNumber) : Type 0 where
  pub has_source : is_file type ≡ true → Has (files.followed src) (λ sb. Unit)
  pub of_known_type :
      type_of_info os (if is_symlink type then files.unfollowed dst else files.followed dst) ≢ none
  pub of_size :
      is_file type ≡ true
      → Has (files.followed dst) (λ sb. recorded_size (files.followed src) ≡ sb.st_size % 2 ^ 64)
  pub of_mode : Has (files.followed dst) (λ sb. bit_and sb.st_mode 0o755 ≡ mode)
  pub of_owner : Has (files.followed dst) (λ sb. (uid ≡ sb.st_uid) × (gid ≡ sb.st_gid))
