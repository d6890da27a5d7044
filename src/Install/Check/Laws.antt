-- ===== src/Install/Check/Laws.antt =====
-- What the type test of install_file_check comes to on a POSIX system.
use coreland_c_string.Base.{◌≡◌, refl, Bytes, some, if◌then◌else◌}
use coreland_c_string.Install.Header.{FileType}
use coreland_c_string.Install.World.{World, next}
use coreland_c_string.Install.Os.{Os, FileInfo}
use coreland_c_string.Install.Posix.{install_platform_posix, iposix_supports_symlinks}
use coreland_c_string.Install.FileTypes.{install_file_type, type_of_info}
use coreland_c_string.Install.FileTypes.Laws.{lookup-name_lookup}
use coreland_c_string.Install.Check.{check_type, is_symlink}

module _ {S : Type 0} (os : Os S) where
  -- On a POSIX system the test of the file type in install_file_check refuses no destination whose
  -- type is known, whatever type is wanted.
  pub check_type-posix :
      (type_want found : FileType) (name dst : Bytes) (w : World S) (sb : FileInfo) (s : S)
      → (if is_symlink type_want then os.lstat dst else os.stat dst) w.os ≡ (some sb, s)
      → type_of_info os (some sb) ≡ some found
      → check_type os (install_platform_posix os) type_want name dst w
        ≡ next tt (record w { os = s })
  unfolding check_type install_file_type iposix_supports_symlinks
  check_type-posix type_want found name dst w sb s looked known =
      let (n, named, _) = lookup-name_lookup found in rw (looked, known, named) refl
