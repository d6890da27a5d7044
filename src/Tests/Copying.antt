-- ===== src/Tests/Copying.antt =====
-- The theorems on the check of files at concrete data.
use coreland_c_string.Base.{◌≡◌, refl, arith, some, none, [], ◌∷◌, pos, lit, snprintf_value}
use coreland_c_string.Install.Header.{Status, ok, file}
use coreland_c_string.Install.World.{World, Res, done}
use coreland_c_string.Install.Os.Stdio.{contains, remove}
use coreland_c_string.Install.Posix.{
  install_platform_posix, iposix_error_message_current, iposix_uid_current, iposix_uid_valid,
  iposix_uid_free, iposix_uid_compare, iposix_can_set_ownership, iposix_supports_posix_modes,
  iposix_file_mode_set, iposix_file_ownership_set,
}
use coreland_c_string.Install.Status.{install_status_assign}
use coreland_c_string.Install.Check.{install_file_check}
use coreland_c_string.Install.Check.Installed.{IsInstalled}
use coreland_c_string.Install.Check.Decides.{Decides, install_file_check-Decides}
use coreland_c_string.Install.Copy.{install_file_copy}
use coreland_c_string.Install.Copy.Checked.{Passes, install_file_check-copied}
use coreland_c_string.Tests.Disk.{
  Disk, disk, disk_stat, disk_streams, disk_keeps, disk_files, target_name, blank,
}

-- The end of a copy of the file `source` to the file `b`, for the user 7 and the group 8.
abbrev copy_of_b : Res Disk Status
copy_of_b =
    install_file_copy disk (install_platform_posix disk) 65537 5 (some (lit "source"))
      (some target_name) (pos 7) (pos 8) 0o644 blank

abbrev copied_status : Status
copied_status = record { status = ok; message = none; error_message = some (lit "error") }

abbrev copied_world : World Disk
copied_world = record blank {
  os = record {
    number = 0;
    input = [];
    output = b'a' ∷ b'b' ∷ b'c' ∷ [];
    temp = some (record { st_mode = 0o644; st_uid = pos 7; st_gid = pos 8; st_size = 3 });
    target = some (record { st_mode = 0o644; st_uid = pos 7; st_gid = pos 8; st_size = 3 });
  };
  next_stream = 2;
}

copied_b : copy_of_b ≡ done copied_status copied_world
unfolding install_file_copy install_status_assign contains remove lit snprintf_value
    iposix_error_message_current iposix_uid_current iposix_uid_valid iposix_uid_free
    iposix_uid_compare iposix_can_set_ownership iposix_supports_posix_modes iposix_file_mode_set
    iposix_file_ownership_set
copied_b = refl

install_file_check-copied_example :
    Passes
      (λ s. disk_stat.files s)
      (disk_stat.files copied_world.os)
      (install_file_check disk
        (install_platform_posix disk)
        (some (lit "source"))
        0o644
        file
        (pos 7)
        (pos 8)
        (some target_name)
        copied_world)
unfolding lit
install_file_check-copied_example =
    install_file_check-copied disk disk_stat 65537 5 (lit "source") target_name (pos 7) (pos 8)
      0o644 blank copied_world copied_status disk_streams disk_keeps disk_files (omega arith)
      (omega arith) refl refl refl copied_b refl refl (omega arith) (omega arith) tt

-- The same file for the user 9.
install_file_check-Decides_example :
    Decides
      (λ s. disk_stat.files s)
      (IsInstalled disk
        (disk_stat.files copied_world.os)
        (lit "source")
        target_name
        file
        0o644
        (pos 9)
        (pos 8))
      (disk_stat.files copied_world.os)
      (install_file_check disk
        (install_platform_posix disk)
        (some (lit "source"))
        0o644
        file
        (pos 9)
        (pos 8)
        (some target_name)
        copied_world)
unfolding lit
install_file_check-Decides_example =
    install_file_check-Decides disk disk_stat (lit "source") target_name file 0o644 (pos 9) (pos 8)
      copied_world (omega arith) (omega arith) (omega arith, omega arith) tt
