-- ===== src/Install/Windows.antt =====
-- install-win32.c: the platform's callbacks over the Windows API.
pub mod Api
pub mod Sids
pub mod Files
pub mod Valid
use coreland_c_string.Base.{
  ◌++◌, drop, ℕ, zero, suc, ◌+◌, ◌%◌, ◌^◌, ◌==◌, [], ltb, leb, Bool, true, false, ◌&&◌, Option,
  none, some, Bytes, lit, length, ℤ, pos, minus_one, ◌==ℤ◌, of_bool, not, if◌then◌else◌,
}
use coreland_c_string.Install.Header.{
  Status, StatusCode, status_init, ok, error, fatal, Permissions, UserNumber, GroupNumber, null_uid,
  null_gid,
}
use coreland_c_string.Install.Platform.{Platform}
use coreland_c_string.Install.Windows.Api.{
  Win32, Statics, run_api, buffer_size, unlen, error_insufficient_buffer, SecurityPart, owner_part,
  group_part,
}
use coreland_c_string.Install.World.{
  World, M, Proc, Callback, proc, call, pure, gets, modify, assert_that, return_now, skip, ◌>>=◌,
  ◌>>◌,
}
use coreland_c_string.Install.Windows.Sids.{
  is_null, windows, unless, iwin32_get_sid, iwin32_user_name_current, iwin32_error_current,
  iwin32_error_message, iwin32_error_message_current, iwin32_error_reset, iwin32_gid_compare,
  iwin32_uid_compare, iwin32_gid_format, iwin32_uid_format, iwin32_gid_scan, iwin32_uid_scan,
  iwin32_gid_current, iwin32_gid_lookup, iwin32_gid_valid, iwin32_gid_free, iwin32_uid_lookup,
  iwin32_uid_current, iwin32_uid_valid, iwin32_uid_free,
}
use coreland_c_string.Install.Windows.Files.{
  Core, iwin32_mkdir, iwin32_file_mode_set, iwin32_file_mode_get, iwin32_file_set_sid,
  iwin32_file_ownership_set, iwin32_file_get_sid, iwin32_file_ownership_get, iwin32_file_size,
  iwin32_umask, iwin32_can_set_ownership, iwin32_supports_symlinks, iwin32_supports_posix_modes,
  iwin32_file_link,
}

module _ {T : Type 0} (win : Win32 T) (core : Core (Statics T)) where
  -- `install_status_assign` where the lookup has failed
  abbrev init_status : ℤ → Proc (Statics T) Status Status
  init_status found =
      if found ==ℤ pos 0
      then call (core.assign_error (lit "could not fetch Administrator user ID"))
      else pure (record status_init { status = ok })

  -- `memcpy (inst_exec_suffix, ".exe", 4)` writes four bytes of the suffix.
  unfoldable pub iwin32_init : M (Statics T) Status
  unfolding iwin32_uid_lookup
  iwin32_init = proc do
    administrator ← gets (λ w. w.os.administrator_id)
    found ← call (iwin32_uid_lookup win (lit "Administrator") administrator)
    modify (λ w. record w { os = record w.os { administrator_id = found.1 } })
    status ← init_status found.0
    modify (λ w. record w { exec_suffix = lit ".exe" ++ drop 4 w.exec_suffix })
    pure status

  -- The table at the end of the file.
  abbrev pub install_platform_win32 : Platform (Statics T)
  install_platform_win32 = record {
    init = iwin32_init;
    error_message = iwin32_error_message win;
    error_message_current = iwin32_error_message_current win;
    error_current = iwin32_error_current win;
    error_reset = iwin32_error_reset win;
    gid_compare = iwin32_gid_compare win;
    gid_format = iwin32_gid_format win;
    gid_current = iwin32_gid_current win;
    gid_lookup = iwin32_gid_lookup win;
    gid_valid = iwin32_gid_valid win;
    gid_free = iwin32_gid_free win;
    uid_compare = iwin32_uid_compare win;
    uid_format = iwin32_uid_format win;
    uid_current = iwin32_uid_current win;
    uid_lookup = iwin32_uid_lookup win;
    uid_valid = iwin32_uid_valid win;
    uid_free = iwin32_uid_free win;
    make_dir = iwin32_mkdir win;
    file_mode_get = iwin32_file_mode_get win;
    file_mode_set = iwin32_file_mode_set win;
    file_ownership_get = iwin32_file_ownership_get win;
    file_ownership_set = iwin32_file_ownership_set win;
    file_size = iwin32_file_size win;
    file_link = iwin32_file_link win core;
    can_set_ownership = iwin32_can_set_ownership win;
    supports_symlinks = iwin32_supports_symlinks win;
    supports_posix_modes = iwin32_supports_posix_modes win;
    umask = iwin32_umask win;
  }
