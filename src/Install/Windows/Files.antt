-- ===== src/Install/Windows/Files.antt =====
-- install-win32.c: directories, files and what the platform can do.
use coreland_c_string.Base.{
  ℕ, ◌%◌, ◌^◌, Option, none, some, Bytes, lit, ℤ, pos, ◌==ℤ◌, of_bool, not,
}
use coreland_c_string.Install.Header.{
  Status, StatusCode, ok, error, fatal, Permissions, UserNumber, GroupNumber, null_uid, null_gid,
}
use coreland_c_string.Install.Windows.Api.{Win32, Statics, SecurityPart, owner_part, group_part}
use coreland_c_string.Install.World.{
  M, Proc, Callback, proc, call, pure, gets, modify, assert_that, skip, ◌>>=◌, ◌>>◌,
}
use coreland_c_string.Install.Windows.Sids.{is_null, windows, unless, iwin32_uid_compare}

-- The two functions of install-core.c that the file calls: `install_status_assign` with
-- INSTALL_STATUS_ERROR, and `install_file_copy`.
pub record Core (S : Type 0) : Type 0 where
  pub assign_error : Bytes → M S Status
  pub file_copy : Bytes → Bytes → UserNumber → GroupNumber → Permissions → M S Status

-- `status.status == INSTALL_STATUS_OK`
abbrev ok_value : StatusCode → ℤ
ok_value ok = pos 1
ok_value error = pos 0
ok_value fatal = pos 0

module _ {T : Type 0} (win : Win32 T) where
  unfoldable pub iwin32_mkdir : Bytes → Permissions → M (Statics T) ℤ
  iwin32_mkdir dir mode = proc do r ← windows (win.make_dir dir); pure (of_bool (r ==ℤ pos 0))

  unfoldable pub iwin32_file_mode_set : Bytes → Permissions → M (Statics T) ℤ
  iwin32_file_mode_set file mode = proc (pure (pos 1))

  unfoldable pub iwin32_file_mode_get : Bytes → Permissions → M (Statics T) (ℤ × Permissions)
  iwin32_file_mode_get file mode = proc (pure (pos 1, 0))

  unfoldable pub iwin32_file_set_sid : Bytes → ℤ → M (Statics T) ℤ
  iwin32_file_set_sid file sid = proc do
    initialized ← windows win.initialize_descriptor
    unless initialized (pos 0)
    owned ← windows (win.set_descriptor_owner sid)
    unless owned (pos 0)
    valid ← windows win.is_valid_descriptor
    unless valid (pos 0)
    stored ← windows (win.set_file_security file)
    unless stored (pos 0)
    pure (pos 1)

  -- `iwin32_file_ownership_set`, which does not read the group
  unfoldable pub iwin32_file_ownership_set : Bytes → UserNumber → GroupNumber → M (Statics T) ℤ
  unfolding iwin32_file_set_sid
  iwin32_file_ownership_set file uid gid = proc do
    stored ← call (iwin32_file_set_sid file uid)
    unless (not (stored ==ℤ pos 0)) (pos 0)
    pure (pos 1)

  -- The copy of a SID that a descriptor gives.
  abbrev copy_owner : ℤ → ℕ → Option ℤ → Proc (Statics T) (ℤ × ℤ) (ℤ × ℤ)
  copy_owner old sd_size none = pure (pos 0, old)
  copy_owner old sd_size (some sid) = do
    valid ← windows (win.is_valid_sid sid)
    unless valid (pos 0, old)
    copy ← windows (win.malloc sd_size)
    unless (not (is_null copy)) (pos 0, null_uid)
    copied ← windows (win.copy_sid sd_size copy sid)
    unless copied (pos 0, copy)
    pure (pos 1, copy)

  -- `iwin32_file_get_owner` and `iwin32_file_get_group`, which differ in the part they read
  unfoldable pub iwin32_file_get_sid : SecurityPart → Bytes → ℤ → M (Statics T) (ℤ × ℤ)
  iwin32_file_get_sid part file old = proc do
    initialized ← windows win.initialize_descriptor
    unless initialized (pos 0, old)
    read ← windows (win.get_file_security file part 256)
    unless read.0 (pos 0, old)
    sid ← windows (win.descriptor_sid part)
    copy_owner old read.1 sid

  unfoldable pub iwin32_file_get_owner : Bytes → UserNumber → M (Statics T) (ℤ × UserNumber)
  unfolding iwin32_file_get_sid
  iwin32_file_get_owner file uid = iwin32_file_get_sid owner_part file uid

  unfoldable pub iwin32_file_get_group : Bytes → GroupNumber → M (Statics T) (ℤ × GroupNumber)
  unfolding iwin32_file_get_sid
  iwin32_file_get_group file gid = iwin32_file_get_sid group_part file gid

  unfoldable pub iwin32_file_ownership_get :
      Bytes → UserNumber → GroupNumber → M (Statics T) (ℤ × UserNumber × GroupNumber)
  unfolding iwin32_file_get_owner iwin32_file_get_group
  iwin32_file_ownership_get file uid gid = proc do
    owner ← call (iwin32_file_get_owner file uid)
    unless (not (owner.0 ==ℤ pos 0)) (pos 0, owner.1, gid)
    group ← call (iwin32_file_get_group file gid)
    unless (not (group.0 ==ℤ pos 0)) (pos 0, owner.1, group.1)
    pure (pos 1, owner.1, group.1)

  -- `*size = sb.st_size`, a `size_t` of 64 bits
  abbrev stat_size : ℕ → Option ℕ → ℤ × ℕ
  stat_size old none = (pos 0, old)
  stat_size old (some size) = (pos 1, size % 2 ^ 64)

  unfoldable pub iwin32_file_size : Bytes → ℕ → M (Statics T) (ℤ × ℕ)
  iwin32_file_size file size =
      proc do found ← windows (win.file_stat file); pure (stat_size size found)

  -- `if (install_callback_warn) install_callback_warn (text, install_callback_data);`
  abbrev warn : {R : Type 0} → Option (Callback (Statics T)) → Bytes → Proc (Statics T) R (Unit {0})
  warn none text = skip
  warn (some f) text = modify (λ w. record w { os = f text w.callback_data w.os })

  unfoldable pub iwin32_umask : ℕ → M (Statics T) ℕ
  iwin32_umask m = proc (pure m)

  unfoldable pub iwin32_can_set_ownership : UserNumber → M (Statics T) ℤ
  unfolding iwin32_uid_compare
  iwin32_can_set_ownership uid = proc do
    assert_that (not (is_null uid))
    administrator ← gets (λ w. w.os.administrator_id)
    r ← call (iwin32_uid_compare win uid administrator)
    pure (of_bool (r ==ℤ pos 1))

  unfoldable pub iwin32_supports_symlinks : M (Statics T) ℤ
  iwin32_supports_symlinks = proc (pure (pos 0))

  unfoldable pub iwin32_supports_posix_modes : M (Statics T) ℤ
  iwin32_supports_posix_modes = proc (pure (pos 0))

  module _ (core : Core (Statics T)) where
    unfoldable pub iwin32_file_link : Bytes → Bytes → M (Statics T) ℤ
    unfolding iwin32_file_ownership_get iwin32_file_mode_get
    iwin32_file_link src dst = proc do
      callback ← gets (λ w. w.callback_warn)
      warn callback (lit "Filesystem does not support symlinks - copying")
      owner ← call (iwin32_file_ownership_get src null_uid null_gid)
      unless (not (owner.0 ==ℤ pos 0)) (pos 0)
      mode ← call (iwin32_file_mode_get src 0)
      unless (not (mode.0 ==ℤ pos 0)) (pos 0)
      status ← call (core.file_copy src dst owner.1 owner.2 mode.1)
      pure (ok_value status.status)
