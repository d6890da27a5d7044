-- ===== src/Install/Posix.antt =====
-- install-posix.c: the platform's callbacks over the system calls.
use coreland_c_string.Base.{
  ℕ, ◌%◌, ◌^◌, Option, none, some, [], Bytes, ℤ, pos, minus_one, ◌==ℤ◌, of_bool, not, to_unsigned,
  snprintf_text, snprintf_value, signed_decimal, bit_and,
}
use coreland_c_string.Install.Header.{
  Status, status_init, ok, Permissions, UserNumber, GroupNumber, fmt_uid, fmt_gid,
}
use coreland_c_string.Install.World.{M, proc, sys, pure, gets, modify, assert_that, ◌>>=◌, ◌>>◌}
use coreland_c_string.Install.Os.{Os, FileInfo}
use coreland_c_string.Install.Platform.{Platform}

-- `snprintf (buffer, size, "%d", value)`: the text in the buffer, and the value returned.
abbrev format_int : ℕ → ℤ → Bytes × ℕ
format_int size value =
    (snprintf_text size (signed_decimal value), to_unsigned (snprintf_value (signed_decimal value)))

module _ {S : Type 0} (os : Os S) where
  unfoldable pub iposix_init : M S Status
  iposix_init =
      proc do modify (λ w. record w { exec_suffix = [] }); pure (record status_init { status = ok })

  unfoldable pub iposix_error_current : M S ℕ
  iposix_error_current = proc (gets (λ w. os.errno w.os % 2 ^ 64))

  unfoldable pub iposix_error_message : ℕ → M S Bytes
  iposix_error_message error = proc (pure (os.strerror error))

  unfoldable pub iposix_error_message_current : M S Bytes
  iposix_error_message_current = proc (gets (λ w. os.strerror (os.errno w.os % 2 ^ 64)))

  unfoldable pub iposix_error_reset : M S (Unit {0})
  iposix_error_reset = proc (modify (λ w. record w { os = os.set_errno 0 w.os }))

  unfoldable pub iposix_gid_compare : GroupNumber → GroupNumber → M S ℤ
  iposix_gid_compare a b = proc (pure (of_bool (a ==ℤ b)))

  unfoldable pub iposix_gid_format : GroupNumber → M S (Bytes × ℕ)
  iposix_gid_format gid = proc (pure (format_int fmt_gid gid))

  unfoldable pub iposix_gid_current : GroupNumber → M S (ℤ × GroupNumber)
  iposix_gid_current gid = proc do g ← sys os.getgid; pure (pos 1, g)

  -- The new value of the group, or the old one, for what `getgrnam` gives.
  abbrev found : ℤ → Option ℤ → ℤ × ℤ
  found old none = (pos 0, old)
  found old (some n) = (pos 1, n)

  unfoldable pub iposix_gid_lookup : Bytes → GroupNumber → M S (ℤ × GroupNumber)
  iposix_gid_lookup group gid = proc do grp ← sys (os.getgrnam group); pure (found gid grp)

  -- The return value as an `unsigned int`, and the value, the old one if nothing was converted.
  abbrev scanned : ℤ → ℤ × Option ℤ → ℕ × ℤ
  scanned old (size, none) = (to_unsigned size, old)
  scanned old (size, some value) = (to_unsigned size, value)

  unfoldable pub iposix_gid_scan : Bytes → GroupNumber → M S (ℕ × GroupNumber)
  iposix_gid_scan buffer gid = proc (pure (scanned gid (os.sscanf_int buffer)))

  unfoldable pub iposix_uid_scan : Bytes → UserNumber → M S (ℕ × UserNumber)
  iposix_uid_scan buffer uid = proc (pure (scanned uid (os.sscanf_int buffer)))

  unfoldable pub iposix_user_name_current : M S (Option Bytes)
  iposix_user_name_current = proc (sys os.getlogin)

  unfoldable pub iposix_gid_valid : GroupNumber → M S ℤ
  iposix_gid_valid gid = proc (pure (of_bool (not (gid ==ℤ minus_one))))

  unfoldable pub iposix_gid_free : GroupNumber → M S (Unit {0})
  iposix_gid_free gid = proc (pure tt)

  unfoldable pub iposix_uid_compare : UserNumber → UserNumber → M S ℤ
  iposix_uid_compare a b = proc (pure (of_bool (a ==ℤ b)))

  unfoldable pub iposix_uid_format : UserNumber → M S (Bytes × ℕ)
  iposix_uid_format uid = proc (pure (format_int fmt_uid uid))

  unfoldable pub iposix_uid_current : UserNumber → M S (ℤ × UserNumber)
  iposix_uid_current uid = proc do u ← sys os.getuid; pure (pos 1, u)

  unfoldable pub iposix_uid_lookup : Bytes → UserNumber → M S (ℤ × UserNumber)
  iposix_uid_lookup user uid = proc do pwd ← sys (os.getpwnam user); pure (found uid pwd)

  unfoldable pub iposix_uid_valid : UserNumber → M S ℤ
  iposix_uid_valid uid = proc (pure (of_bool (not (uid ==ℤ minus_one))))

  unfoldable pub iposix_uid_free : UserNumber → M S (Unit {0})
  iposix_uid_free uid = proc (pure tt)

  unfoldable pub iposix_mkdir : Bytes → Permissions → M S ℤ
  iposix_mkdir dir mode = proc do r ← sys (os.mkdir dir mode); pure (of_bool (r ==ℤ pos 0))

  unfoldable pub iposix_file_mode_set : Bytes → Permissions → M S ℤ
  iposix_file_mode_set file mode =
      proc do r ← sys (os.chmod file mode); pure (of_bool (r ==ℤ pos 0))

  -- `sb.st_mode & 0755`
  abbrev pub read_mode : Permissions → Option FileInfo → ℤ × Permissions
  read_mode old none = (pos 0, old)
  read_mode old (some sb) = (pos 1, bit_and sb.st_mode 0o755)

  unfoldable pub iposix_file_mode_get : Bytes → Permissions → M S (ℤ × Permissions)
  iposix_file_mode_get file mode = proc do sb ← sys (os.stat file); pure (read_mode mode sb)

  unfoldable pub iposix_file_ownership_set : Bytes → UserNumber → GroupNumber → M S ℤ
  iposix_file_ownership_set file uid gid =
      proc do r ← sys (os.chown file uid gid); pure (of_bool (not (r ==ℤ minus_one)))

  abbrev pub read_ownership :
      UserNumber → GroupNumber → Option FileInfo → ℤ × UserNumber × GroupNumber
  read_ownership uid gid none = (pos 0, uid, gid)
  read_ownership uid gid (some sb) = (pos 1, sb.st_uid, sb.st_gid)

  unfoldable pub iposix_file_ownership_get :
      Bytes → UserNumber → GroupNumber → M S (ℤ × UserNumber × GroupNumber)
  iposix_file_ownership_get file uid gid =
      proc do sb ← sys (os.stat file); pure (read_ownership uid gid sb)

  -- `*size = sb.st_size`, a `size_t` of 64 bits
  abbrev pub read_size : ℕ → Option FileInfo → ℤ × ℕ
  read_size old none = (pos 0, old)
  read_size old (some sb) = (pos 1, sb.st_size % 2 ^ 64)

  unfoldable pub iposix_file_size : Bytes → ℕ → M S (ℤ × ℕ)
  iposix_file_size file size = proc do sb ← sys (os.stat file); pure (read_size size sb)

  unfoldable pub iposix_file_link : Bytes → Bytes → M S ℤ
  iposix_file_link src dst =
      proc do r ← sys (os.symlink src dst); pure (of_bool (not (r ==ℤ minus_one)))

  unfoldable pub iposix_umask : ℕ → M S ℕ
  iposix_umask m = proc (sys (os.umask m))

  unfoldable pub iposix_can_set_ownership : UserNumber → M S ℤ
  iposix_can_set_ownership uid =
      proc do assert_that (not (uid ==ℤ minus_one)); pure (of_bool (uid ==ℤ pos 0))

  unfoldable pub iposix_supports_symlinks : M S ℤ
  iposix_supports_symlinks = proc (pure (pos 1))

  unfoldable pub iposix_supports_posix_modes : M S ℤ
  iposix_supports_posix_modes = proc (pure (pos 1))

  -- The table at the end of the file.
  abbrev pub install_platform_posix : Platform S
  install_platform_posix = record {
    init = iposix_init;
    error_message = iposix_error_message;
    error_message_current = iposix_error_message_current;
    error_current = iposix_error_current;
    error_reset = iposix_error_reset;
    gid_compare = iposix_gid_compare;
    gid_format = iposix_gid_format;
    gid_current = iposix_gid_current;
    gid_lookup = iposix_gid_lookup;
    gid_valid = iposix_gid_valid;
    gid_free = iposix_gid_free;
    uid_compare = iposix_uid_compare;
    uid_format = iposix_uid_format;
    uid_current = iposix_uid_current;
    uid_lookup = iposix_uid_lookup;
    uid_valid = iposix_uid_valid;
    uid_free = iposix_uid_free;
    make_dir = iposix_mkdir;
    file_mode_get = iposix_file_mode_get;
    file_mode_set = iposix_file_mode_set;
    file_ownership_get = iposix_file_ownership_get;
    file_ownership_set = iposix_file_ownership_set;
    file_size = iposix_file_size;
    file_link = iposix_file_link;
    can_set_ownership = iposix_can_set_ownership;
    supports_symlinks = iposix_supports_symlinks;
    supports_posix_modes = iposix_supports_posix_modes;
    umask = iposix_umask;
  }
