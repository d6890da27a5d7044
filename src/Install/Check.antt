-- ===== src/Install/Check.antt =====
-- install_uidgid_lookup and install_file_check of install-core.c.
pub mod Laws
pub mod Installed
pub mod Statements
pub mod Owners
pub mod Decides
use coreland_c_string.Base.{
  ℕ, zero, suc, ◌==◌, Bool, true, false, ◌&&◌, not, Option, none, some, List, [], ◌∷◌, ◌++◌, Bytes,
  ℤ, pos, minus_one, ◌==ℤ◌, lit, String, decimal, octal, snprintf_text, if◌then◌else◌,
}
use coreland_c_string.Install.Header.{
  Status, StatusCode, ok, error, Permissions, UserNumber, GroupNumber, null_uid, null_gid,
  null_permissions, FileType, file, character_special, directory, symlink, socket, fifo, max_msglen,
}
use coreland_c_string.Install.World.{
  World, M, Res, done, fault, Exit, next, leave, stop, Proc, proc, call, sys, pure, skip, raise,
  return_now, asserted, assert_that, attempt, ◌>>=◌, ◌>>◌,
}
use coreland_c_string.Install.Os.{Os}
use coreland_c_string.Install.Platform.{Platform}
use coreland_c_string.Install.FileTypes.{install_file_type, install_file_type_name_lookup, type_eq}
use coreland_c_string.Install.Status.{
  install_status_assign, install_permissions_compare, error_status, ok_status, refuse, refuse_if,
  or_refuse, format_uid, format_gid, announce, spaced,
}

-- A status with the identifiers that the result pointers hold.
abbrev pub Lookup : Type 0
Lookup = Status × UserNumber × GroupNumber

module _ {S : Type 0} (platform : Platform S) where
  -- The user number: by name, or the current one.
  abbrev pub find_user : Option Bytes → UserNumber → Proc S Lookup (ℤ × UserNumber)
  find_user none uid = call (platform.uid_current uid)
  find_user (some user) uid = call (platform.uid_lookup user uid)

  abbrev pub find_group : Option Bytes → GroupNumber → Proc S Lookup (ℤ × GroupNumber)
  find_group none gid = call (platform.gid_current gid)
  find_group (some group) gid = call (platform.gid_lookup group gid)

  abbrev pub user_error : Option Bytes → Bytes
  user_error none = lit "could not fetch current user ID"
  user_error (some _) = lit "could not lookup user ID"

  abbrev pub group_error : Option Bytes → Bytes
  group_error none = lit "could not fetch current group ID"
  group_error (some _) = lit "could not lookup group ID"

  -- `install_uidgid_lookup`
  unfoldable pub install_uidgid_lookup :
      Option Bytes → UserNumber → Option Bytes → GroupNumber → M S Lookup
  install_uidgid_lookup user uid group gid = proc do
    old_uid ← call (platform.uid_valid uid)
    assert_that (old_uid ==ℤ pos 0)
    old_gid ← call (platform.gid_valid gid)
    assert_that (old_gid ==ℤ pos 0)
    u ← find_user user uid
    if u.0 ==ℤ pos 0
        then (do status ← error_status platform (user_error user); return_now (status, u.1, gid))
        else skip
    g ← find_group group gid
    if g.0 ==ℤ pos 0
        then (do
          status ← error_status platform (group_error group)
          call (platform.gid_free g.1)
          return_now (status, u.1, g.1))
        else skip
    new_uid ← call (platform.uid_valid u.1)
    assert_that (not (new_uid ==ℤ pos 0))
    new_gid ← call (platform.gid_valid g.1)
    assert_that (not (new_gid ==ℤ pos 0))
    status ← ok_status platform
    pure (status, u.1, g.1)

abbrev pub is_file : FileType → Bool
is_file type = type_eq type file

abbrev pub is_symlink : FileType → Bool
is_symlink type = type_eq type symlink

module _ {S : Type 0} (os : Os S) (platform : Platform S) where
  -- A message of a failed comparison, in the static buffer.
  abbrev pub differs : Bytes → Bytes → Bytes → Bytes
  differs what got want = snprintf_text max_msglen (spaced (what ∷ got ∷ lit "not" ∷ want ∷ []))

  -- The comparison of sizes.
  unfoldable pub check_size : FileType → Bytes → ℕ → Proc S Status (Unit {0})
  check_size type_want dst size_want =
      if is_file type_want
      then (do
        got ← call (platform.file_size dst 0)
        refuse_if platform (got.0 ==ℤ pos 0) "could not determine destination file size"
        if size_want == got.1
            then skip
            else refuse platform (differs (lit "size") (decimal got.1) (decimal size_want)))
      else skip

  -- The comparison of permissions.
  unfoldable pub check_mode : Bytes → Permissions → Proc S Status (Unit {0})
  check_mode dst mode_want = do
    modes ← call platform.supports_posix_modes
    if modes ==ℤ pos 1
        then (do
          got ← call (platform.file_mode_get dst null_permissions)
          refuse_if platform (got.0 ==ℤ pos 0) "could not determine destination file mode"
          if install_permissions_compare got.1 mode_want ==ℤ pos 0
              then refuse platform (differs (lit "mode") (octal got.1) (octal mode_want))
              else skip)
        else skip

  -- The comparison of owners, up to the label `END`.
  unfoldable pub check_ownership :
      Bytes
      → UserNumber
      → GroupNumber
      → Bytes
      → Bytes
      → Proc S (Status × UserNumber × GroupNumber) (Status × UserNumber × GroupNumber)
  check_ownership dst uid_want gid_want uid_want_str gid_want_str = do
    got ← call (platform.file_ownership_get dst null_uid null_gid)
    if got.0 ==ℤ pos 0
        then (do
          status ← error_status platform (lit "could not determine destination file ownership")
          return_now (status, got.1, got.2))
        else skip
    uid_got_str ← format_uid platform got.1
    gid_got_str ← format_gid platform got.2
    same_uid ← call (platform.uid_compare uid_want got.1)
    if same_uid ==ℤ pos 0
        then (do
          status ← error_status platform (differs (lit "uid") uid_got_str uid_want_str)
          return_now (status, got.1, got.2))
        else skip
    same_gid ← call (platform.gid_compare gid_want got.2)
    if same_gid ==ℤ pos 0
        then (do
          status ← error_status platform (differs (lit "gid") gid_got_str gid_want_str)
          return_now (status, got.1, got.2))
        else skip
    status ← ok_status platform
    pure (status, got.1, got.2)

  -- The type test: `(supports_symlinks () == 0) && (type_want != SYMLINK)` guards it.
  unfoldable pub check_type : FileType → Bytes → Bytes → Proc S Status (Unit {0})
  check_type type_want type_want_name dst = do
    type_found ← call (install_file_type os dst (is_symlink type_want))
    type_got ← or_refuse platform type_found "could not determine destination file type"
    type_got_name ←
        or_refuse platform (install_file_type_name_lookup type_got) "unknown destination file type"
    symlinks ← call platform.supports_symlinks
    if (symlinks ==ℤ pos 0) && not (is_symlink type_want)
        then (if type_eq type_want type_got
            then skip
            else refuse platform (differs (lit "filetype") type_got_name type_want_name))
        else skip

  -- `install_file_check`
  unfoldable pub install_file_check :
      Option Bytes → Permissions → FileType → UserNumber → GroupNumber → Option Bytes → M S Status
  unfolding check_size check_mode check_ownership check_type
  install_file_check file_src mode_want type_want uid_want gid_want file_dst = proc do
    src ← asserted file_src
    dst ← asserted file_dst
    call platform.error_reset
    type_want_name ←
        or_refuse platform (install_file_type_name_lookup type_want) "unknown source filetype"
    size ← if is_file type_want then call (platform.file_size src 0) else pure (pos 1, 0)
    refuse_if platform (size.0 ==ℤ pos 0) "could not determine source file size"
    uid_want_str ← format_uid platform uid_want
    gid_want_str ← format_gid platform gid_want
    announce (
        pure (
          spaced (
            lit "check"
            ∷ src
            ∷ dst
            ∷ uid_want_str
            ∷ gid_want_str
            ∷ octal mode_want
            ∷ type_want_name
            ∷ decimal size.1
            ∷ [])))
    check_type type_want type_want_name dst
    check_size type_want dst size.1
    check_mode dst mode_want
    result ← call (proc (check_ownership dst uid_want gid_want uid_want_str gid_want_str))
    call (platform.uid_free result.1)
    call (platform.gid_free result.2)
    pure result.0
