-- ===== src/Install/Copy.antt =====
-- install_file_copy of install-core.c: the copy of a file through a temporary name.
pub mod Content
pub mod Streams
pub mod Ways
pub mod Whole
pub mod Temporary
pub mod Placed
pub mod Checked
use coreland_c_string.Base.{
  ℕ, zero, suc, ◌==◌, Bool, true, false, ◌&&◌, not, Option, none, some, List, [], ◌∷◌, ◌++◌, Bytes,
  length, drop, ℤ, pos, minus_one, ◌==ℤ◌, of_bool, is_negative, lit, String, snprintf_text,
  snprintf_value, if◌then◌else◌,
}
use coreland_c_string.Install.Header.{
  Status, StatusCode, ok, error, Permissions, UserNumber, GroupNumber, null_uid, max_pathlen,
}
use coreland_c_string.Install.World.{
  World, M, Res, done, fault, Exit, next, leave, stop, Proc, proc, call, sys, pure, skip, raise,
  return_now, asserted, assert_that, attempt, out_of_fuel, ◌>>=◌, ◌>>◌,
}
use coreland_c_string.Install.Os.{Os}
use coreland_c_string.Install.Os.Stdio.{fopen, fread, fwrite, feof, ferror, fflush, fclose}
use coreland_c_string.Install.Platform.{Platform}
use coreland_c_string.Install.Status.{
  install_status_assign, error_status, ok_status, refuse, refuse_if, or_refuse,
}

-- `sizeof (copy_buf)`
abbrev pub copy_buf_size : ℕ
copy_buf_size = 65536

module _ {S : Type 0} (os : Os S) (platform : Platform S) where
  -- A round of `while (r > 0) { w = fwrite (copy_ptr, 1, r, fd_dst); … }`; `again` is the next one.
  unfoldable pub write_round :
      (Bytes → Proc S Status (Unit {0})) → ℕ → Bytes → Proc S Status (Unit {0})
  write_round again fd_dst [] = skip
  write_round again fd_dst (b ∷ bs) = do
    w ← fwrite os fd_dst (b ∷ bs)
    if w == 0
        then (do
          ended ← feof os fd_dst
          if ended then skip else (do
            failed ← ferror os fd_dst
            refuse_if platform failed "write error"
            again (b ∷ bs)))
        else again (drop w (b ∷ bs))

  unfoldable pub write_block : ℕ → ℕ → Bytes → Proc S Status (Unit {0})
  unfolding write_round
  write_block zero fd_dst bytes = raise out_of_fuel
  write_block (suc fuel) fd_dst bytes = write_round (write_block fuel fd_dst) fd_dst bytes

  -- A round of `for (;;) { r = fread (copy_buf, 1, sizeof (copy_buf), fd_src); … }`; `writes` is
  -- the fuel of the inner loop.
  unfoldable pub copy_round : Proc S Status (Unit {0}) → ℕ → ℕ → ℕ → Proc S Status (Unit {0})
  unfolding write_block
  copy_round again writes fd_src fd_dst = do
    block ← fread os fd_src copy_buf_size
    if length block == 0
        then (do
          ended ← feof os fd_src
          if ended
              then skip
              else (do failed ← ferror os fd_src; refuse_if platform failed "read error"; again))
        else (do write_block writes fd_dst block; again)

  unfoldable pub copy_loop : ℕ → ℕ → ℕ → ℕ → Proc S Status (Unit {0})
  unfolding copy_round
  copy_loop writes zero fd_src fd_dst = raise out_of_fuel
  copy_loop writes (suc fuel) fd_src fd_dst =
      copy_round (copy_loop writes fuel fd_src fd_dst) writes fd_src fd_dst

  -- The attributes of the new file, before it gets its name.
  unfoldable pub set_attributes :
      Bytes → UserNumber → UserNumber → GroupNumber → Permissions → Proc S Status (Unit {0})
  set_attributes dst_tmp process_uid uid gid mode = do
    modes ← call platform.supports_posix_modes
    if modes ==ℤ pos 1
        then (do
          set ← call (platform.file_mode_set dst_tmp mode)
          refuse_if platform (set ==ℤ pos 0) "could not set file permissions")
        else skip
    can_change_owner ← call (platform.can_set_ownership process_uid)
    same ← call (platform.uid_compare process_uid uid)
    let want_change_owner = of_bool (same ==ℤ pos 0)
    refuse_if platform ((can_change_owner ==ℤ pos 0) && (want_change_owner ==ℤ pos 1))
        "current user ID is restricted from setting file ownership"
    if (can_change_owner ==ℤ pos 1) && (want_change_owner ==ℤ pos 1)
        then (do
          set ← call (platform.file_ownership_set dst_tmp uid gid)
          refuse_if platform (set ==ℤ pos 0) "could not set file ownership")
        else skip

  -- `fclose (fd_dst)`, `fclose (fd_src)` and `rename`
  unfoldable pub finish_copy : ℕ → ℕ → Bytes → Bytes → Proc S Status (Unit {0})
  finish_copy fd_src fd_dst dst_tmp dst = do
    closed ← fclose os fd_dst
    refuse_if platform (closed ==ℤ minus_one) "could not close destination file"
    closed_src ← fclose os fd_src
    refuse_if platform (closed_src ==ℤ minus_one) "could not close source file"
    renamed ← sys (os.rename dst_tmp dst)
    refuse_if platform (renamed ==ℤ minus_one) "could not rename temporary file"

  -- From the copying loop to `rename`, with `goto ERR` as a return.
  unfoldable pub copy_open :
      ℕ
      → ℕ
      → ℕ
      → ℕ
      → Bytes
      → Bytes
      → UserNumber
      → UserNumber
      → GroupNumber
      → Permissions
      → Proc S Status (Unit {0})
  unfolding copy_loop set_attributes finish_copy
  copy_open writes fuel fd_src fd_dst dst_tmp dst process_uid uid gid mode = do
    copy_loop writes fuel fd_src fd_dst
    flushed ← fflush os fd_dst
    refuse_if platform (not (flushed ==ℤ pos 0)) "write error"
    set_attributes dst_tmp process_uid uid gid mode
    finish_copy fd_src fd_dst dst_tmp dst

  -- The label `ERR`.
  unfoldable pub copy_error : Status → ℕ → Option ℕ → Bytes → UserNumber → Proc S Status Status
  copy_error status fd_src fd_dst dst_tmp process_uid = do
    elim fd_dst [ none ↦ pure (pos 0) | some f ↦ fclose os f ]
    fclose os fd_src
    sys (os.unlink dst_tmp)
    call (platform.uid_free process_uid)
    pure status

  -- The end of `install_file_copy`, by whether `goto ERR` was met.
  abbrev pub end_copy : Option Status → ℕ → Option ℕ → Bytes → UserNumber → Proc S Status Status
  end_copy none fd_src fd_dst dst_tmp process_uid =
      call (platform.uid_free process_uid) >> ok_status platform
  end_copy (some status) fd_src fd_dst dst_tmp process_uid =
      copy_error status fd_src fd_dst dst_tmp process_uid

  -- What follows the opening of the destination.
  abbrev pub copy_to :
      ℕ
      → ℕ
      → ℕ
      → Option ℕ
      → Bytes
      → Bytes
      → UserNumber
      → UserNumber
      → GroupNumber
      → Permissions
      → Proc S Status (Unit {0})
  copy_to writes fuel fd_src none dst_tmp dst process_uid uid gid mode =
      refuse platform (lit "could not open destination file")
  copy_to writes fuel fd_src (some fd_dst) dst_tmp dst process_uid uid gid mode =
      copy_open writes fuel fd_src fd_dst dst_tmp dst process_uid uid gid mode

  -- `install_file_copy`
  unfoldable pub install_file_copy :
      ℕ → ℕ → Option Bytes → Option Bytes → UserNumber → GroupNumber → Permissions → M S Status
  unfolding copy_open copy_error
  install_file_copy writes fuel src dst uid gid mode = proc do
    dst ← asserted dst
    src ← asserted src
    current ← call (platform.uid_current null_uid)
    refuse_if platform (current.0 ==ℤ pos 0) "could not fetch current user ID"
    let process_uid = current.1
    valid ← call (platform.uid_valid process_uid)
    assert_that (not (valid ==ℤ pos 0))
    let dst_tmp = snprintf_text max_pathlen (dst ++ lit ".tmp")
    refuse_if platform (is_negative (snprintf_value (dst ++ lit ".tmp"))) "could not format string"
    opened ← fopen os src (lit "rb")
    fd_src ← or_refuse platform opened "could not open source file"
    fd_dst ← fopen os dst_tmp (lit "wb")
    failure ← attempt (copy_to writes fuel fd_src fd_dst dst_tmp dst process_uid uid gid mode)
    end_copy failure fd_src fd_dst dst_tmp process_uid
