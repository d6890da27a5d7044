-- ===== src/Install/Windows/Sids.antt =====
-- install-win32.c: the user, the errors, and users and groups by their SIDs.
use coreland_c_string.Base.{
  ℕ, ◌+◌, ◌%◌, ◌^◌, ◌==◌, [], ltb, leb, Bool, true, Option, none, some, Bytes, length, ℤ, pos,
  ◌==ℤ◌, of_bool, not, if◌then◌else◌,
}
use coreland_c_string.Install.Header.{UserNumber, GroupNumber, null_uid, null_gid}
use coreland_c_string.Install.Windows.Api.{
  Win32, Statics, run_api, buffer_size, unlen, error_insufficient_buffer,
}
use coreland_c_string.Install.World.{
  M, Proc, proc, call, pure, gets, modify, assert_that, return_now, skip, ◌>>=◌, ◌>>◌,
}

-- The pointer in a `user_id_t` or `group_id_t` is a null pointer for `INSTALL_NULL_UID`.
abbrev pub is_null : ℤ → Bool
is_null sid = sid ==ℤ null_uid

module _ {T : Type 0} where
  -- A call of the Windows API.
  abbrev pub windows : {R A : Type 0} → (T → A × T) → Proc (Statics T) R A
  windows f w = run_api f w

  -- `if (!c) return r;`
  abbrev pub unless : {R : Type 0} → Bool → R → Proc (Statics T) R (Unit {0})
  unless c r = if c then skip else return_now r

module _ {T : Type 0} (win : Win32 T) where
  unfoldable pub iwin32_get_sid : Bytes → ℤ → M (Statics T) (ℤ × ℤ)
  iwin32_get_sid name old = proc do
    sid ← windows (win.malloc buffer_size)
    unless (not (is_null sid)) (pos 0, old)
    looked_up ← windows (win.lookup_account_name name sid)
    unless looked_up (pos 0, old)
    pure (pos 1, sid)

  -- `iwin32_user_name_current`; a null pointer is `none`.
  unfoldable pub iwin32_user_name_current : M (Statics T) (Option Bytes)
  iwin32_user_name_current = proc do
    fetched ← gets (λ w. w.os.user_name_fetched)
    name ← gets (λ w. w.os.user_name)
    if fetched then return_now (some name) else skip
    size ← gets (λ w. w.os.user_name_size)
    got ← windows (win.get_user_name size)
    unless got.0 none
    assert_that (ltb 0 got.2)
    assert_that (leb got.2 (unlen + 1))
    modify (λ w. record w {
      os = record w.os { user_name = got.1; user_name_size = got.2; user_name_fetched = true };
    })
    pure (some got.1)

  unfoldable pub iwin32_error_current : M (Statics T) ℕ
  iwin32_error_current = proc (gets (λ w. win.get_last_error w.os.api % 2 ^ 32))

  -- `iwin32_error_message`, whose argument is not read.
  unfoldable pub iwin32_error_message : ℕ → M (Statics T) Bytes
  iwin32_error_message ignored = proc do
    error_code ← gets (λ w. win.get_last_error w.os.api)
    if error_code == 0 then pure [] else windows (win.format_message error_code)

  unfoldable pub iwin32_error_message_current : M (Statics T) Bytes
  unfolding iwin32_error_current iwin32_error_message
  iwin32_error_message_current =
      proc do code ← call iwin32_error_current; call (iwin32_error_message code)

  unfoldable pub iwin32_error_reset : M (Statics T) (Unit {0})
  iwin32_error_reset = proc (windows (win.set_last_error 0))

  -- `iwin32_gid_compare` and `iwin32_uid_compare`, which are the same.
  abbrev compare_sids : ℤ → ℤ → M (Statics T) ℤ
  compare_sids a b =
      proc
        do assert_that (not (is_null a)); assert_that (not (is_null b)); windows (win.equal_sid a b)

  unfoldable pub iwin32_gid_compare : GroupNumber → GroupNumber → M (Statics T) ℤ
  iwin32_gid_compare a b = compare_sids a b

  unfoldable pub iwin32_uid_compare : UserNumber → UserNumber → M (Statics T) ℤ
  iwin32_uid_compare a b = compare_sids a b

  -- What is written to the buffer, and the length returned.
  abbrev written : Option Bytes → Bytes × ℕ
  written none = ([], 0)
  written (some text) = (text, length text)

  abbrev format_sid : ℤ → M (Statics T) (Bytes × ℕ)
  format_sid sid = proc do
    assert_that (not (is_null sid))
    text ← windows (win.convert_sid_to_string sid)
    pure (written text)

  unfoldable pub iwin32_gid_format : GroupNumber → M (Statics T) (Bytes × ℕ)
  iwin32_gid_format gid = format_sid gid

  unfoldable pub iwin32_uid_format : UserNumber → M (Statics T) (Bytes × ℕ)
  iwin32_uid_format uid = format_sid uid

  -- The number of bytes read, and the new value of the result.
  abbrev scanned : Bytes → ℤ → Option ℤ → ℕ × ℤ
  scanned buffer old none = (0, old)
  scanned buffer old (some sid) = (length buffer, sid)

  abbrev scan_sid : Bytes → ℤ → M (Statics T) (ℕ × ℤ)
  scan_sid buffer old = proc do
    assert_that (is_null old)
    sid ← windows (win.convert_string_to_sid buffer)
    pure (scanned buffer old sid)

  unfoldable pub iwin32_gid_scan : Bytes → GroupNumber → M (Statics T) (ℕ × GroupNumber)
  iwin32_gid_scan buffer gid = scan_sid buffer gid

  unfoldable pub iwin32_uid_scan : Bytes → UserNumber → M (Statics T) (ℕ × UserNumber)
  iwin32_uid_scan buffer uid = scan_sid buffer uid

  -- The copy of the primary group's SID, in the block that `GetTokenInformation` has filled.
  abbrev copy_group : ℤ → GroupNumber → Option ℤ → Proc (Statics T) (ℤ × GroupNumber) GroupNumber
  copy_group group gid none = pure gid
  copy_group group gid (some primary) = do
    sid_size ← gets (λ w. win.get_length_sid primary w.os.api)
    sid ← windows (win.malloc sid_size)
    if is_null sid then (do windows (win.free group); return_now (pos 0, null_gid)) else skip
    copied ← windows (win.copy_sid sid_size sid primary)
    if copied
        then skip
        else (do windows (win.free sid); windows (win.free group); return_now (pos 0, sid))
    pure sid

  unfoldable pub iwin32_gid_current : GroupNumber → M (Statics T) (ℤ × GroupNumber)
  iwin32_gid_current gid = proc do
    assert_that (is_null gid)
    token ← windows win.open_process_token
    unless token.0 (pos 0, gid)
    needed ← windows (win.primary_group_size token.1)
    if needed.0 then return_now (pos 1, gid) else skip
    code ← gets (λ w. win.get_last_error w.os.api)
    unless (code == error_insufficient_buffer) (pos 0, gid)
    group ← windows (win.malloc needed.1)
    unless (not (is_null group)) (pos 0, gid)
    primary ← windows (win.primary_group token.1 group needed.1)
    gid ← copy_group group gid primary
    windows (win.free group)
    pure (pos 1, gid)

  unfoldable pub iwin32_gid_lookup : Bytes → GroupNumber → M (Statics T) (ℤ × GroupNumber)
  unfolding iwin32_get_sid
  iwin32_gid_lookup group gid = proc do assert_that (is_null gid); call (iwin32_get_sid group gid)

  unfoldable pub iwin32_gid_valid : GroupNumber → M (Statics T) ℤ
  iwin32_gid_valid gid = proc (pure (of_bool (not (is_null gid))))

  -- The id that is null from then on is the caller's, which reads it no more.
  unfoldable pub iwin32_gid_free : GroupNumber → M (Statics T) (Unit {0})
  iwin32_gid_free gid = proc (windows (win.free gid))

  unfoldable pub iwin32_uid_lookup : Bytes → UserNumber → M (Statics T) (ℤ × UserNumber)
  unfolding iwin32_get_sid
  iwin32_uid_lookup user uid = proc do assert_that (is_null uid); call (iwin32_get_sid user uid)

  abbrev lookup_name :
      UserNumber → Option Bytes → Proc (Statics T) (ℤ × UserNumber) (ℤ × UserNumber)
  lookup_name uid none = pure (pos 0, uid)
  lookup_name uid (some name) = call (iwin32_uid_lookup name uid)

  unfoldable pub iwin32_uid_current : UserNumber → M (Statics T) (ℤ × UserNumber)
  unfolding iwin32_user_name_current iwin32_uid_lookup
  iwin32_uid_current uid =
      proc do assert_that (is_null uid); name ← call iwin32_user_name_current; lookup_name uid name

  unfoldable pub iwin32_uid_valid : UserNumber → M (Statics T) ℤ
  iwin32_uid_valid uid = proc (pure (of_bool (not (is_null uid))))

  unfoldable pub iwin32_uid_free : UserNumber → M (Statics T) (Unit {0})
  iwin32_uid_free uid = proc (windows (win.free uid))
