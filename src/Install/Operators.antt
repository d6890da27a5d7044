-- ===== src/Install/Operators.antt =====
-- The operator callbacks of install-core.c: inst_*, instchk_* and deinst_*.
use coreland_c_string.Base.{
  ℕ, ◌+◌, ◌%◌, ◌^◌, ◌==◌, bit_and, Bool, true, false, Option, none, some, [], ◌∷◌, ◌++◌, Bytes, pos,
  minus_one, is_negative, ◌==ℤ◌, lit, decimal, octal, snprintf_text, snprintf_value, to_unsigned,
  if◌then◌else◌,
}
use coreland_c_string.Install.Header.{
  Item, Status, ok, error, fatal, Permissions, UserNumber, GroupNumber, null_uid, null_gid,
  FileType, file, directory, symlink, max_pathlen, no_flags, dryrun,
}
use coreland_c_string.Install.World.{
  M, Proc, proc, call, sys, pure, skip, modify, return_now, asserted, deref, attempt, ◌>>=◌, ◌>>◌,
}
use coreland_c_string.Install.Os.{Os}
use coreland_c_string.Install.Platform.{Platform}
use coreland_c_string.Install.Rmkdir.{install_rmkdir}
use coreland_c_string.Install.Copy.{install_file_copy}
use coreland_c_string.Install.Check.{install_uidgid_lookup, install_file_check}
use coreland_c_string.Install.Status.{
  install_permissions_assign, ok_status, refuse, refuse_if, or_refuse, format_uid, format_gid,
  announce, spaced,
}

-- `status.status == INSTALL_STATUS_OK`
abbrev pub is_ok : Status → Bool
is_ok st = elim st.status [ ok ↦ true | error ↦ false | fatal ↦ false ]

-- `(flags & INSTALL_DRYRUN) == INSTALL_NO_FLAGS`
abbrev pub is_real_run : ℕ → Bool
is_real_run flags = bit_and flags dryrun == no_flags

module _ {S : Type 0} (os : Os S) (platform : Platform S) (writes fuel : ℕ) where
  -- The identifiers of an item's owner, or a return with the status of the failed lookup.
  abbrev pub owner_of : Item → Proc S Status (UserNumber × GroupNumber)
  owner_of item = do
    found ← call (install_uidgid_lookup platform item.owner null_uid item.group null_gid)
    if is_ok found.0 then pure (found.1, found.2) else return_now found.0

  abbrev pub free_owner : UserNumber × GroupNumber → Proc S Status (Unit {0})
  free_owner ids = call (platform.uid_free ids.0) >> call (platform.gid_free ids.1)

  -- The status at the label `END`.
  abbrev pub status_at_end : Option Status → Proc S Status Status
  status_at_end none = ok_status platform
  status_at_end (some status) = pure status

  -- A status that is not OK, for `goto END`.
  abbrev failure_of : Status → Option Status
  failure_of status = if is_ok status then none else some status

  unfoldable pub inst_copy : Item → ℕ → M S Status
  unfolding install_uidgid_lookup
  inst_copy item flags = proc do
    let perm = install_permissions_assign item.perm
    ids ← owner_of item
    src ← asserted item.src
    size ← call (platform.file_size src 0)
    uid_str ← format_uid platform ids.0
    gid_str ← format_gid platform ids.1
    announce do
      dst ← deref item.dst
      pure (spaced (lit "copy" ∷ src ∷ dst ∷ uid_str ∷ gid_str ∷ octal perm ∷ decimal size.1 ∷ []))
    failure ←
        if is_real_run flags
        then (do
          copied ←
              call (install_file_copy os platform writes fuel item.src item.dst ids.0 ids.1 perm)
          pure (failure_of copied))
        else pure none
    status ← status_at_end failure
    free_owner ids
    pure status

  unfoldable pub inst_link : Item → ℕ → M S Status
  inst_link item flags = proc do
    announce do
      dir ← deref item.dir
      src ← deref item.src
      dst ← deref item.dst
      pure (spaced (lit "symlink" ∷ dir ∷ src ∷ dst ∷ []))
    cwd ← sys (os.getcwd max_pathlen)
    path_buf ← or_refuse platform cwd "could not get current working directory"
    dir ← deref item.dir
    entered ← sys (os.chdir dir)
    refuse_if platform (entered ==ℤ minus_one) "could not change directory"
    if is_real_run flags
        then (do
          src ← asserted item.src
          dst ← asserted item.dst
          linked ← call (platform.file_link src dst)
          if linked ==ℤ pos 0
              then (do
                restored ← sys (os.chdir path_buf)
                refuse_if platform (restored ==ℤ minus_one)
                    "could not restore current working directory"
                refuse platform (lit "could not make symbolic link"))
              else skip)
        else skip
    restored ← sys (os.chdir path_buf)
    refuse_if platform (restored ==ℤ minus_one) "could not restore current working directory"
    ok_status platform

  -- The part of `inst_mkdir` that a dry run leaves out.
  unfoldable pub make_owned_dir :
      Option Bytes → Permissions → UserNumber → UserNumber → GroupNumber → Proc S Status (Unit {0})
  make_owned_dir dir perms process_uid uid gid = do
    made ← call (install_rmkdir os platform perms dir)
    refuse_if platform (made ==ℤ pos 0) "could not create directory"
    same ← call (platform.uid_compare process_uid uid)
    if same ==ℤ pos 0
        then (do
          can ← call (platform.can_set_ownership process_uid)
          if can ==ℤ pos 1
              then (do
                path ← asserted dir
                set ← call (platform.file_ownership_set path uid gid)
                refuse_if platform (set ==ℤ pos 0) "could not set file ownership")
              else refuse platform
                  (lit "current user ID is restricted from setting file ownership"))
        else skip

  unfoldable pub inst_mkdir : Item → ℕ → M S Status
  unfolding install_uidgid_lookup make_owned_dir
  inst_mkdir item flags = proc do
    ids ← owner_of item
    uid_str ← format_uid platform ids.0
    gid_str ← format_gid platform ids.1
    announce do
      dir ← deref item.dir
      pure (spaced (lit "mkdir" ∷ dir ∷ uid_str ∷ gid_str ∷ octal (to_unsigned item.perm) ∷ []))
    let perms = install_permissions_assign item.perm
    current ← call (platform.uid_current null_uid)
    failure ← attempt do
      refuse_if platform (current.0 ==ℤ pos 0) "could not fetch current user ID"
      if is_real_run flags then make_owned_dir item.dir perms current.1 ids.0 ids.1 else skip
    status ← status_at_end failure
    free_owner ids
    call (platform.uid_free current.1)
    pure status

  unfoldable pub inst_liblink : Item → ℕ → M S Status
  unfolding inst_link
  inst_liblink item flags = inst_link item flags

  -- `++install_failed`, an `unsigned long` of 64 bits
  abbrev pub count_failure : Status → Proc S Status (Unit {0})
  count_failure status =
      if is_ok status then skip else modify (λ w. record w { failed = (w.failed + 1) % 2 ^ 64 })

  -- The body that `instchk_copy`, `instchk_link` and `instchk_mkdir` share.
  abbrev pub check_item : FileType → Item → Option Bytes → Option Bytes → M S Status
  check_item type item source destination = proc do
    let perm = install_permissions_assign item.perm
    ids ← owner_of item
    status ← call (install_file_check os platform source perm type ids.0 ids.1 destination)
    count_failure status
    free_owner ids
    pure status

  unfoldable pub instchk_copy : Item → ℕ → M S Status
  unfolding install_uidgid_lookup
  instchk_copy item flags = check_item file item item.src item.dst

  unfoldable pub instchk_link : Item → ℕ → M S Status
  unfolding install_uidgid_lookup
  instchk_link item flags = check_item symlink item item.src item.dst

  unfoldable pub instchk_mkdir : Item → ℕ → M S Status
  unfolding install_uidgid_lookup
  instchk_mkdir item flags = check_item directory item item.dir item.dir

  unfoldable pub instchk_liblink : Item → ℕ → M S Status
  unfolding instchk_link
  instchk_liblink item flags = instchk_link item flags

  unfoldable pub deinst_copy : Item → ℕ → M S Status
  deinst_copy item flags = proc do
    announce do dst ← deref item.dst; pure (spaced (lit "unlink" ∷ dst ∷ []))
    if is_real_run flags
        then (do
          dst ← deref item.dst
          unlinked ← sys (os.unlink dst)
          refuse_if platform (unlinked ==ℤ minus_one) "could not unlink file")
        else skip
    ok_status platform

  unfoldable pub deinst_link : Item → ℕ → M S Status
  deinst_link item flags = proc do
    announce do
      dir ← deref item.dir
      dst ← deref item.dst
      pure (lit "unlink " ++ (dir ++ (lit "/" ++ dst)))
    if is_real_run flags
        then (do
          dir ← deref item.dir
          dst ← deref item.dst
          let path = dir ++ (lit "/" ++ dst)
          refuse_if platform (is_negative (snprintf_value path)) "could not format string"
          unlinked ← sys (os.unlink (snprintf_text max_pathlen path))
          refuse_if platform (unlinked ==ℤ minus_one) "could not unlink")
        else skip
    ok_status platform

  unfoldable pub deinst_mkdir : Item → ℕ → M S Status
  deinst_mkdir item flags = proc do
    announce do dir ← deref item.dir; pure (spaced (lit "rmdir" ∷ dir ∷ []))
    if is_real_run flags
        then (do
          dir ← deref item.dir
          removed ← sys (os.rmdir dir)
          refuse_if platform (removed ==ℤ minus_one) "could not remove directory")
        else skip
    ok_status platform

  unfoldable pub deinst_liblink : Item → ℕ → M S Status
  unfolding deinst_link
  deinst_liblink item flags = deinst_link item flags
