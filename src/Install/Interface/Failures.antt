-- ===== src/Install/Interface/Failures.antt =====
-- What install_check of install-core.c does to the count install_failed.
pub mod Unchanged
use coreland_c_string.Base.{
  ℕ, ◌+◌, ◌%◌, ◌^◌, ◌≡◌, ◌⊎◌, inl, inr, refl, sym, ap, ◌∙◌, subst, arith, Bool, true, false, not,
  ◌&&◌, Bool-cases, Option, none, some, Bytes, String, ℤ, if◌then◌else◌,
}
use coreland_c_string.Install.Header.{
  Op, copy, copy_exec, symlink, mkdir, liblink, Item, Status, StatusCode, FileType, Permissions,
  file, directory, UserNumber, GroupNumber, null_uid, null_gid,
}
use coreland_c_string.Install.World.{
  World, Res, done, fault, Exit, next, leave, stop, Proc, Callback, proc, call, pure, return_now,
  sys, ◌>>=◌,
}
use coreland_c_string.Install.World.Keeps.{
  Keeps, Preserves, EndsIn, ReturnsIn, EndsIn-bind, Keeps-call, keeps_rules,
}
use coreland_c_string.Install.Os.{Os}
use coreland_c_string.Install.Os.Stdio.{fopen, fread, ferror, fclose}
use coreland_c_string.Install.Posix.{
  install_platform_posix, iposix_error_message_current, iposix_error_reset, iposix_gid_format,
  iposix_gid_compare, iposix_gid_current, iposix_gid_lookup, iposix_gid_valid, iposix_gid_free,
  iposix_uid_format, iposix_uid_compare, iposix_uid_current, iposix_uid_lookup, iposix_uid_valid,
  iposix_uid_free, iposix_file_size, iposix_file_mode_get, iposix_file_ownership_get,
  iposix_supports_symlinks, iposix_supports_posix_modes,
}
use coreland_c_string.Install.Platform.{Platform}
use coreland_c_string.Install.FileTypes.{install_file_type}
use coreland_c_string.Install.Status.{
  install_status_assign, announce, announce_to, or_refuse, install_permissions_assign,
}
use coreland_c_string.Install.Check.{
  install_uidgid_lookup, find_user, find_group, install_file_check, check_type, check_size,
  check_mode, check_ownership,
}
use coreland_c_string.Install.Operators.{
  is_ok, owner_of, free_owner, count_failure, check_item, instchk_copy, instchk_link, instchk_mkdir,
  instchk_liblink,
}
use coreland_c_string.Install.Translate.{
  Translated, libname, cleaned, required, ntran_copy, ntran_copy_exec, ntran_link, ntran_liblink,
  ntran_mkdir, ntran_chk_link, ntran_chk_liblink,
}
use coreland_c_string.Install.Interface.{install_check, run_item, instchk_opers}
use coreland_c_string.Install.Interface.Failures.Unchanged.{
  Same, Preserves-lookup, Preserves-file_check, Preserves-ntran_copy, Preserves-ntran_copy_exec,
  Preserves-ntran_mkdir, Preserves-ntran_chk_link, Preserves-ntran_chk_liblink,
}

-- The owner of an item was found.
abbrev pub is_known : {S : Type 0} → Res S (Status × UserNumber × GroupNumber) → Bool
is_known (done found w) = is_ok found.0
is_known (fault x) = false

-- The names of an item were translated, and its owner was found.
abbrev pub is_checkable : {S : Type 0} → Os S → Res S Translated → Bool
is_checkable os (done t w) =
    is_ok t.0
    && is_known
        (install_uidgid_lookup (install_platform_posix os) t.1.owner null_uid t.1.group null_gid w)
is_checkable os (fault x) = false

-- install_check comes to the check of the item's file.
abbrev pub is_checked : {S : Type 0} → Os S → ℕ → ℕ → Item → World S → Bool
is_checked os writes fuel item w = is_checkable os (
    (instchk_opers os (install_platform_posix os) writes fuel item.op).trans item
      (record w { os = os.set_errno 0 w.os }))

-- A count behind a check: one more, as an unsigned long, if the check was made and failed.
abbrev count_if : ℕ → Bool → Bool → ℕ
count_if n checked passed = if checked && not passed then (n + 1) % 2 ^ 64 else n

abbrev pub count_after : ℕ → Bool → Status → ℕ
count_after n checked status = count_if n checked (is_ok status)

-- The call left that count.
abbrev pub Counts : {S : Type 0} → ℕ → Bool → Res S Translated → Type 0
Counts n checked (done t w) = w.failed ≡ count_after n checked t.0
Counts n checked (fault x) = Unit

module _ {S : Type 0} (os : Os S) (n writes fuel : ℕ) where
  abbrev TallyExit : Bool → Exit S Status Status → Type 0
  TallyExit checked (next st w) = w.failed ≡ count_after n checked st
  TallyExit checked (leave st w) = w.failed ≡ count_after n checked st
  TallyExit checked (stop x) = Unit

  abbrev TallyRes : Bool → Res S Status → Type 0
  TallyRes checked (done st w) = w.failed ≡ count_after n checked st
  TallyRes checked (fault x) = Unit

  -- The owner is looked up: without one the file is not checked.
  owner-Tally :
      (r : Res S (Status × UserNumber × GroupNumber))
      (f : UserNumber × GroupNumber → Proc S Status Status)
      → ReturnsIn (Same os n) r
      → ((ids : UserNumber × GroupNumber) (w : World S) → Same os n w → TallyExit true (f ids w))
      → TallyExit
          (is_known r)
          (elim (elim (elim r as (λ _. Exit S Status (Status × UserNumber × GroupNumber)) [
            | done a v ↦ next a v
            | fault x ↦ stop x
          ])
            as (λ _. Exit S Status (UserNumber × GroupNumber)) [
              | next found v ↦
                  (if is_ok found.0 then pure (found.1, found.2) else return_now found.0) v
              | leave st v ↦ leave st v
              | stop x ↦ stop x
            ]) [ next ids v ↦ f ids v | leave st v ↦ leave st v | stop x ↦ stop x ])
  owner-Tally (fault x) f h g = tt
  owner-Tally (done found v) f h g = elim (Bool-cases (is_ok found.0)) [
    | inl good ↦ rw good (g (found.1, found.2) v h)
    | inr bad ↦ rw bad h
  ]

  check-Tally :
      (r : Res S Status) (f : Status → Proc S Status Status)
      → ReturnsIn (Same os n) r
      → ((st : Status) (w : World S) → Same os n w → TallyExit true (f st w))
      → TallyExit true
          (elim (elim r as (λ _. Exit S Status Status) [ done a v ↦ next a v | fault x ↦ stop x ]) [
            | next a w ↦ f a w
            | leave r w ↦ leave r w
            | stop x ↦ stop x
          ])
  check-Tally (done st w) f h g = g st w h
  check-Tally (fault x) f h g = tt

  TallyRes-proc :
      (checked : Bool) (e : Exit S Status Status)
      → TallyExit checked e
      → TallyRes checked (elim e [ next r w ↦ done r w | leave r w ↦ done r w | stop x ↦ fault x ])
  TallyRes-proc checked (next r w) h = h
  TallyRes-proc checked (leave r w) h = h
  TallyRes-proc checked (stop x) h = tt

  abbrev after_check : UserNumber × GroupNumber → Status → Proc S Status Status
  after_check ids status = count_failure os (install_platform_posix os) writes fuel status >>= λ _.
      free_owner os (install_platform_posix os) writes fuel ids >>= λ _. pure status

  after_check-Tally :
      (ids : UserNumber × GroupNumber) (status : Status) (w : World S)
      → (Same os n) w
      → TallyExit true (after_check ids status w)
  unfolding iposix_uid_free iposix_gid_free
  after_check-Tally ids status w h = elim (Bool-cases (is_ok status)) [
    | inl good ↦ rw (TallyExit, good) (h ∙ sym (ap (count_if n true) good))
    | inr bad ↦ rw (TallyExit, bad) (ap (λ k. (k + 1) % 2 ^ 64) h ∙ sym (ap (count_if n true) bad))
  ]

  -- The check of a file for the owner found.
  abbrev after_owner :
      FileType
      → Item
      → Option Bytes
      → Option Bytes
      → UserNumber × GroupNumber
      → Proc S Status Status
  after_owner type item source destination ids =
      call (
        install_file_check os (install_platform_posix os) source
          (install_permissions_assign item.perm) type ids.0 ids.1 destination)
      >>= after_check ids

  abbrev knows : Item → World S → Bool
  knows item w =
      is_known (
        install_uidgid_lookup (install_platform_posix os) item.owner null_uid item.group null_gid w)

  -- The body that the operators of the check share.
  check_item-Tally :
      (type : FileType) (item : Item) (source destination : Option Bytes) (w : World S)
      → (Same os n) w
      → TallyRes
          (knows item w)
          (check_item os (install_platform_posix os) writes fuel type item source destination w)
  check_item-Tally type item source destination w h =
      TallyRes-proc (knows item w)
        ((owner_of os (install_platform_posix os) writes fuel item
            >>= after_owner type item source destination)
          w)
        (owner-Tally
          (install_uidgid_lookup (install_platform_posix os) item.owner null_uid item.group null_gid
            w)
          (after_owner type item source destination)
          ((Preserves-lookup os n item.owner null_uid item.group null_gid).at w h)
          (λ ids v g.
            check-Tally
              (install_file_check os (install_platform_posix os) source
                (install_permissions_assign item.perm) type ids.0 ids.1 destination v)
              (after_check ids)
              ((Preserves-file_check os n source (install_permissions_assign item.perm) type ids.0
                  ids.1 destination).at
                v g)
              (after_check-Tally ids)))

  operator-Tally :
      (op : Op) (item : Item) (w : World S)
      → (Same os n) w
      → TallyRes
          (knows item w)
          ((instchk_opers os (install_platform_posix os) writes fuel op).oper item 0 w)
  unfolding instchk_opers instchk_copy instchk_link instchk_mkdir instchk_liblink
  operator-Tally copy item w h = check_item-Tally file item item.src item.dst w h
  operator-Tally copy_exec item w h = check_item-Tally file item item.src item.dst w h
  operator-Tally symlink item w h = check_item-Tally symlink item item.src item.dst w h
  operator-Tally mkdir item w h = check_item-Tally directory item item.dir item.dir w h
  operator-Tally liblink item w h = check_item-Tally symlink item item.src item.dst w h

  Preserves-translation :
      (op : Op) (item : Item)
      → Preserves
          (Same os n)
          ((instchk_opers os (install_platform_posix os) writes fuel op).trans item)
  unfolding instchk_opers
  Preserves-translation copy item = Preserves-ntran_copy os n item
  Preserves-translation copy_exec item = Preserves-ntran_copy_exec os n item
  Preserves-translation symlink item = Preserves-ntran_chk_link os n item
  Preserves-translation mkdir item = Preserves-ntran_mkdir os n item
  Preserves-translation liblink item = Preserves-ntran_chk_liblink os n item

  abbrev PairExit : Bool → Exit S Translated Translated → Type 0
  PairExit checked (next t w) = w.failed ≡ count_after n checked t.0
  PairExit checked (leave t w) = w.failed ≡ count_after n checked t.0
  PairExit checked (stop x) = Unit

  Counts-proc :
      (checked : Bool) (e : Exit S Translated Translated)
      → PairExit checked e
      → Counts n checked (elim e [ next r w ↦ done r w | leave r w ↦ done r w | stop x ↦ fault x ])
  Counts-proc checked (next t w) h = h
  Counts-proc checked (leave t w) h = h
  Counts-proc checked (stop x) h = tt

  -- The end of a call: everything is flushed.
  abbrev after_status : Item → Status → Proc S Translated Translated
  after_status item status = sys os.fflush_all >>= λ _. pure (status, item)

  PairExit-ran :
      (checked known : Bool) (same : checked ≡ known) (item : Item) (r : Res S Status)
      → TallyRes known r
      → PairExit checked
          (elim (elim r as (λ _. Exit S Translated Status) [
            | done a v ↦ next a v
            | fault x ↦ stop x
          ]) [ next a v ↦ after_status item a v | leave t v ↦ leave t v | stop x ↦ stop x ])
  PairExit-ran checked known same item (done st v) h = h ∙ sym (ap (λ c. count_after n c st) same)
  PairExit-ran checked known same item (fault x) h = tt

  abbrev after_trans : Op → Translated → Proc S Translated Translated
  after_trans op t =
      (if is_ok t.0
        then call ((instchk_opers os (install_platform_posix os) writes fuel op).oper t.1 0)
        else pure t.0)
      >>= after_status t.1

  PairExit-after_trans :
      (op : Op) (r : Res S Translated)
      → ReturnsIn (Same os n) r
      → PairExit
          (is_checkable os r)
          (elim (elim r as (λ _. Exit S Translated Translated) [
            | done a v ↦ next a v
            | fault x ↦ stop x
          ]) [ next t v ↦ after_trans op t v | leave t v ↦ leave t v | stop x ↦ stop x ])
  PairExit-after_trans op (fault x) h = tt
  PairExit-after_trans op (done t w) h = elim (Bool-cases (is_ok t.0)) [
    | inl good ↦
        rw (PairExit, good)
          (PairExit-ran (is_checkable os (done t w)) (knows t.1 w) (ap (λ b. b && knows t.1 w) good)
            t.1 ((instchk_opers os (install_platform_posix os) writes fuel op).oper t.1 0 w)
            (operator-Tally op t.1 w h))
    | inr bad ↦ rw (PairExit, bad) (h ∙ sym (ap (λ b. count_if n (b && knows t.1 w) b) bad))
  ]

  run_item-Counts :
      (item : Item) (w : World S)
      → (Same os n) w
      → Counts n (is_checked os writes fuel item w) (
          run_item os
            (install_platform_posix os)
            writes
            fuel
            (instchk_opers os (install_platform_posix os) writes fuel item.op)
            item
            0
            w)
  unfolding iposix_error_reset
  run_item-Counts item w h =
      let v : World S = record w { os = os.set_errno 0 w.os } in
      let r = (instchk_opers os (install_platform_posix os) writes fuel item.op).trans item v in
      Counts-proc (is_checkable os r) _
        (PairExit-after_trans item.op r ((Preserves-translation item.op item).at v h))

-- On a POSIX system, if install_check returns, it has raised the count of failed files by one, as
-- an unsigned long, exactly if the item's names were translated, its owner was found and its file
-- failed the check; for any other item the count is as it was.
pub install_check-Counts :
    {S : Type 0} (os : Os S) (writes fuel : ℕ) (item : Item) (w : World S)
    → Counts w.failed
        (is_checked os writes fuel item w)
        (install_check os (install_platform_posix os) writes fuel item w)
unfolding install_check
install_check-Counts os writes fuel item w = run_item-Counts os w.failed writes fuel item w refl
