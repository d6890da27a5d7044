-- ===== src/Install/Interface/Failures/Unchanged.antt =====
-- The functions that install_check of install-core.c calls leave the count install_failed alone.
use coreland_c_string.Base.{ℕ, ◌≡◌, arith, Bool, true, false, Option, none, some, Bytes, String, ℤ}
use coreland_c_string.Install.Header.{Item, StatusCode, FileType, Permissions}
use coreland_c_string.Install.World.{World, Proc, Callback, sys}
use coreland_c_string.Install.World.Keeps.{Keeps, Preserves, EndsIn, EndsIn-bind, keeps_rules}
use coreland_c_string.Install.Os.{Os}
use coreland_c_string.Install.Os.Stdio.{fopen, fread, ferror, fclose}
use coreland_c_string.Install.Posix.{
  install_platform_posix, iposix_error_message_current, iposix_error_reset, iposix_gid_format,
  iposix_gid_compare, iposix_gid_current, iposix_gid_lookup, iposix_gid_valid, iposix_gid_free,
  iposix_uid_format, iposix_uid_compare, iposix_uid_current, iposix_uid_lookup, iposix_uid_valid,
  iposix_uid_free, iposix_file_size, iposix_file_mode_get, iposix_file_ownership_get,
  iposix_supports_symlinks, iposix_supports_posix_modes,
}
use coreland_c_string.Install.Platform.{Platform}
use coreland_c_string.Install.FileTypes.{install_file_type}
use coreland_c_string.Install.Status.{install_status_assign, announce, announce_to, or_refuse}
use coreland_c_string.Install.Check.{
  install_uidgid_lookup, find_user, find_group, install_file_check, check_type, check_size,
  check_mode, check_ownership,
}
use coreland_c_string.Install.Translate.{
  libname, cleaned, required, ntran_copy, ntran_copy_exec, ntran_link, ntran_liblink, ntran_mkdir,
  ntran_chk_link, ntran_chk_liblink,
}

module _ {S : Type 0} (os : Os S) (n : ℕ) where
  -- The count is as it was.
  abbrev pub Same : World S → Type 0
  Same w = w.failed ≡ n

  abbrev pub posix : Platform S
  posix = install_platform_posix os

  Keeps-sys : {R A : Type 0} (f : S → A × S) → Keeps {R = R} Same (sys f)
  Keeps-sys f = record { at = λ w h. h }

  Keeps-fopen : {R : Type 0} (path mode : Bytes) → Keeps {R = R} Same (fopen os path mode)
  Keeps-fopen path mode = record { at = λ w h. ground arith }

  Keeps-fread : {R : Type 0} (f size : ℕ) → Keeps {R = R} Same (fread os f size)
  Keeps-fread f size = record { at = λ w h. ground arith }

  Keeps-ferror : {R : Type 0} (f : ℕ) → Keeps {R = R} Same (ferror os f)
  Keeps-ferror f = record { at = λ w h. ground arith }

  Keeps-fclose : {R : Type 0} (f : ℕ) → Keeps {R = R} Same (fclose os f)
  Keeps-fclose f = record { at = λ w h. ground arith }

  ruleset calls_rules =
      (keeps_rules, Keeps-sys, Keeps-fopen, Keeps-fread, Keeps-ferror, Keeps-fclose)

  Preserves-status :
      (code : StatusCode) (text : Option Bytes)
      → Preserves Same (install_status_assign posix code text)
  unfolding install_status_assign iposix_error_message_current
  Preserves-status code text = record { at = λ w h. h }

  Keeps-cleaned : (o : Option Bytes) → Keeps Same (cleaned os o)
  Keeps-cleaned none = search keeps_rules
  Keeps-cleaned (some name) = search keeps_rules

  libname-Preserves : (name : Option Bytes) → Preserves Same (libname os name)
  unfolding libname
  libname-Preserves name = search (calls_rules, Keeps-cleaned) depth 30

  announce_to-EndsIn :
      {R : Type 0} (c : Option (Callback S)) (text : Proc S R Bytes) (w : World S)
      → Keeps Same text
      → Same w
      → EndsIn Same (announce_to c text w)
  announce_to-EndsIn none text w k h = h
  announce_to-EndsIn (some f) text w k h =
      EndsIn-bind (text w) _ (k.at w h) (λ message. record { at = λ v g. g })

  Keeps-announce :
      {R : Type 0} (text : Proc S R Bytes) → Keeps Same text → Keeps Same (announce text)
  Keeps-announce text k = record { at = λ w h. announce_to-EndsIn w.callback_info text w k h }

  Preserves-error_reset : Preserves Same (iposix_error_reset os)
  unfolding iposix_error_reset
  Preserves-error_reset = record { at = λ w h. h }

  Preserves-uid_format : (k0 : ℤ) → Preserves Same (iposix_uid_format os k0)
  unfolding iposix_uid_format
  Preserves-uid_format k0 = record { at = λ w h. h }

  Preserves-gid_format : (k0 : ℤ) → Preserves Same (iposix_gid_format os k0)
  unfolding iposix_gid_format
  Preserves-gid_format k0 = record { at = λ w h. h }

  Preserves-uid_valid : (k0 : ℤ) → Preserves Same (iposix_uid_valid os k0)
  unfolding iposix_uid_valid
  Preserves-uid_valid k0 = record { at = λ w h. h }

  Preserves-gid_valid : (k0 : ℤ) → Preserves Same (iposix_gid_valid os k0)
  unfolding iposix_gid_valid
  Preserves-gid_valid k0 = record { at = λ w h. h }

  Preserves-uid_free : (k0 : ℤ) → Preserves Same (iposix_uid_free os k0)
  unfolding iposix_uid_free
  Preserves-uid_free k0 = record { at = λ w h. h }

  Preserves-gid_free : (k0 : ℤ) → Preserves Same (iposix_gid_free os k0)
  unfolding iposix_gid_free
  Preserves-gid_free k0 = record { at = λ w h. h }

  Preserves-uid_current : (k0 : ℤ) → Preserves Same (iposix_uid_current os k0)
  unfolding iposix_uid_current
  Preserves-uid_current k0 = record { at = λ w h. h }

  Preserves-gid_current : (k0 : ℤ) → Preserves Same (iposix_gid_current os k0)
  unfolding iposix_gid_current
  Preserves-gid_current k0 = record { at = λ w h. h }

  Preserves-uid_lookup : (path : Bytes) (k1 : ℤ) → Preserves Same (iposix_uid_lookup os path k1)
  unfolding iposix_uid_lookup
  Preserves-uid_lookup path k1 = record { at = λ w h. h }

  Preserves-gid_lookup : (path : Bytes) (k1 : ℤ) → Preserves Same (iposix_gid_lookup os path k1)
  unfolding iposix_gid_lookup
  Preserves-gid_lookup path k1 = record { at = λ w h. h }

  Preserves-uid_compare : (k0 : ℤ) (k1 : ℤ) → Preserves Same (iposix_uid_compare os k0 k1)
  unfolding iposix_uid_compare
  Preserves-uid_compare k0 k1 = record { at = λ w h. h }

  Preserves-gid_compare : (k0 : ℤ) (k1 : ℤ) → Preserves Same (iposix_gid_compare os k0 k1)
  unfolding iposix_gid_compare
  Preserves-gid_compare k0 k1 = record { at = λ w h. h }

  Preserves-file_size : (path : Bytes) (k1 : ℕ) → Preserves Same (iposix_file_size os path k1)
  unfolding iposix_file_size
  Preserves-file_size path k1 = record { at = λ w h. h }

  Preserves-file_mode_get :
      (path : Bytes) (k1 : ℕ) → Preserves Same (iposix_file_mode_get os path k1)
  unfolding iposix_file_mode_get
  Preserves-file_mode_get path k1 = record { at = λ w h. h }

  Preserves-file_ownership_get :
      (path : Bytes) (k1 : ℤ) (k2 : ℤ) → Preserves Same (iposix_file_ownership_get os path k1 k2)
  unfolding iposix_file_ownership_get
  Preserves-file_ownership_get path k1 k2 = record { at = λ w h. h }

  Preserves-supports_symlinks : Preserves Same (iposix_supports_symlinks os)
  unfolding iposix_supports_symlinks
  Preserves-supports_symlinks = record { at = λ w h. h }

  Preserves-supports_posix_modes : Preserves Same (iposix_supports_posix_modes os)
  unfolding iposix_supports_posix_modes
  Preserves-supports_posix_modes = record { at = λ w h. h }

  ruleset platform_rules = (
    calls_rules, Preserves-status, libname-Preserves, Keeps-announce, Preserves-error_reset,
    Preserves-uid_format, Preserves-gid_format, Preserves-uid_valid, Preserves-gid_valid,
    Preserves-uid_free, Preserves-gid_free, Preserves-uid_current, Preserves-gid_current,
    Preserves-uid_lookup, Preserves-gid_lookup, Preserves-uid_compare, Preserves-gid_compare,
    Preserves-file_size, Preserves-file_mode_get, Preserves-file_ownership_get,
    Preserves-supports_symlinks, Preserves-supports_posix_modes,
  )

  Keeps-find_user : (user : Option Bytes) (n : ℤ) → Keeps Same (find_user posix user n)
  Keeps-find_user none n = search platform_rules
  Keeps-find_user (some user) n = search platform_rules

  Keeps-find_group : (group : Option Bytes) (n : ℤ) → Keeps Same (find_group posix group n)
  Keeps-find_group none n = search platform_rules
  Keeps-find_group (some group) n = search platform_rules

  pub Preserves-lookup :
      (user : Option Bytes) (uid : ℤ) (group : Option Bytes) (gid : ℤ)
      → Preserves Same (install_uidgid_lookup posix user uid group gid)
  unfolding install_uidgid_lookup
  Preserves-lookup user uid group gid =
      search (platform_rules, Keeps-find_user, Keeps-find_group) depth 60

  Keeps-required :
      {A : Type 0} (o : Option A) (item : Item) (text : String)
      → Keeps Same (required os posix o item text)
  Keeps-required none item text = search platform_rules depth 20
  Keeps-required (some a) item text = search platform_rules depth 20

  Keeps-or_refuse :
      {A : Type 0} (o : Option A) (text : String) → Keeps Same (or_refuse posix o text)
  Keeps-or_refuse none text = search platform_rules depth 20
  Keeps-or_refuse (some a) text = search platform_rules depth 20

  ruleset translate_rules = (platform_rules, Keeps-required)

  pub Preserves-ntran_copy : (item : Item) → Preserves Same (ntran_copy os posix item)
  unfolding ntran_copy
  Preserves-ntran_copy item = search translate_rules depth 60

  pub Preserves-ntran_copy_exec : (item : Item) → Preserves Same (ntran_copy_exec os posix item)
  unfolding ntran_copy_exec
  Preserves-ntran_copy_exec item = search (translate_rules, Preserves-ntran_copy) depth 60

  Preserves-ntran_link : (item : Item) → Preserves Same (ntran_link os posix item)
  unfolding ntran_link
  Preserves-ntran_link item = search translate_rules depth 60

  Preserves-ntran_liblink : (item : Item) → Preserves Same (ntran_liblink os posix item)
  unfolding ntran_liblink
  Preserves-ntran_liblink item = search translate_rules depth 60

  pub Preserves-ntran_mkdir : (item : Item) → Preserves Same (ntran_mkdir os posix item)
  unfolding ntran_mkdir
  Preserves-ntran_mkdir item = search translate_rules depth 60

  Preserves-file_type :
      (path : Bytes) (nofollow : Bool) → Preserves Same (install_file_type os path nofollow)
  unfolding install_file_type
  Preserves-file_type path true = record { at = λ w h. h }
  Preserves-file_type path false = record { at = λ w h. h }

  ruleset check_rules = (platform_rules, Keeps-or_refuse, Preserves-file_type)

  Keeps-check_type :
      (type : FileType) (name dst : Bytes) → Keeps Same (check_type os posix type name dst)
  unfolding check_type
  Keeps-check_type type name dst = search check_rules depth 60

  Keeps-check_size :
      (type : FileType) (dst : Bytes) (size : ℕ) → Keeps Same (check_size os posix type dst size)
  unfolding check_size
  Keeps-check_size type dst size = search check_rules depth 60

  Keeps-check_mode : (dst : Bytes) (mode : Permissions) → Keeps Same (check_mode os posix dst mode)
  unfolding check_mode
  Keeps-check_mode dst mode = search check_rules depth 60

  Keeps-check_ownership :
      (dst : Bytes) (uid gid : ℤ) (user group : Bytes)
      → Keeps Same (check_ownership os posix dst uid gid user group)
  unfolding check_ownership
  Keeps-check_ownership dst uid gid user group = search check_rules depth 60

  pub Preserves-file_check :
      (src : Option Bytes) (mode : Permissions) (type : FileType) (uid gid : ℤ) (dst : Option Bytes)
      → Preserves Same (install_file_check os posix src mode type uid gid dst)
  unfolding install_file_check
  Preserves-file_check src mode type uid gid dst =
      search
        (check_rules, Keeps-check_type, Keeps-check_size, Keeps-check_mode, Keeps-check_ownership)
        depth 80

  pub Preserves-ntran_chk_link : (item : Item) → Preserves Same (ntran_chk_link os posix item)
  unfolding ntran_chk_link
  Preserves-ntran_chk_link item = search (translate_rules, Preserves-ntran_link) depth 60

  pub Preserves-ntran_chk_liblink : (item : Item) → Preserves Same (ntran_chk_liblink os posix item)
  unfolding ntran_chk_liblink
  Preserves-ntran_chk_liblink item = search (translate_rules, Preserves-ntran_liblink) depth 60
