-- ===== src/Install/Interface/DryRun.antt =====
-- A dry run of the interface functions of install-core.c leaves the file system alone.
use coreland_c_string.Base.{
  ℕ, arith, ◌≡◌, refl, ◌∙◌, false, Option, none, some, Bytes, String, ℤ, if◌then◌else◌, lit,
}
use coreland_c_string.Install.Header.{
  Op, copy, copy_exec, symlink, mkdir, liblink, Item, Status, StatusCode,
}
use coreland_c_string.Install.World.{World, Res, done, fault, Proc, Callback, sys}
use coreland_c_string.Install.World.Keeps.{
  Keeps, Preserves, EndsIn, ReturnsIn, EndsIn-bind, keeps_rules,
}
use coreland_c_string.Install.Os.{Os}
use coreland_c_string.Install.Os.Stdio.{fopen, fread, ferror, fclose}
use coreland_c_string.Install.Posix.{
  install_platform_posix, iposix_error_message_current, iposix_error_reset, iposix_gid_format,
  iposix_gid_current, iposix_gid_lookup, iposix_gid_valid, iposix_gid_free, iposix_uid_format,
  iposix_uid_current, iposix_uid_lookup, iposix_uid_valid, iposix_uid_free, iposix_file_size,
}
use coreland_c_string.Install.Platform.{Platform}
use coreland_c_string.Install.Status.{install_status_assign, announce, announce_to, or_refuse}
use coreland_c_string.Install.Check.{install_uidgid_lookup, find_user, find_group}
use coreland_c_string.Install.Operators.{
  is_real_run, inst_copy, inst_link, inst_mkdir, deinst_copy, deinst_link, deinst_mkdir,
  status_at_end, inst_liblink, deinst_liblink,
}
use coreland_c_string.Install.Translate.{
  libname, cleaned, required, ntran_copy, ntran_copy_exec, ntran_link, ntran_liblink, ntran_mkdir,
}
use coreland_c_string.Install.Interface.{
  install, deinstall, InstOp, run_item, install_opers, deinst_opers,
}

-- What of the system the calls that only read leave alone: the files, say, without `errno`, the
-- streams and the working directory.
pub record ReadsKeep {S V : Type 0} (os : Os S) (view : S → V) : Type 0 where
  pub set_errno : (n : ℕ) (s : S) → view (os.set_errno n s) ≡ view s
  pub getuid : (s : S) → view (os.getuid s).1 ≡ view s
  pub getgid : (s : S) → view (os.getgid s).1 ≡ view s
  pub getpwnam : (name : Bytes) (s : S) → view (os.getpwnam name s).1 ≡ view s
  pub getgrnam : (name : Bytes) (s : S) → view (os.getgrnam name s).1 ≡ view s
  pub stat : (path : Bytes) (s : S) → view (os.stat path s).1 ≡ view s
  pub chdir : (path : Bytes) (s : S) → view (os.chdir path s).1 ≡ view s
  pub getcwd : (n : ℕ) (s : S) → view (os.getcwd n s).1 ≡ view s
  pub fopen_rb : (f : ℕ) (path : Bytes) (s : S) → view (os.fopen f path (lit "rb") s).1 ≡ view s
  pub fread : (f n : ℕ) (s : S) → view (os.fread f n s).1 ≡ view s
  pub ferror : (f : ℕ) (s : S) → view (os.ferror f s).1 ≡ view s
  pub fclose : (f : ℕ) (s : S) → view (os.fclose f s).1 ≡ view s
  pub fflush_all : (s : S) → view (os.fflush_all s).1 ≡ view s

-- A callback that changes nothing of the view, as one that prints.
abbrev pub CallbackKeeps : {S V : Type 0} → (S → V) → Option (Callback S) → Type 0
CallbackKeeps view none = Unit
CallbackKeeps {S} view (some f) =
    (text : Bytes) (pointer : ℕ) (s : S) → view (f text pointer s) ≡ view s

module _ {S V : Type 0} (os : Os S) (view : S → V) (K : ReadsKeep os view) (seen : V) where
  -- The view is as it was, and the info callback leaves it alone.
  abbrev pub Same : World S → Type 0
  Same w = (view w.os ≡ seen) × CallbackKeeps view w.callback_info

  pub Keeps-sys :
      {R A : Type 0} (f : S → A × S)
      → ((s : S) → view (f s).1 ≡ view s)
      → Keeps {R = R} Same (sys f)
  Keeps-sys f k = record { at = λ w h. (k w.os ∙ h.0, h.1) }

  Keeps-getcwd : {R : Type 0} (n : ℕ) → Keeps {R = R} Same (sys (os.getcwd n))
  Keeps-getcwd n = Keeps-sys (os.getcwd n) (K.getcwd n)

  Keeps-chdir : {R : Type 0} (path : Bytes) → Keeps {R = R} Same (sys (os.chdir path))
  Keeps-chdir path = Keeps-sys (os.chdir path) (K.chdir path)

  Keeps-fflush_all : {R : Type 0} → Keeps {R = R} Same (sys os.fflush_all)
  Keeps-fflush_all = Keeps-sys os.fflush_all K.fflush_all

  pub Keeps-fopen : {R : Type 0} (path : Bytes) → Keeps {R = R} Same (fopen os path (lit "rb"))
  Keeps-fopen path = record { at = λ w h. ground (arith, K.fopen_rb w.next_stream path w.os) }

  pub Keeps-fread : {R : Type 0} (f n : ℕ) → Keeps {R = R} Same (fread os f n)
  Keeps-fread f n = record { at = λ w h. ground (arith, K.fread f n w.os) }

  pub Keeps-ferror : {R : Type 0} (f : ℕ) → Keeps {R = R} Same (ferror os f)
  Keeps-ferror f = record { at = λ w h. ground (arith, K.ferror f w.os) }

  pub Keeps-fclose : {R : Type 0} (f : ℕ) → Keeps {R = R} Same (fclose os f)
  Keeps-fclose f = record { at = λ w h. ground (arith, K.fclose f w.os) }

  ruleset calls_rules = (
    keeps_rules, Keeps-getcwd, Keeps-chdir, Keeps-fflush_all, Keeps-fopen, Keeps-fread,
    Keeps-ferror, Keeps-fclose,
  )

  pub Preserves-status :
      (code : StatusCode) (text : Option Bytes)
      → Preserves Same (install_status_assign (install_platform_posix os) code text)
  unfolding install_status_assign iposix_error_message_current
  Preserves-status code text = record { at = λ w h. h }

  Keeps-cleaned : (o : Option Bytes) → Keeps Same (cleaned os o)
  Keeps-cleaned none = search keeps_rules
  Keeps-cleaned (some name) = search keeps_rules

  libname-Preserves : (name : Option Bytes) → Preserves Same (libname os name)
  unfolding libname
  libname-Preserves name = search (calls_rules, Keeps-cleaned) depth 30

  announce_to-EndsIn :
      {R : Type 0} (c : Option (Callback S)) (text : Proc S R Bytes) (w : World S)
      → CallbackKeeps view c
      → Keeps Same text
      → Same w
      → EndsIn Same (announce_to c text w)
  announce_to-EndsIn none text w q k h = h
  announce_to-EndsIn (some f) text w q k h =
      EndsIn-bind (text w) _ (k.at w h) (λ message. record { at = λ v g. (q _ _ v.os ∙ g.0, g.1) })

  Keeps-announce :
      {R : Type 0} (text : Proc S R Bytes) → Keeps Same text → Keeps Same (announce text)
  Keeps-announce text k = record { at = λ w h. announce_to-EndsIn w.callback_info text w h.1 k h }

  ruleset base_rules = (calls_rules, Preserves-status, libname-Preserves, Keeps-announce)

  abbrev posix : Platform S
  posix = install_platform_posix os

  pub Preserves-error_reset : Preserves Same (iposix_error_reset os)
  unfolding iposix_error_reset
  Preserves-error_reset = record { at = λ w h. (K.set_errno 0 w.os ∙ h.0, h.1) }

  Preserves-uid_format : (n : ℤ) → Preserves Same (iposix_uid_format os n)
  unfolding iposix_uid_format
  Preserves-uid_format n = record { at = λ w h. h }

  Preserves-gid_format : (n : ℤ) → Preserves Same (iposix_gid_format os n)
  unfolding iposix_gid_format
  Preserves-gid_format n = record { at = λ w h. h }

  Preserves-uid_valid : (n : ℤ) → Preserves Same (iposix_uid_valid os n)
  unfolding iposix_uid_valid
  Preserves-uid_valid n = record { at = λ w h. h }

  Preserves-gid_valid : (n : ℤ) → Preserves Same (iposix_gid_valid os n)
  unfolding iposix_gid_valid
  Preserves-gid_valid n = record { at = λ w h. h }

  Preserves-uid_free : (n : ℤ) → Preserves Same (iposix_uid_free os n)
  unfolding iposix_uid_free
  Preserves-uid_free n = record { at = λ w h. h }

  Preserves-gid_free : (n : ℤ) → Preserves Same (iposix_gid_free os n)
  unfolding iposix_gid_free
  Preserves-gid_free n = record { at = λ w h. h }

  Preserves-uid_current : (n : ℤ) → Preserves Same (iposix_uid_current os n)
  unfolding iposix_uid_current
  Preserves-uid_current n = record { at = λ w h. (K.getuid w.os ∙ h.0, h.1) }

  Preserves-gid_current : (n : ℤ) → Preserves Same (iposix_gid_current os n)
  unfolding iposix_gid_current
  Preserves-gid_current n = record { at = λ w h. (K.getgid w.os ∙ h.0, h.1) }

  Preserves-uid_lookup : (name : Bytes) (n : ℤ) → Preserves Same (iposix_uid_lookup os name n)
  unfolding iposix_uid_lookup
  Preserves-uid_lookup name n = record { at = λ w h. (K.getpwnam name w.os ∙ h.0, h.1) }

  Preserves-gid_lookup : (name : Bytes) (n : ℤ) → Preserves Same (iposix_gid_lookup os name n)
  unfolding iposix_gid_lookup
  Preserves-gid_lookup name n = record { at = λ w h. (K.getgrnam name w.os ∙ h.0, h.1) }

  Preserves-file_size : (path : Bytes) (n : ℕ) → Preserves Same (iposix_file_size os path n)
  unfolding iposix_file_size
  Preserves-file_size path n = record { at = λ w h. (K.stat path w.os ∙ h.0, h.1) }

  ruleset platform_rules = (
    base_rules, Preserves-error_reset, Preserves-uid_format, Preserves-gid_format,
    Preserves-uid_valid, Preserves-gid_valid, Preserves-uid_free, Preserves-gid_free,
    Preserves-uid_current, Preserves-gid_current, Preserves-uid_lookup, Preserves-gid_lookup,
    Preserves-file_size,
  )

  Keeps-find_user : (user : Option Bytes) (n : ℤ) → Keeps Same (find_user posix user n)
  Keeps-find_user none n = search platform_rules
  Keeps-find_user (some user) n = search platform_rules

  Keeps-find_group : (group : Option Bytes) (n : ℤ) → Keeps Same (find_group posix group n)
  Keeps-find_group none n = search platform_rules
  Keeps-find_group (some group) n = search platform_rules

  Preserves-lookup :
      (user : Option Bytes) (uid : ℤ) (group : Option Bytes) (gid : ℤ)
      → Preserves Same (install_uidgid_lookup posix user uid group gid)
  unfolding install_uidgid_lookup
  Preserves-lookup user uid group gid =
      search (platform_rules, Keeps-find_user, Keeps-find_group) depth 60

  Keeps-required :
      {A : Type 0} (o : Option A) (item : Item) (text : String)
      → Keeps Same (required os posix o item text)
  Keeps-required none item text = search platform_rules depth 20
  Keeps-required (some a) item text = search platform_rules depth 20

  Keeps-or_refuse :
      {A : Type 0} (o : Option A) (text : String) → Keeps Same (or_refuse posix o text)
  Keeps-or_refuse none text = search platform_rules depth 20
  Keeps-or_refuse (some a) text = search platform_rules depth 20

  ruleset translate_rules = (platform_rules, Keeps-required)

  Preserves-ntran_copy : (item : Item) → Preserves Same (ntran_copy os posix item)
  unfolding ntran_copy
  Preserves-ntran_copy item = search translate_rules depth 60

  Preserves-ntran_copy_exec : (item : Item) → Preserves Same (ntran_copy_exec os posix item)
  unfolding ntran_copy_exec
  Preserves-ntran_copy_exec item = search (translate_rules, Preserves-ntran_copy) depth 60

  Preserves-ntran_link : (item : Item) → Preserves Same (ntran_link os posix item)
  unfolding ntran_link
  Preserves-ntran_link item = search translate_rules depth 60

  Preserves-ntran_liblink : (item : Item) → Preserves Same (ntran_liblink os posix item)
  unfolding ntran_liblink
  Preserves-ntran_liblink item = search translate_rules depth 60

  Preserves-ntran_mkdir : (item : Item) → Preserves Same (ntran_mkdir os posix item)
  unfolding ntran_mkdir
  Preserves-ntran_mkdir item = search translate_rules depth 60

  module _ (writes fuel flags : ℕ) (dry : is_real_run flags ≡ false) where
    -- A dry run takes the second branch.
    Keeps-dry :
        {R A : Type 0} (p q : Proc S R A)
        → Keeps Same q
        → Keeps Same (if is_real_run flags then p else q)
    Keeps-dry p q k = rw dry k

    Keeps-status_at_end :
        (failure : Option Status) → Keeps Same (status_at_end os posix writes fuel failure)
    Keeps-status_at_end none = search platform_rules depth 20
    Keeps-status_at_end (some status) = search platform_rules depth 20

    ruleset dry_rules =
        (platform_rules, Keeps-or_refuse, Preserves-lookup, Keeps-dry, Keeps-status_at_end)

    Preserves-inst_copy : (item : Item) → Preserves Same (inst_copy os posix writes fuel item flags)
    unfolding inst_copy
    Preserves-inst_copy item = search dry_rules depth 60

    Preserves-inst_link : (item : Item) → Preserves Same (inst_link os posix writes fuel item flags)
    unfolding inst_link
    Preserves-inst_link item = search dry_rules depth 60

    Preserves-inst_mkdir :
        (item : Item) → Preserves Same (inst_mkdir os posix writes fuel item flags)
    unfolding inst_mkdir
    Preserves-inst_mkdir item = search dry_rules depth 60

    Preserves-deinst_copy :
        (item : Item) → Preserves Same (deinst_copy os posix writes fuel item flags)
    unfolding deinst_copy
    Preserves-deinst_copy item = search dry_rules depth 60

    Preserves-deinst_link :
        (item : Item) → Preserves Same (deinst_link os posix writes fuel item flags)
    unfolding deinst_link
    Preserves-deinst_link item = search dry_rules depth 60

    Preserves-deinst_mkdir :
        (item : Item) → Preserves Same (deinst_mkdir os posix writes fuel item flags)
    unfolding deinst_mkdir
    Preserves-deinst_mkdir item = search dry_rules depth 60

    Preserves-run_item :
        (entry : InstOp S) (item : Item)
        → ((i : Item) → Preserves Same (entry.trans i))
        → ((i : Item) → Preserves Same (entry.oper i flags))
        → Preserves Same (run_item os posix writes fuel entry item flags)
    Preserves-run_item entry item trans oper = search (platform_rules, trans, oper) depth 60

    pub install-Preserves :
        (op : Op) (item : Item)
        → Preserves Same
            (run_item os posix writes fuel (install_opers os posix writes fuel op) item flags)
    unfolding install_opers inst_liblink
    install-Preserves copy item =
        Preserves-run_item (install_opers os posix writes fuel copy) item Preserves-ntran_copy
          Preserves-inst_copy
    install-Preserves copy_exec item =
        Preserves-run_item (install_opers os posix writes fuel copy_exec) item
          Preserves-ntran_copy_exec Preserves-inst_copy
    install-Preserves symlink item =
        Preserves-run_item (install_opers os posix writes fuel symlink) item Preserves-ntran_link
          Preserves-inst_link
    install-Preserves mkdir item =
        Preserves-run_item (install_opers os posix writes fuel mkdir) item Preserves-ntran_mkdir
          Preserves-inst_mkdir
    install-Preserves liblink item =
        Preserves-run_item (install_opers os posix writes fuel liblink) item Preserves-ntran_liblink
          Preserves-inst_link

    pub deinstall-Preserves :
        (op : Op) (item : Item)
        → Preserves Same
            (run_item os posix writes fuel (deinst_opers os posix writes fuel op) item flags)
    unfolding deinst_opers deinst_liblink
    deinstall-Preserves copy item =
        Preserves-run_item (deinst_opers os posix writes fuel copy) item Preserves-ntran_copy
          Preserves-deinst_copy
    deinstall-Preserves copy_exec item =
        Preserves-run_item (deinst_opers os posix writes fuel copy_exec) item
          Preserves-ntran_copy_exec Preserves-deinst_copy
    deinstall-Preserves symlink item =
        Preserves-run_item (deinst_opers os posix writes fuel symlink) item Preserves-ntran_link
          Preserves-deinst_link
    deinstall-Preserves mkdir item =
        Preserves-run_item (deinst_opers os posix writes fuel mkdir) item Preserves-ntran_mkdir
          Preserves-deinst_mkdir
    deinstall-Preserves liblink item =
        Preserves-run_item (deinst_opers os posix writes fuel liblink) item Preserves-ntran_liblink
          Preserves-deinst_link

-- What a call leaves of the view, if it returns.
abbrev pub LeavesView : {S V A : Type 0} → (S → V) → V → Res S A → Type 0
LeavesView view v (done a w) = view w.os ≡ v
LeavesView view v (fault x) = Unit

module _ {S V : Type 0} (os : Os S) (view : S → V) (K : ReadsKeep os view) (writes fuel flags : ℕ)
    (w : World S) (item : Item) where
  leaves :
      {A : Type 0} (r : Res S A)
      → ReturnsIn (Same os view K (view w.os)) r
      → LeavesView view (view w.os) r
  leaves (done a v) h = h.0
  leaves (fault x) h = tt

  -- On a POSIX system, with flags that ask for a dry run, and for a view of the system that the
  -- reading calls and the info callback leave as it is: if install returns, for an item of any
  -- kind and whatever failed in it, the view is as it was.
  pub install_dry :
      is_real_run flags ≡ false
      → CallbackKeeps view w.callback_info
      → LeavesView view
          (view w.os)
          (install os (install_platform_posix os) writes fuel item flags w)
  unfolding install
  install_dry dry quiet = leaves _ (
      (install-Preserves os view K (view w.os) writes fuel flags dry item.op item).at w
        (refl, quiet))

  -- On a POSIX system, with flags that ask for a dry run, and for a view of the system that the
  -- reading calls and the info callback leave as it is: if deinstall returns, for an item of any
  -- kind and whatever failed in it, the view is as it was.
  pub deinstall_dry :
      is_real_run flags ≡ false
      → CallbackKeeps view w.callback_info
      → LeavesView view
          (view w.os)
          (deinstall os (install_platform_posix os) writes fuel item flags w)
  unfolding deinstall
  deinstall_dry dry quiet = leaves _ (
      (deinstall-Preserves os view K (view w.os) writes fuel flags dry item.op item).at w
        (refl, quiet))
