-- ===== src/Install/Interface.antt =====
-- The operator tables and the interface functions of install-core.c.
pub mod DryRun
pub mod Init
pub mod Failures
pub mod FakeRoot
use coreland_c_string.Base.{
  ℕ, ◌==◌, Bool, true, false, not, Option, none, some, List, [], ◌∷◌, ◌++◌, Bytes, length,
  replicate, ◌-◌, ℤ, pos, ◌==ℤ◌, lit, String, snprintf_text, if◌then◌else◌,
}
use coreland_c_string.Install.Header.{
  Op, copy, copy_exec, symlink, mkdir, liblink, Item, Status, status_init, max_pathlen,
}
use coreland_c_string.Install.World.{
  World, M, Res, done, fault, Exit, next, leave, stop, Proc, proc, call, sys, pure, skip, raise,
  gets, modify, return_now, asserted, Callback, ◌>>=◌, ◌>>◌,
}
use coreland_c_string.Install.Os.{Os, FileInfo}
use coreland_c_string.Install.Os.Stdio.{fopen, fread, feof, ferror, fclose}
use coreland_c_string.Install.Platform.{Platform}
use coreland_c_string.Install.Strings.{c_string, install_suffix_sanitize}
use coreland_c_string.Install.Status.{install_status_assign, error_status, refuse}
use coreland_c_string.Install.Operators.{
  is_ok, inst_copy, inst_link, inst_mkdir, inst_liblink, instchk_copy, instchk_link, instchk_mkdir,
  instchk_liblink, deinst_copy, deinst_link, deinst_mkdir, deinst_liblink,
}
use coreland_c_string.Install.Translate.{
  Translated, ntran_copy, ntran_copy_exec, ntran_link, ntran_mkdir, ntran_liblink, ntran_chk_link,
  ntran_chk_liblink,
}

-- `struct instop`
pub record InstOp (S : Type 0) : Type 0 where
  pub oper : Item → ℕ → M S Status
  pub trans : Item → M S Translated

-- `sizeof (inst_dlib_suffix)`
abbrev pub suffix_size : ℕ
suffix_size = 16

-- The suffix buffer after `fread` has put some bytes behind the dot.
abbrev pub suffix_buffer : Bytes → Bytes
suffix_buffer read = b'.' ∷ (read ++ replicate (suffix_size - 1 - length read) 0)

module _ {S : Type 0} (os : Os S) (platform : Platform S) (writes fuel : ℕ) where
  -- `install_opers`
  unfoldable pub install_opers : Op → InstOp S
  install_opers copy = record {
    oper = inst_copy os platform writes fuel;
    trans = ntran_copy os platform;
  }
  install_opers copy_exec = record {
    oper = inst_copy os platform writes fuel;
    trans = ntran_copy_exec os platform;
  }
  install_opers symlink = record {
    oper = inst_link os platform writes fuel;
    trans = ntran_link os platform;
  }
  install_opers mkdir = record {
    oper = inst_mkdir os platform writes fuel;
    trans = ntran_mkdir os platform;
  }
  install_opers liblink = record {
    oper = inst_liblink os platform writes fuel;
    trans = ntran_liblink os platform;
  }

  -- `instchk_opers`
  unfoldable pub instchk_opers : Op → InstOp S
  instchk_opers copy = record {
    oper = instchk_copy os platform writes fuel;
    trans = ntran_copy os platform;
  }
  instchk_opers copy_exec = record {
    oper = instchk_copy os platform writes fuel;
    trans = ntran_copy_exec os platform;
  }
  instchk_opers symlink = record {
    oper = instchk_link os platform writes fuel;
    trans = ntran_chk_link os platform;
  }
  instchk_opers mkdir = record {
    oper = instchk_mkdir os platform writes fuel;
    trans = ntran_mkdir os platform;
  }
  instchk_opers liblink = record {
    oper = instchk_liblink os platform writes fuel;
    trans = ntran_chk_liblink os platform;
  }

  -- `deinst_opers`
  unfoldable pub deinst_opers : Op → InstOp S
  deinst_opers copy = record {
    oper = deinst_copy os platform writes fuel;
    trans = ntran_copy os platform;
  }
  deinst_opers copy_exec = record {
    oper = deinst_copy os platform writes fuel;
    trans = ntran_copy_exec os platform;
  }
  deinst_opers symlink = record {
    oper = deinst_link os platform writes fuel;
    trans = ntran_link os platform;
  }
  deinst_opers mkdir = record {
    oper = deinst_mkdir os platform writes fuel;
    trans = ntran_mkdir os platform;
  }
  deinst_opers liblink = record {
    oper = deinst_liblink os platform writes fuel;
    trans = ntran_liblink os platform;
  }

  -- The body that `install`, `install_check` and `deinstall` share: the status and the item as
  -- its translation left it.
  abbrev pub run_item : InstOp S → Item → ℕ → M S Translated
  run_item entry item flags = proc do
    call platform.error_reset
    translated ← call (entry.trans item)
    status ← if is_ok translated.0 then call (entry.oper translated.1 flags) else pure translated.0
    sys os.fflush_all
    pure (status, translated.1)

  unfoldable pub install : Item → ℕ → M S Translated
  unfolding install_opers
  install item flags = run_item (install_opers item.op) item flags

  unfoldable pub install_check : Item → M S Translated
  unfolding instchk_opers
  install_check item = run_item (instchk_opers item.op) item 0

  unfoldable pub deinstall : Item → ℕ → M S Translated
  unfolding deinst_opers
  deinstall item flags = run_item (deinst_opers item.op) item flags

  -- A message in the static error buffer.
  abbrev complain : {A : Type 0} → Bytes → Proc S Status A
  complain text = refuse platform (snprintf_text max_pathlen text)

  -- `s_ifdir (sb.st_mode)`, for a fake root
  abbrev pub check_fake_root : Option Bytes → Proc S Status (Unit {0})
  check_fake_root none = skip
  check_fake_root (some root) = do
    found ← sys (os.stat root)
    elim found [
      | none ↦ complain (lit "fake root " ++ (root ++ lit " does not exist"))
      | some sb ↦
          if os.s_isdir sb.st_mode
          then skip
          else complain (lit "fake root " ++ (root ++ lit " is not a directory"))
    ]

  -- The status where nothing was read from the suffix file.
  unfoldable pub empty_suffix : Bytes → ℕ → Proc S Status Status
  empty_suffix suffix_file fp = do
    failed ← ferror os fp
    status ←
        if failed
        then error_status platform (snprintf_text max_pathlen (lit "error reading " ++ suffix_file))
        else pure status_init
    ended ← feof os fp
    status ←
        if ended
        then error_status platform (snprintf_text max_pathlen (suffix_file ++ lit " is empty"))
        else pure status
    fclose os fp
    pure status

  -- `install_init`
  unfoldable pub install_init : Option Bytes → M S Status
  unfolding empty_suffix
  install_init suffix_file = proc do
    suffix_file ← asserted suffix_file
    root ← gets (λ w. w.fake_root)
    check_fake_root root
    opened ← fopen os suffix_file (lit "rb")
    fp ← elim opened [ none ↦ complain (lit "could not open " ++ suffix_file) | some f ↦ pure f ]
    read ← fread os fp (suffix_size - 2)
    modify (λ w. record w { exec_suffix = []; dlib_suffix = c_string (suffix_buffer read) })
    if length read == 0 then (do status ← empty_suffix suffix_file fp; return_now status) else skip
    modify (λ w. record w { dlib_suffix = c_string (install_suffix_sanitize (suffix_buffer read)) })
    closed ← fclose os fp
    if closed ==ℤ pos 0 then skip else complain (lit "could not close " ++ suffix_file)
    call platform.init

module _ {S : Type 0} where
  -- The setters.
  unfoldable pub install_callback_warn_set : Option (Callback S) → World S → World S
  install_callback_warn_set callback w = record w { callback_warn = callback }

  unfoldable pub install_callback_info_set : Option (Callback S) → World S → World S
  install_callback_info_set callback w = record w { callback_info = callback }

  unfoldable pub install_callback_data_set : ℕ → World S → World S
  install_callback_data_set pointer w = record w { callback_data = pointer }

  unfoldable pub install_fake_root : Option Bytes → World S → World S
  install_fake_root path w = record w { fake_root = path }

-- `install_umask` and `install_error`
unfoldable pub install_umask : {S : Type 0} → Platform S → ℕ → M S ℕ
install_umask platform m = platform.umask m

unfoldable pub install_error : {S : Type 0} → Os S → ℕ → Bytes
install_error os i = os.strerror i
