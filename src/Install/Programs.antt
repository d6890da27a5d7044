-- ===== src/Install/Programs.antt =====
-- installer.c, deinstaller.c, instchk.c and the table of insthier.c.
pub mod Failed
pub mod Start
pub mod DryRun
use coreland_c_string.Base.{
  ℕ, ◌==◌, ltb, Option, none, some, List, [], ◌∷◌, ◌++◌, Bytes, length, ℤ, pos, lit, String,
  decimal, if◌then◌else◌,
}
use coreland_c_string.Install.Header.{
  Op, copy, copy_exec, mkdir, Item, Status, ok, error, fatal, dryrun,
}
use coreland_c_string.Install.World.{
  M, Proc, proc, call, pure, skip, raise, gets, modify, return_now, asserted, Callback,
  buffer_overflow, ◌>>=◌, ◌>>◌,
}
use coreland_c_string.Install.Os.{Os}
use coreland_c_string.Install.Platform.{Platform}
use coreland_c_string.Install.Operators.{is_ok}
use coreland_c_string.Install.Translate.{Translated}
use coreland_c_string.Install.Interface.{
  install, install_check, deinstall, install_init, install_fake_root, install_callback_warn_set,
  install_callback_info_set,
}

-- The strings of ctxt.h, whose values the build generates.
pub record Ctxt : Type 0 where
  pub bindir : Bytes
  pub incdir : Bytes
  pub dlibdir : Bytes
  pub slibdir : Bytes
  pub repos : Bytes
  pub fakeroot : Bytes
  pub version : Bytes

abbrev mkdir_item : Bytes → ℕ → Item
mkdir_item dir mode = record {
  op = mkdir;
  src = none;
  dst = none;
  dir = some dir;
  owner = none;
  group = none;
  perm = pos mode;
}

abbrev file_item : Op → String → Option Bytes → Bytes → ℕ → Item
file_item op src dst dir mode = record {
  op = op;
  src = some (lit src);
  dst = dst;
  dir = some dir;
  owner = none;
  group = none;
  perm = pos mode;
}

-- `insthier`
unfoldable pub insthier : Ctxt → List Item
insthier ctxt =
    mkdir_item ctxt.bindir 0o755
    ∷ mkdir_item ctxt.incdir 0o755
    ∷ mkdir_item ctxt.dlibdir 0o755
    ∷ mkdir_item ctxt.slibdir 0o755
    ∷ mkdir_item ctxt.repos 0o755
    ∷ file_item copy "c_string-conf.c" none ctxt.repos 0o644
    ∷ file_item copy "c_string-arrays.ads" none ctxt.repos 0o644
    ∷ file_item copy "c_string-arrays.ads" none ctxt.incdir 0o644
    ∷ file_item copy "c_string.ads" none ctxt.repos 0o644
    ∷ file_item copy "c_string.ads" none ctxt.incdir 0o644
    ∷ file_item copy "c_string-arrays.adb" none ctxt.repos 0o644
    ∷ file_item copy "c_string-arrays.adb" none ctxt.incdir 0o644
    ∷ file_item copy "c_string.adb" none ctxt.repos 0o644
    ∷ file_item copy "c_string.adb" none ctxt.incdir 0o644
    ∷ file_item copy "c_string-arrays.ali" none ctxt.repos 0o644
    ∷ file_item copy "c_string-arrays.ali" none ctxt.incdir 0o444
    ∷ file_item copy "c_string.ali" none ctxt.repos 0o644
    ∷ file_item copy "c_string.ali" none ctxt.incdir 0o444
    ∷ file_item copy "c_string.sld" none ctxt.repos 0o644
    ∷ file_item copy "c_string.a" (some (lit "libc_string.a")) ctxt.slibdir 0o644
    ∷ file_item copy "c_string-conf.ld" none ctxt.repos 0o644
    ∷ file_item copy_exec "c_string-conf" none ctxt.bindir 0o755
    ∷ []

module _ {S : Type 0} (os : Os S) (platform : Platform S) (writes fuel : ℕ) where
  -- `cb_info` and `cb_warn`
  abbrev pub cb_info : Callback S
  cb_info str pointer = os.print_error (str ++ lit "\n")

  abbrev pub cb_warn : Bytes → Callback S
  cb_warn progname str pointer =
      os.print_error (progname ++ (lit ": warning: " ++ (str ++ lit "\n")))

  abbrev shown : Option Bytes → Bytes
  shown none = lit "(null)"
  shown (some text) = text

  -- `fprintf (stderr, "%s: error: %s - %s\n", …)`, with its assertion
  abbrev pub report : {R : Type 0} → Bytes → String → Status → Proc S R (Unit {0})
  report progname kind status = do
    message ← asserted status.message
    modify λ w. record w {
      os =
          os.print_error
            (progname
              ++ (lit kind ++ (message ++ (lit " - " ++ (shown status.error_message ++ lit "\n")))))
            w.os;
    }

  -- The `switch` on the status of an item: a fatal one ends the program.
  abbrev pub dispatch : Bytes → Status → Proc S ℤ (Unit {0})
  dispatch progname status = elim status.status [
    | ok ↦ skip
    | error ↦ report progname ": error: " status
    | fatal ↦ report progname ": fatal: " status >> return_now (pos 1)
  ]

  -- The loop over the items, one call for each.
  unfoldable pub run_items : Bytes → (Item → M S Translated) → List Item → Proc S ℤ (Unit {0})
  run_items progname action [] = skip
  run_items progname action (item ∷ items) = do
    result ← call (action item)
    dispatch progname result.0
    run_items progname action items

  -- What the three programs do first.
  unfoldable pub start : Bytes → Ctxt → Proc S ℤ (Unit {0})
  unfolding install_init
  start progname ctxt = do
    elim ctxt.fakeroot [
      | [] ↦ skip
      | c ∷ cs ↦ do
        modify λ w. record w {
          os =
              os.print_error
                (progname ++ (lit ": info: using fake root - " ++ ((c ∷ cs) ++ lit "\n"))) w.os;
        }
        modify (install_fake_root (some (c ∷ cs)))
    ]
    status ← call (install_init os platform writes fuel (some (lit "conf-sosuffix")))
    if is_ok status then skip else report progname ": fatal: init: " status >> return_now (pos 1)
    modify (install_callback_warn_set (some (cb_warn progname)))
    modify (install_callback_info_set (some cb_info))

  -- `flag = (argc > 1) ? INSTALL_DRYRUN : 0`
  abbrev pub flag_of : ℕ → ℕ
  flag_of argc = if ltb 1 argc then dryrun else 0

  -- `main` of installer.c
  unfoldable pub installer_main : Ctxt → List Item → ℕ → M S ℤ
  unfolding run_items start
  installer_main ctxt items argc = proc do
    start (lit "installer") ctxt
    run_items (lit "installer") (λ item. install os platform writes fuel item (flag_of argc)) items
    pure (pos 0)

  -- The items from the last to the first.
  unfoldable pub backwards : List Item → List Item
  backwards [] = []
  backwards (item ∷ items) = backwards items ++ (item ∷ [])

  -- `index = insthier_len - 1`, which an empty table puts outside of it.
  abbrev pub some_item : {R : Type 0} → List Item → Proc S R (Unit {0})
  some_item [] = raise buffer_overflow
  some_item (item ∷ items) = skip

  -- `main` of deinstaller.c
  unfoldable pub deinstaller_main : Ctxt → List Item → ℕ → M S ℤ
  unfolding run_items start
  deinstaller_main ctxt items argc = proc do
    start (lit "deinstaller") ctxt
    some_item items
    run_items (lit "deinstaller") (λ item. deinstall os platform writes fuel item (flag_of argc))
        (backwards items)
    pure (pos 0)

  -- `main` of instchk.c
  unfoldable pub instchk_main : Ctxt → List Item → M S ℤ
  unfolding run_items start
  instchk_main ctxt items = proc do
    start (lit "instchk") ctxt
    run_items (lit "instchk") (λ item. install_check os platform writes fuel item) items
    failed ← gets (λ w. w.failed)
    if failed == 0 then pure (pos 0) else (do
      modify λ w. record w {
        os =
            os.print_error
              (lit "instchk: "
                ++ (decimal failed
                    ++ (lit " of " ++ (decimal (length items) ++ lit " files failed\n"))))
              w.os;
      }
      pure (pos 1))
