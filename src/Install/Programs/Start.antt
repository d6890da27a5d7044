-- ===== src/Install/Programs/Start.antt =====
-- The start of installer.c, deinstaller.c and instchk.c, their messages and their loop: what they keep.
use coreland_c_string.Base.{
  ℕ, String, ◌==◌, ◌==ℤ◌, length, ◌≡◌, ◌∙◌, Option, none, some, List, [], ◌∷◌, ◌++◌, Bytes, ℤ, pos,
  lit, snprintf_text, arith, if◌then◌else◌,
}
use coreland_c_string.Install.Header.{max_pathlen, Item, Status, StatusCode, ok, error, fatal}
use coreland_c_string.Install.World.{World, M, skip, pure, modify, sys, ◌>>◌}
use coreland_c_string.Install.World.Keeps.{
  Keeps, Preserves, Keeps-bind, Keeps-asserted, Keeps-gets, Keeps-pure, Keeps-skip, Keeps-if,
  Keeps-return, Keeps-call, Preserves-proc, keeps_rules,
}
use coreland_c_string.Install.Os.{Os, FileInfo}
use coreland_c_string.Install.Status.{refuse}
use coreland_c_string.Install.Os.Stdio.{feof}
use coreland_c_string.Install.Platform.{Platform}
use coreland_c_string.Install.Posix.{install_platform_posix, iposix_init}
use coreland_c_string.Install.Interface.{
  install_init, empty_suffix, check_fake_root, suffix_buffer, install_fake_root,
  install_callback_warn_set, install_callback_info_set,
}
use coreland_c_string.Install.Strings.{c_string, install_suffix_sanitize}
use coreland_c_string.Install.Interface.DryRun.{
  ReadsKeep, Same, Keeps-sys, Keeps-fopen, Keeps-fread, Keeps-ferror, Keeps-fclose,
  Preserves-status,
}
use coreland_c_string.Install.Operators.{is_ok}
use coreland_c_string.Install.Translate.{Translated}
use coreland_c_string.Install.Programs.{Ctxt, cb_info, cb_warn, report, dispatch, run_items, start}

-- What the programs need more: a test for the end of a file and a message change nothing of it.
pub record MessagesKeep {S V : Type 0} (os : Os S) (view : S → V) : Type 0 where
  pub feof : (f : ℕ) (s : S) → view (os.feof f s).1 ≡ view s
  pub print_error : (text : Bytes) (s : S) → view (os.print_error text s) ≡ view s

module _ {S V : Type 0} (os : Os S) (view : S → V) (K : ReadsKeep os view)
    (N : MessagesKeep os view) (seen : V) where
  abbrev I : World S → Type 0
  I = Same os view K seen

  abbrev posix : Platform S
  posix = install_platform_posix os

  Keeps-feof : {R : Type 0} (f : ℕ) → Keeps {R = R} I (feof os f)
  Keeps-feof f = record { at = λ w h. ground (arith, N.feof f w.os) }

  Keeps-stat : {R : Type 0} (path : Bytes) → Keeps {R = R} I (sys (os.stat path))
  Keeps-stat path = Keeps-sys os view K seen (os.stat path) (K.stat path)

  -- A change of the state that leaves the system and the info callback.
  Keeps-modify :
      {R : Type 0} (f : World S → World S)
      → ((w : World S) → I w → I (f w))
      → Keeps {R = R} I (modify f)
  Keeps-modify f k = record { at = k }

  Preserves-init : Preserves I (iposix_init os)
  unfolding iposix_init
  Preserves-init = record { at = λ w h. h }

  ruleset init_rules = (
    keeps_rules, Keeps-fopen, Keeps-fread, Keeps-ferror, Keeps-fclose, Preserves-status, Keeps-feof,
    Keeps-stat, Preserves-init,
  )

  module _ (writes fuel : ℕ) where
    empty-Keeps : (file : Bytes) (fp : ℕ) → Keeps I (empty_suffix os posix writes fuel file fp)
    unfolding empty_suffix
    empty-Keeps file fp = search init_rules depth 40

    Keeps-refuse : {A : Type 0} (text : Bytes) → Keeps {A = A} I (refuse posix text)
    Keeps-refuse text = search init_rules depth 20

    Keeps-opened :
        {A : Type 0} (text : Bytes) (opened : Option A)
        → Keeps {R = Status} {A = A} I (elim opened [ none ↦ refuse posix text | some f ↦ pure f ])
    Keeps-opened text none = Keeps-refuse text
    Keeps-opened text (some f) = Keeps-pure f

    Keeps-found :
        (missing other : Bytes) (found : Option FileInfo)
        → Keeps {R = Status} {A = Unit {0}} I (elim found [
          | none ↦ refuse posix missing
          | some sb ↦ if os.s_isdir sb.st_mode then skip else refuse posix other
        ])
    Keeps-found missing other none = search init_rules depth 20
    Keeps-found missing other (some sb) = search init_rules depth 20

    Keeps-fake_root : (root : Option Bytes) → Keeps I (check_fake_root os posix writes fuel root)
    Keeps-fake_root none = search init_rules
    Keeps-fake_root (some root) = Keeps-bind _ _ (Keeps-stat root) (λ found.
        Keeps-found
          (snprintf_text max_pathlen (lit "fake root " ++ (root ++ lit " does not exist")))
          (snprintf_text max_pathlen (lit "fake root " ++ (root ++ lit " is not a directory")))
          found)

    init-Preserves : (file : Option Bytes) → Preserves I (install_init os posix writes fuel file)
    unfolding install_init
    init-Preserves file = Preserves-proc _ (
        Keeps-bind _ _ (Keeps-asserted file) (λ name. Keeps-bind _ _ (Keeps-gets _) (λ root.
          Keeps-bind _ _ (Keeps-fake_root root) (λ _.
            Keeps-bind _ _ (Keeps-fopen os view K seen name) (λ opened.
              Keeps-bind _ _
                (Keeps-opened (snprintf_text max_pathlen (lit "could not open " ++ name)) opened)
                (λ fp. Keeps-bind _ _ (Keeps-fread os view K seen fp _) (λ read.
                  Keeps-bind _ _
                    (Keeps-modify
                      (λ w. record w {
                        exec_suffix = [];
                        dlib_suffix = c_string (suffix_buffer read);
                      })
                      (λ w h. h))
                    (λ _.
                      Keeps-bind _ _
                        (Keeps-if (length read == 0) _ _
                          (Keeps-bind _ _ (empty-Keeps name fp) (λ status. Keeps-return status))
                          Keeps-skip)
                        (λ _.
                          Keeps-bind _ _
                            (Keeps-modify
                              (λ w. record w {
                                dlib_suffix =
                                    c_string (install_suffix_sanitize (suffix_buffer read));
                              })
                              (λ w h. h))
                            (λ _. Keeps-bind _ _ (Keeps-fclose os view K seen fp) (λ closed.
                              Keeps-bind _ _
                                (Keeps-if (closed ==ℤ pos 0) _ _ Keeps-skip (
                                  Keeps-refuse
                                    (snprintf_text max_pathlen (lit "could not close " ++ name))))
                                (λ _. Keeps-call _ Preserves-init))))))))))))

    Keeps-report :
        {R : Type 0} (progname : Bytes) (kind : String) (status : Status)
        → Keeps {R = R} I (report os posix writes fuel progname kind status)
    Keeps-report progname kind status =
        Keeps-bind _ _ (Keeps-asserted status.message)
          (λ message. Keeps-modify _ (λ w h. (N.print_error _ w.os ∙ h.0, h.1)))

    Keeps-dispatch :
        (progname : Bytes) (code : StatusCode) (message text : Option Bytes)
        → Keeps I (
            dispatch os posix writes fuel progname
              (record { status = code; message = message; error_message = text }))
    Keeps-dispatch progname ok message text = search keeps_rules
    Keeps-dispatch progname error message text =
        Keeps-report progname ": error: "
          (record { status = error; message = message; error_message = text })
    Keeps-dispatch progname fatal message text =
        Keeps-bind _ _
          (Keeps-report progname ": fatal: "
            (record { status = fatal; message = message; error_message = text }))
          (λ _. Keeps-return (pos 1))

    pub Keeps-run_items :
        (progname : Bytes) (action : Item → M S Translated) (items : List Item)
        → ((item : Item) → Preserves I (action item))
        → Keeps I (run_items os posix writes fuel progname action items)
    unfolding run_items
    Keeps-run_items progname action [] k = search keeps_rules
    Keeps-run_items progname action (item ∷ items) k =
        Keeps-bind _ _ (Keeps-call _ (k item)) (λ result.
          Keeps-bind _ _
            (Keeps-dispatch progname result.0.status result.0.message result.0.error_message)
            (λ _. Keeps-run_items progname action items k))

    Keeps-printed :
        {R : Type 0} (text : Bytes)
        → Keeps {R = R} I (modify λ w. record w { os = os.print_error text w.os })
    Keeps-printed text = record { at = λ w h. (N.print_error text w.os ∙ h.0, h.1) }

    Keeps-announced :
        (progname fakeroot : Bytes)
        → Keeps {R = ℤ} I (elim fakeroot [
          | [] ↦ skip
          | c ∷ cs ↦ do
            modify λ w. record w {
              os =
                  os.print_error
                    (progname ++ (lit ": info: using fake root - " ++ ((c ∷ cs) ++ lit "\n")))
                    w.os;
            }
            modify (install_fake_root (some (c ∷ cs)))
        ])
    unfolding install_fake_root
    Keeps-announced progname [] = Keeps-skip
    Keeps-announced progname (c ∷ cs) =
        Keeps-bind _ _
          (Keeps-printed (progname ++ (lit ": info: using fake root - " ++ ((c ∷ cs) ++ lit "\n"))))
          (λ _. Keeps-modify (install_fake_root (some (c ∷ cs))) (λ w h. h))

    pub Keeps-start :
        (progname : Bytes) (ctxt : Ctxt) → Keeps I (start os posix writes fuel progname ctxt)
    unfolding start install_callback_warn_set install_callback_info_set
    Keeps-start progname ctxt = Keeps-bind _ _ (Keeps-announced progname ctxt.fakeroot) (λ _.
        Keeps-bind _ _ (Keeps-call _ (init-Preserves (some (lit "conf-sosuffix")))) (λ status.
          Keeps-bind _ _
            (Keeps-if (is_ok status) _ _ Keeps-skip (
              Keeps-bind _ _ (Keeps-report progname ": fatal: init: " status)
                (λ _. Keeps-return (pos 1))))
            (λ _.
              Keeps-bind _ _
                (Keeps-modify
                  (install_callback_warn_set (some (cb_warn os posix writes fuel progname)))
                  (λ w h. h))
                (λ _.
                  Keeps-modify (install_callback_info_set (some (cb_info os posix writes fuel)))
                    (λ w h. (h.0, λ text pointer s. N.print_error _ s))))))
