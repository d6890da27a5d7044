-- ===== src/Install/Programs/DryRun.antt =====
-- installer.c and deinstaller.c in a dry run.
use coreland_c_string.Base.{ℕ, ltb, true, false, ◌≡◌, refl, List, [], ◌∷◌, ℤ, pos, lit}
use coreland_c_string.Install.Header.{Item}
use coreland_c_string.Install.World.{World, Res, done, fault}
use coreland_c_string.Install.World.Keeps.{
  Keeps, Preserves, ReturnsIn, Keeps-bind, Keeps-pure, Keeps-skip, Preserves-proc, keeps_rules,
}
use coreland_c_string.Install.Os.{Os}
use coreland_c_string.Install.Platform.{Platform}
use coreland_c_string.Install.Posix.{install_platform_posix}
use coreland_c_string.Install.Interface.{install, deinstall}
use coreland_c_string.Install.Interface.DryRun.{
  ReadsKeep, CallbackKeeps, LeavesView, Same, install-Preserves, deinstall-Preserves,
}
use coreland_c_string.Install.Operators.{is_real_run}
use coreland_c_string.Install.Programs.{
  Ctxt, flag_of, some_item, installer_main, deinstaller_main, backwards,
}
use coreland_c_string.Install.Programs.Start.{MessagesKeep, Keeps-start, Keeps-run_items}

module _ {S V : Type 0} (os : Os S) (view : S → V) (K : ReadsKeep os view)
    (N : MessagesKeep os view) (seen : V) (writes fuel : ℕ) where
  abbrev I : World S → Type 0
  I = Same os view K seen

  abbrev posix : Platform S
  posix = install_platform_posix os

  module _ (argc : ℕ) (more : ltb 1 argc ≡ true) where
    dry_flags : is_real_run (flag_of os posix writes fuel argc) ≡ false
    dry_flags = rw more refl

    installer-Preserves :
        (ctxt : Ctxt) (items : List Item)
        → Preserves I (installer_main os posix writes fuel ctxt items argc)
    unfolding installer_main install
    installer-Preserves ctxt items = Preserves-proc _ (
        Keeps-bind _ _ (Keeps-start os view K N seen writes fuel (lit "installer") ctxt) (λ _.
          Keeps-bind _ _
            (Keeps-run_items os view K N seen writes fuel (lit "installer") _ items (λ item.
              install-Preserves os view K seen writes fuel (flag_of os posix writes fuel argc)
                dry_flags item.op item))
            (λ _. Keeps-pure (pos 0))))

    Keeps-some_item : (items : List Item) → Keeps {R = ℤ} I (some_item os posix writes fuel items)
    Keeps-some_item [] = search keeps_rules
    Keeps-some_item (item ∷ items) = Keeps-skip

    deinstaller-Preserves :
        (ctxt : Ctxt) (items : List Item)
        → Preserves I (deinstaller_main os posix writes fuel ctxt items argc)
    unfolding deinstaller_main deinstall
    deinstaller-Preserves ctxt items = Preserves-proc _ (
        Keeps-bind _ _ (Keeps-start os view K N seen writes fuel (lit "deinstaller") ctxt) (λ _.
          Keeps-bind _ _ (Keeps-some_item items) (λ _.
            Keeps-bind _ _
              (Keeps-run_items os view K N seen writes fuel (lit "deinstaller") _
                (backwards os posix writes fuel items)
                (λ item.
                  deinstall-Preserves os view K seen writes fuel (flag_of os posix writes fuel argc)
                    dry_flags item.op item))
              (λ _. Keeps-pure (pos 0)))))

module _ {S V : Type 0} (os : Os S) (view : S → V) (K : ReadsKeep os view)
    (N : MessagesKeep os view) (writes fuel argc : ℕ) (ctxt : Ctxt) (items : List Item)
    (w : World S) where
  leaves :
      {A : Type 0} (r : Res S A)
      → ReturnsIn (Same os view K (view w.os)) r
      → LeavesView view (view w.os) r
  leaves (done a v) h = h.0
  leaves (fault x) h = tt

  -- On a POSIX system, and for a view of the system that the reading calls and messages leave as
  -- it is: if installer or deinstaller, called with an argument, returns for a table of any items,
  -- with a fake root or without, the view is as it was, whatever failed on the way.
  pub main_dry :
      ltb 1 argc ≡ true
      → CallbackKeeps view w.callback_info
      → LeavesView view
          (view w.os)
          (installer_main os (install_platform_posix os) writes fuel ctxt items argc w)
        × LeavesView view
            (view w.os)
            (deinstaller_main os (install_platform_posix os) writes fuel ctxt items argc w)
  main_dry more quiet = (
    leaves _ (
        (installer-Preserves os view K N (view w.os) writes fuel argc more ctxt items).at w
          (refl, quiet)),
    leaves _ (
        (deinstaller-Preserves os view K N (view w.os) writes fuel argc more ctxt items).at w
          (refl, quiet)),
  )
