-- ===== src/Install/Interface/FakeRoot.antt =====
-- With a fake root, the operators of install-core.c are given paths below it.
use coreland_c_string.Base.{ℕ, ◌<◌, ◌≡◌, refl, sym, subst, true, Option, some, Bytes, length}
use coreland_c_string.Install.Header.{Op, copy, copy_exec, symlink, mkdir, liblink, Item}
use coreland_c_string.Install.World.{World, M, Res, done, fault}
use coreland_c_string.Install.Os.{Os}
use coreland_c_string.Install.Posix.{install_platform_posix}
use coreland_c_string.Install.Operators.{is_ok}
use coreland_c_string.Install.Translate.{Translated}
use coreland_c_string.Install.Translate.Rooted.{
  Below, ntran_copy-Returns, ntran_copy_exec-Returns, ntran_link-Returns, ntran_liblink-Returns,
  ntran_mkdir-Returns, ntran_chk_link-Returns, ntran_chk_liblink-Returns,
}
use coreland_c_string.Install.Translate.Statements.{Returns}
use coreland_c_string.Install.Interface.{install_opers, instchk_opers, deinst_opers}

-- The path that inst_* and deinst_* write or remove, or the directory of the link that they do.
abbrev pub written : Op → Item → Option Bytes
written copy item = item.dst
written copy_exec item = item.dst
written symlink item = item.dir
written mkdir item = item.dir
written liblink item = item.dir

-- The path that instchk_* looks at.
abbrev pub examined : Op → Item → Option Bytes
examined copy item = item.dst
examined copy_exec item = item.dst
examined symlink item = item.dst
examined mkdir item = item.dir
examined liblink item = item.dst

-- A translation that returns OK has put the path below the root.
abbrev pub PutsBelow : {S : Type 0} → Bytes → (Item → Option Bytes) → Res S Translated → Type 0
PutsBelow root path (done t w) = is_ok t.0 ≡ true → Below root (path t.1)
PutsBelow root path (fault x) = Unit

module _ {S : Type 0} (os : Os S) (root : Bytes) (short : length root < 1023) where
  Returns-PutsBelow :
      (path : Item → Option Bytes) (r : Res S Translated)
      → Returns os root (λ item. Below root (path item)) r
      → PutsBelow root path r
  Returns-PutsBelow path (done t w) h = λ good. (h good).0
  Returns-PutsBelow path (fault x) h = tt

  module _ (writes fuel : ℕ) (item : Item) (w : World S) (rooted : w.fake_root ≡ some root) where
    install_below :
        (op : Op)
        → PutsBelow root
            (written op)
            ((install_opers os (install_platform_posix os) writes fuel op).trans item w)
    unfolding install_opers
    install_below copy = Returns-PutsBelow _ _ (ntran_copy-Returns os root short item w rooted)
    install_below copy_exec =
        Returns-PutsBelow _ _ (ntran_copy_exec-Returns os root short item w rooted)
    install_below symlink = Returns-PutsBelow _ _ (ntran_link-Returns os root short item w rooted)
    install_below mkdir = Returns-PutsBelow _ _ (ntran_mkdir-Returns os root short item w rooted)
    install_below liblink =
        Returns-PutsBelow _ _ (ntran_liblink-Returns os root short item w rooted)

    check_below :
        (op : Op)
        → PutsBelow root
            (examined op)
            ((instchk_opers os (install_platform_posix os) writes fuel op).trans item w)
    unfolding instchk_opers
    check_below copy = Returns-PutsBelow _ _ (ntran_copy-Returns os root short item w rooted)
    check_below copy_exec =
        Returns-PutsBelow _ _ (ntran_copy_exec-Returns os root short item w rooted)
    check_below symlink = Returns-PutsBelow _ _ (ntran_chk_link-Returns os root short item w rooted)
    check_below mkdir = Returns-PutsBelow _ _ (ntran_mkdir-Returns os root short item w rooted)
    check_below liblink =
        Returns-PutsBelow _ _ (ntran_chk_liblink-Returns os root short item w rooted)

    -- The removal of an item translates it as the installation does.
    deinst_trans :
        (op : Op)
        → (deinst_opers os (install_platform_posix os) writes fuel op).trans
          ≡ (install_opers os (install_platform_posix os) writes fuel op).trans
    unfolding deinst_opers install_opers
    deinst_trans copy = refl
    deinst_trans copy_exec = refl
    deinst_trans symlink = refl
    deinst_trans mkdir = refl
    deinst_trans liblink = refl

    -- On a POSIX system, with a fake root of fewer than 1023 bytes: whatever the operation and the
    -- item, a translation that returns OK has put the path that the operator of install or of
    -- deinstall writes or removes, or for a link the directory that the link is in, and the path
    -- that the operator of install_check looks at, behind the root and a slash, and so it is also
    -- where the path has been cut.
    pub operators_below :
        (op : Op)
        → PutsBelow root
            (written op)
            ((install_opers os (install_platform_posix os) writes fuel op).trans item w)
          × PutsBelow root
              (written op)
              ((deinst_opers os (install_platform_posix os) writes fuel op).trans item w)
          × PutsBelow root
              (examined op)
              ((instchk_opers os (install_platform_posix os) writes fuel op).trans item w)
    operators_below op = (
      install_below op,
      subst (λ (f : Item → M S Translated). PutsBelow root (written op) (f item w))
          (sym (deinst_trans op)) (install_below op),
      check_below op,
    )
