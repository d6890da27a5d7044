-- ===== src/Tests/FakeRoot.antt =====
-- The translation of a link behind a fake root.
use coreland_c_string.Base.{refl, arith, none, some, pos, lit}
use coreland_c_string.Install.Header.{symlink, Item}
use coreland_c_string.Install.World.{World}
use coreland_c_string.Install.Posix.{install_platform_posix}
use coreland_c_string.Install.Interface.{install_opers, instchk_opers, deinst_opers}
use coreland_c_string.Install.Interface.FakeRoot.{written, examined, PutsBelow, operators_below}
use coreland_c_string.Tests.Machine.{Machine, machine, fresh}

abbrev link_item : Item
link_item = record {
  op = symlink;
  src = some (lit "libz.so.1");
  dst = some (lit "libz.so");
  dir = some (lit "usr/lib");
  owner = none;
  group = none;
  perm = pos 0o755;
}

abbrev staged : World Machine
staged = record fresh { fake_root = some (lit "/tmp/stage") }

operators_below_example :
    PutsBelow
      (lit "/tmp/stage")
      (written symlink)
      ((install_opers machine (install_platform_posix machine) 1 1 symlink).trans link_item staged)
    × PutsBelow
        (lit "/tmp/stage")
        (written symlink)
        ((deinst_opers machine (install_platform_posix machine) 1 1 symlink).trans link_item staged)
    × PutsBelow (lit "/tmp/stage") (examined symlink) (
        (instchk_opers machine (install_platform_posix machine) 1 1 symlink).trans link_item staged)
unfolding lit
operators_below_example =
    operators_below machine (lit "/tmp/stage") (omega arith) 1 1 link_item staged refl symlink
