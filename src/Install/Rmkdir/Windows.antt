-- ===== src/Install/Rmkdir/Windows.antt =====
-- The result of install_rmkdir of install-core.c on the platform of install-win32.c.
use coreland_c_string.Base.{◌+◌, ◌<◌, some, Bytes, length, pos, ◌==ℤ◌}
use coreland_c_string.Install.Header.{Permissions, max_pathlen}
use coreland_c_string.Install.Os.{Os}
use coreland_c_string.Install.Rmkdir.{install_rmkdir}
use coreland_c_string.Install.Rmkdir.Laws.{Returns, install_rmkdir-Returns, of_bool_never}
use coreland_c_string.Install.Windows.{install_platform_win32}
use coreland_c_string.Install.Windows.Api.{Win32, Statics}
use coreland_c_string.Install.Windows.Files.{Core, iwin32_mkdir}
use coreland_c_string.Install.World.{World}

module _ {T : Type 0} (os : Os (Statics T)) (win : Win32 T) (core : Core (Statics T))
    (perm : Permissions) where
  -- On Windows as well install_rmkdir returns 1 for every path of at most 1022 bytes, whatever the
  -- calls of mkdir return.
  pub install_rmkdir-win32 :
      (dir : Bytes) (w : World (Statics T))
      → length dir + 1 < max_pathlen
      → Returns (pos 1) (install_rmkdir os (install_platform_win32 win core) perm (some dir) w)
  unfolding iwin32_mkdir
  install_rmkdir-win32 dir w short =
      install_rmkdir-Returns os (install_platform_win32 win core) perm
        (λ path w. of_bool_never ((win.make_dir path w.os.api).0 ==ℤ pos 0)) dir w short
