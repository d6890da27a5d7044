-- ===== src/Install.antt =====
-- The installer: install.h, install-core.c, install-posix.c, install-win32.c and the three programs.
pub mod Header
pub mod World
pub mod Os
pub mod Platform
pub mod Posix
pub mod Windows
pub mod Strings
pub mod Status
pub mod FileTypes
pub mod Rmkdir
pub mod Copy
pub mod Check
pub mod Operators
pub mod Translate
pub mod Interface
pub mod Programs
