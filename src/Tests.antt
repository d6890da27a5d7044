-- ===== src/Tests.antt =====
-- A small system to run the installer's code on, and the theorems at concrete data.
pub mod Ccversion
pub mod Disk
pub mod FakeRoot
pub mod Copying
pub mod Machine
pub mod Install
pub mod Conf
pub mod Sysdeps
pub mod Windows
