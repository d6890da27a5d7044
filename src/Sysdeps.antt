-- ===== src/Sysdeps.antt =====
-- The C programs of SYSDEPS, which the build runs to learn about the system.
pub mod Ccversion
pub mod Cpuidx86
pub mod Locker
pub mod Probes
