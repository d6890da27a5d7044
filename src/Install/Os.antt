-- ===== src/Install/Os.antt =====
-- The system calls and the stream functions that the installer uses, as a parameter: they are
-- not part of the repository. `S` is the state of the system, `errno` and the streams included.
pub mod Stdio
use coreland_c_string.Base.{ℕ, Bool, Option, Bytes, ℤ}

-- `struct stat`, as far as it is read
pub record FileInfo : Type 0 where
  pub st_mode : ℕ
  pub st_uid : ℤ
  pub st_gid : ℤ
  pub st_size : ℕ

pub record Os (S : Type 0) : Type 0 where
  pub errno : S → ℕ
  pub set_errno : ℕ → S → S
  pub strerror : ℕ → Bytes
  -- the error numbers and the file type tests of the system's headers
  pub eexist : ℕ
  pub eisdir : ℕ
  pub enametoolong : ℕ
  pub s_isreg : ℕ → Bool
  pub s_ischr : ℕ → Bool
  pub s_isdir : ℕ → Bool
  pub s_issock : ℕ → Bool
  pub s_isfifo : ℕ → Bool
  pub s_islnk : ℕ → Bool
  pub getuid : S → ℤ × S
  pub getgid : S → ℤ × S
  pub getpwnam : Bytes → S → Option ℤ × S
  pub getgrnam : Bytes → S → Option ℤ × S
  pub getlogin : S → Option Bytes × S
  -- `sscanf (buffer, "%d", &value)`: what it returns, and the value if there is one
  pub sscanf_int : Bytes → ℤ × Option ℤ
  pub stat : Bytes → S → Option FileInfo × S
  pub lstat : Bytes → S → Option FileInfo × S
  pub mkdir : Bytes → ℕ → S → ℤ × S
  pub rmdir : Bytes → S → ℤ × S
  pub chmod : Bytes → ℕ → S → ℤ × S
  pub chown : Bytes → ℤ → ℤ → S → ℤ × S
  pub symlink : Bytes → Bytes → S → ℤ × S
  pub unlink : Bytes → S → ℤ × S
  pub rename : Bytes → Bytes → S → ℤ × S
  pub chdir : Bytes → S → ℤ × S
  pub getcwd : ℕ → S → Option Bytes × S
  pub umask : ℕ → S → ℕ × S
  -- streams, by their number
  pub fopen : ℕ → Bytes → Bytes → S → Bool × S
  pub fread : ℕ → ℕ → S → Bytes × S
  pub fwrite : ℕ → Bytes → S → ℕ × S
  pub feof : ℕ → S → Bool × S
  pub ferror : ℕ → S → Bool × S
  pub fflush : ℕ → S → ℤ × S
  pub fclose : ℕ → S → ℤ × S
  pub fflush_all : S → ℤ × S
  -- `fprintf (stderr, …)` and `printf (…)` of the programs
  pub print_error : Bytes → S → S
  pub print : Bytes → S → S
