-- ===== src/Install/Platform.antt =====
-- `struct install_platform_callbacks_t` of install.h: what the core asks of the platform. A
-- result pointer is passed as its old value, and comes back beside the `int` that is returned.
use coreland_c_string.Base.{ℕ, Bytes, ℤ}
use coreland_c_string.Install.Header.{Status, Permissions, UserNumber, GroupNumber}
use coreland_c_string.Install.World.{M}

pub record Platform (S : Type 0) : Type 0 where
  pub init : M S Status
  pub error_message : ℕ → M S Bytes
  pub error_message_current : M S Bytes
  pub error_current : M S ℕ
  pub error_reset : M S (Unit {0})
  pub gid_compare : GroupNumber → GroupNumber → M S ℤ
  pub gid_format : GroupNumber → M S (Bytes × ℕ)
  pub gid_current : GroupNumber → M S (ℤ × GroupNumber)
  pub gid_lookup : Bytes → GroupNumber → M S (ℤ × GroupNumber)
  pub gid_valid : GroupNumber → M S ℤ
  pub gid_free : GroupNumber → M S (Unit {0})
  pub uid_compare : UserNumber → UserNumber → M S ℤ
  pub uid_format : UserNumber → M S (Bytes × ℕ)
  pub uid_current : UserNumber → M S (ℤ × UserNumber)
  pub uid_lookup : Bytes → UserNumber → M S (ℤ × UserNumber)
  pub uid_valid : UserNumber → M S ℤ
  pub uid_free : UserNumber → M S (Unit {0})
  pub make_dir : Bytes → Permissions → M S ℤ
  pub file_mode_get : Bytes → Permissions → M S (ℤ × Permissions)
  pub file_mode_set : Bytes → Permissions → M S ℤ
  pub file_ownership_get : Bytes → UserNumber → GroupNumber → M S (ℤ × UserNumber × GroupNumber)
  pub file_ownership_set : Bytes → UserNumber → GroupNumber → M S ℤ
  pub file_size : Bytes → ℕ → M S (ℤ × ℕ)
  pub file_link : Bytes → Bytes → M S ℤ
  pub can_set_ownership : UserNumber → M S ℤ
  pub supports_symlinks : M S ℤ
  pub supports_posix_modes : M S ℤ
  pub umask : ℕ → M S ℕ
