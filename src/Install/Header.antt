-- ===== src/Install/Header.antt =====
-- The types and constants of install.h and install_os.h, in the POSIX configuration.
use coreland_c_string.Base.{ℕ, Option, none, Bytes, ℤ, minus_one}

-- `enum install_op_t`
pub data Op : Type 0 where
  copy copy_exec symlink mkdir liblink : Op

-- `enum install_status_enum_t`
pub data StatusCode : Type 0 where
  ok error fatal : StatusCode

-- `struct install_status_t`
pub record Status : Type 0 where
  pub status : StatusCode
  pub message : Option Bytes
  pub error_message : Option Bytes

-- `INSTALL_STATUS_INIT`
abbrev pub status_init : Status
status_init = record { status = fatal; message = none; error_message = none }

-- `struct install_item`; a null pointer is `none`.
pub record Item : Type 0 where
  pub op : Op
  pub src : Option Bytes
  pub dst : Option Bytes
  pub dir : Option Bytes
  pub owner : Option Bytes
  pub group : Option Bytes
  pub perm : ℤ

-- `enum install_file_type_t`
pub data FileType : Type 0 where
  file character_special directory symlink socket fifo : FileType

-- `permissions_t`: an `unsigned int`
abbrev pub Permissions : Type 0
Permissions = ℕ

-- `INSTALL_NULL_PERMISSIONS`
abbrev pub null_permissions : Permissions
null_permissions = 0

-- `user_id_t`, `group_id_t`, `INSTALL_NULL_UID` and `INSTALL_NULL_GID`
abbrev pub UserNumber : Type 0
UserNumber = ℤ

abbrev pub GroupNumber : Type 0
GroupNumber = ℤ

abbrev pub null_uid : UserNumber
null_uid = minus_one

abbrev pub null_gid : GroupNumber
null_gid = minus_one

-- `INSTALL_NO_FLAGS`, `INSTALL_DRYRUN`, `INSTALL_MAX_PATHLEN`, `INSTALL_MAX_MSGLEN`,
-- `INSTALL_FMT_UID` and `INSTALL_FMT_GID` (an `int` has four bytes)
abbrev pub no_flags : ℕ
no_flags = 0

abbrev pub dryrun : ℕ
dryrun = 1

abbrev pub max_pathlen : ℕ
max_pathlen = 1024

abbrev pub max_msglen : ℕ
max_msglen = 8192

abbrev pub fmt_uid : ℕ
fmt_uid = 32

abbrev pub fmt_gid : ℕ
fmt_gid = 32
