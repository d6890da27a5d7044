-- ===== src/Install/Windows/Api.antt =====
-- What install-win32.c keeps in static variables, and the functions of Windows that it calls,
-- which are not part of the repository.
use coreland_c_string.Base.{ℕ, Bool, Option, Bytes, ℤ}
use coreland_c_string.Install.World.{World, Exit, next}

-- `BUFFER_SIZE`, `UNLEN` and `ERROR_INSUFFICIENT_BUFFER`
abbrev pub buffer_size : ℕ
buffer_size = 256

abbrev pub unlen : ℕ
unlen = 256

abbrev pub error_insufficient_buffer : ℕ
error_insufficient_buffer = 122

-- `OWNER_SECURITY_INFORMATION` and `GROUP_SECURITY_INFORMATION`
pub data SecurityPart : Type 0 where
  owner_part group_part : SecurityPart

-- A SID is known by its address, and a null pointer is -1, as in the rest of the installer's
-- model. What a SID or a security descriptor holds is part of the state `T` of Windows.
pub record Win32 (T : Type 0) : Type 0 where
  pub malloc : ℕ → T → ℤ × T
  pub free : ℤ → T → Unit {0} × T
  pub lookup_account_name : Bytes → ℤ → T → Bool × T
  pub get_user_name : ℕ → T → (Bool × Bytes × ℕ) × T
  pub get_last_error : T → ℕ
  pub set_last_error : ℕ → T → Unit {0} × T
  pub format_message : ℕ → T → Bytes × T
  pub equal_sid : ℤ → ℤ → T → ℤ × T
  pub convert_sid_to_string : ℤ → T → Option Bytes × T
  pub convert_string_to_sid : Bytes → T → Option ℤ × T
  pub open_process_token : T → (Bool × ℕ) × T
  pub primary_group_size : ℕ → T → (Bool × ℕ) × T
  pub primary_group : ℕ → ℤ → ℕ → T → Option ℤ × T
  pub get_length_sid : ℤ → T → ℕ
  pub copy_sid : ℕ → ℤ → ℤ → T → Bool × T
  pub make_dir : Bytes → T → ℤ × T
  pub initialize_descriptor : T → Bool × T
  pub set_descriptor_owner : ℤ → T → Bool × T
  pub is_valid_descriptor : T → Bool × T
  pub set_file_security : Bytes → T → Bool × T
  pub get_file_security : Bytes → SecurityPart → ℕ → T → (Bool × ℕ) × T
  pub descriptor_sid : SecurityPart → T → Option ℤ × T
  pub is_valid_sid : ℤ → T → Bool × T
  pub file_stat : Bytes → T → Option ℕ × T

-- The state of Windows and the static variables of the file.
pub record Statics (T : Type 0) : Type 0 where
  pub api : T
  pub administrator_id : ℤ
  pub user_name : Bytes
  pub user_name_size : ℕ
  pub user_name_fetched : Bool

abbrev pub run_api : {T R A : Type 0} → (T → A × T) → World (Statics T) → Exit (Statics T) R A
run_api f w = let (a, t) = f w.os.api in next a (record w { os = record w.os { api = t } })
