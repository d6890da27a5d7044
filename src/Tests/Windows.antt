-- ===== src/Tests/Windows.antt =====
-- The theorems on install-win32.c and sd-locker_win32.c at concrete data.
use coreland_c_string.Base.{
  ◌∷◌, arith, minus_one, ℕ, suc, ◌≡◌, refl, true, false, none, some, [], lit, pos, ◌==ℤ◌, of_bool,
}
use coreland_c_string.Install.Header.{ok, status_init, null_uid}
use coreland_c_string.Install.Os.{Os}
use coreland_c_string.Install.Rmkdir.{install_rmkdir}
use coreland_c_string.Install.Rmkdir.Laws.{Returns}
use coreland_c_string.Install.Rmkdir.Windows.{install_rmkdir-win32}
use coreland_c_string.Sysdeps.Locker.{Locker}
use coreland_c_string.Sysdeps.Locker.Moves.{Replies, logging, follow, run_moves}
use coreland_c_string.Sysdeps.Locker.Followed.{win32_run_command-follow}
use coreland_c_string.Sysdeps.Locker.Windows.{win32_run_command}
use coreland_c_string.Install.Windows.{iwin32_init, install_platform_win32}
use coreland_c_string.Install.Windows.Api.{Win32, Statics}
use coreland_c_string.Install.Windows.Files.{Core, iwin32_can_set_ownership}
use coreland_c_string.Install.Windows.Sids.{iwin32_get_sid, iwin32_uid_lookup}
use coreland_c_string.Install.Windows.Valid.{
  IsFound, iwin32_uid_lookup-IsFound, init-can_set_ownership,
}
use coreland_c_string.Install.World.{World, done, fault, assertion}

-- A Windows that knows every account, and counts the blocks it has given.
abbrev windows_api : Win32 ℕ
windows_api = record {
  malloc = λ size n. (pos (suc n), suc n);
  free = λ sid n. (tt, n);
  lookup_account_name = λ name sid n. (true, n);
  get_user_name = λ size n. ((true, lit "joe", 4), n);
  get_last_error = λ n. 5;
  set_last_error = λ code n. (tt, n);
  format_message = λ code n. (lit "denied", n);
  equal_sid = λ a b n. (of_bool (a ==ℤ b), n);
  convert_sid_to_string = λ sid n. (some (lit "S-1"), n);
  convert_string_to_sid = λ text n. (some (pos 1), n);
  open_process_token = λ n. ((true, 1), n);
  primary_group_size = λ token n. ((false, 32), n);
  primary_group = λ token block size n. (some (pos 1), n);
  get_length_sid = λ sid n. 16;
  copy_sid = λ size to from n. (true, n);
  make_dir = λ path n. (pos 0, n);
  initialize_descriptor = λ n. (true, n);
  set_descriptor_owner = λ sid n. (true, n);
  is_valid_descriptor = λ n. (true, n);
  set_file_security = λ path n. (true, n);
  get_file_security = λ path part size n. ((true, 64), n);
  descriptor_sid = λ part n. (some (pos 1), n);
  is_valid_sid = λ sid n. (true, n);
  file_stat = λ path n. (some 10, n);
}

abbrev before : World (Statics ℕ)
before = record {
  os = record {
    api = 0;
    administrator_id = null_uid;
    user_name = [];
    user_name_size = 257;
    user_name_fetched = false;
  };
  exec_suffix = [];
  dlib_suffix = [];
  failed = 0;
  callback_warn = none;
  callback_info = none;
  callback_data = 0;
  fake_root = none;
  next_stream = 0;
  open_streams = [];
}

iwin32_uid_lookup-IsFound_example :
    IsFound (iwin32_uid_lookup windows_api (lit "joe") null_uid before)
iwin32_uid_lookup-IsFound_example = iwin32_uid_lookup-IsFound windows_api (lit "joe") before

-- The platform without the functions of install-core.c, which the start does not need here.
abbrev stopped_core : Core (Statics ℕ)
stopped_core = record {
  assign_error = λ text w. fault assertion;
  file_copy = λ src dst uid gid mode w. fault assertion;
}

abbrev started : World (Statics ℕ)
started = record before {
  os = record before.os { api = 1; administrator_id = pos 1 };
  exec_suffix = lit ".exe";
}

init-can_set_ownership_example :
    (started.exec_suffix ≡ lit ".exe")
    × (iwin32_can_set_ownership windows_api (pos 1) started ≡ done (pos 1) started)
unfolding iwin32_init iwin32_uid_lookup iwin32_get_sid lit
init-can_set_ownership_example =
    init-can_set_ownership windows_api (install_platform_win32 windows_api stopped_core)
      (λ src dst uid gid mode w. fault assertion) before started
      (record status_init { status = ok }) (pos 1) refl refl refl refl refl

-- A system that has nothing to offer, behind a state of Windows.
abbrev nothing : Os (Statics ℕ)
nothing = record {
  errno = λ s. 0;
  set_errno = λ n s. s;
  strerror = λ n. [];
  eexist = 17;
  eisdir = 21;
  enametoolong = 36;
  s_isreg = λ m. false;
  s_ischr = λ m. false;
  s_isdir = λ m. false;
  s_issock = λ m. false;
  s_isfifo = λ m. false;
  s_islnk = λ m. false;
  getuid = λ s. (pos 0, s);
  getgid = λ s. (pos 0, s);
  getpwnam = λ name s. (none, s);
  getgrnam = λ name s. (none, s);
  getlogin = λ s. (none, s);
  sscanf_int = λ text. (pos 0, none);
  stat = λ path s. (none, s);
  lstat = λ path s. (none, s);
  mkdir = λ path mode s. (pos 0, s);
  rmdir = λ path s. (pos 0, s);
  chmod = λ path mode s. (pos 0, s);
  chown = λ path uid gid s. (pos 0, s);
  symlink = λ from to s. (pos 0, s);
  unlink = λ path s. (pos 0, s);
  rename = λ from to s. (pos 0, s);
  chdir = λ path s. (pos 0, s);
  getcwd = λ n s. (none, s);
  umask = λ m s. (0, s);
  fopen = λ f path mode s. (false, s);
  fread = λ f n s. ([], s);
  fwrite = λ f bytes s. (0, s);
  feof = λ f s. (true, s);
  ferror = λ f s. (false, s);
  fflush = λ f s. (pos 0, s);
  fclose = λ f s. (pos 0, s);
  fflush_all = λ s. (pos 0, s);
  print_error = λ text s. s;
  print = λ text s. s;
}

-- A Windows on which no directory can be made.
abbrev full : Win32 ℕ
full = record windows_api { make_dir = λ path n. (minus_one, n) }

install_rmkdir-win32_example : Returns (pos 1) (
    install_rmkdir nothing
      (install_platform_win32 full stopped_core)
      0o755
      (some (lit "a/b"))
      before)
unfolding lit
install_rmkdir-win32_example =
    install_rmkdir-win32 nothing full stopped_core 0o755 (lit "a/b") before (omega arith)

abbrev unlocked : Locker
unlocked = record {
  lock_file = lit "lock";
  id = pos 7;
  exit_code = pos 0;
  locked = pos 0;
  lock_fd = pos 0;
}

-- The file cannot be unlocked behind a command that ended with 3.
abbrev replies : Replies
replies = record {
  opened = pos 4;
  locked = true;
  unlocked = false;
  closed = λ handle. true;
  allocated = true;
  started = true;
  process = pos 8;
  thread = pos 12;
  asked = true;
  code = pos 3;
  message = some (lit "denied");
}

win32_run_command-follow_example :
    win32_run_command (logging replies) unlocked (lit "make" ∷ lit "all" ∷ []) []
    ≡ follow replies
        (pos 7)
        (run_moves replies (lit "lock") (lit "make" ∷ lit "all" ∷ []))
        (pos 3)
        []
win32_run_command-follow_example =
    win32_run_command-follow replies unlocked (lit "make") (lit "all" ∷ []) [] refl refl
