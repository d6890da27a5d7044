-- ===== src/Tests/Disk.antt =====
-- A system with three files: one that is read, a temporary one, and the one that it becomes. A
-- path names one of them by its length.
use coreland_c_string.Base.{
  ℕ, ◌==◌, ◌≡◌, refl, sym, ap, inl, arith, true, false, Option, none, some, [], ◌∷◌, ◌++◌, Bytes,
  length, take, drop, take-append-drop, length-take, ℤ, pos, minus_one, ◌==ℤ◌, bit_and, lit,
  if◌then◌else◌,
}
use coreland_c_string.Install.Os.{Os, FileInfo}
use coreland_c_string.Install.World.{World}
use coreland_c_string.Install.Check.Installed.{StatLaws}
use coreland_c_string.Install.Copy.Content.{StreamLaws}
use coreland_c_string.Install.Copy.Whole.{KeepsSunk}
use coreland_c_string.Install.Copy.Ways.{temporary}
use coreland_c_string.Install.Copy.Temporary.{kind, owner, perms, size, FileLaws}
use coreland_c_string.Tests.Machine.{is_end, take_two, nothing_read, at_end}

pub record Disk : Type 0 where
  pub number : ℕ
  pub input : Bytes
  pub output : Bytes
  pub temp : Option FileInfo
  pub target : Option FileInfo

-- The file that is read, of three bytes.
abbrev source_info : FileInfo
source_info = record { st_mode = 0o644; st_uid = pos 0; st_gid = pos 0; st_size = 3 }

-- A file that was just made.
abbrev new_info : FileInfo
new_info = record { st_mode = 0o600; st_uid = pos 0; st_gid = pos 0; st_size = 0 }

abbrev named : ℕ → Disk → Option FileInfo
named n s = if n == 5 then s.temp else if n == 1 then s.target else some source_info

-- Changes of a file that may be missing, with the result of the call.
abbrev set_mode : ℕ → Option FileInfo → ℤ × Option FileInfo
set_mode m none = (minus_one, none)
set_mode m (some sb) = (pos 0, some (record sb { st_mode = m }))

abbrev set_owner : ℤ → ℤ → Option FileInfo → ℤ × Option FileInfo
set_owner u g none = (minus_one, none)
set_owner u g (some sb) = (pos 0, some (record sb { st_uid = u; st_gid = g }))

abbrev set_size : ℕ → Option FileInfo → ℤ × Option FileInfo
set_size n none = (minus_one, none)
set_size n (some sb) = (pos 0, some (record sb { st_size = n }))

abbrev renamed : Option FileInfo → ℤ
renamed none = minus_one
renamed (some sb) = pos 0

abbrev put : Disk → ℤ × Option FileInfo → ℤ × Disk
put s (r, t) = (r, record s { temp = t })

abbrev pub disk : Os Disk
disk = record {
  errno = λ s. s.number;
  set_errno = λ n s. record s { number = n };
  strerror = λ n. lit "error";
  eexist = 17;
  eisdir = 21;
  enametoolong = 36;
  s_isreg = λ m. true;
  s_ischr = λ m. false;
  s_isdir = λ m. false;
  s_issock = λ m. false;
  s_isfifo = λ m. false;
  s_islnk = λ m. false;
  getuid = λ s. (pos 0, s);
  getgid = λ s. (pos 0, s);
  getpwnam = λ name s. (none, s);
  getgrnam = λ name s. (none, s);
  getlogin = λ s. (none, s);
  sscanf_int = λ text. (pos 0, none);
  stat = λ path s. (named (length path) s, s);
  lstat = λ path s. (named (length path) s, s);
  mkdir = λ path mode s. (pos 0, s);
  rmdir = λ path s. (pos 0, s);
  chmod = λ path mode s. put s (set_mode mode s.temp);
  chown = λ path uid gid s. put s (set_owner uid gid s.temp);
  symlink = λ from to s. (pos 0, s);
  unlink = λ path s. (pos 0, s);
  rename = λ from to s. (renamed s.temp, record s { target = s.temp });
  chdir = λ path s. (pos 0, s);
  getcwd = λ n s. (some (lit "/"), s);
  umask = λ m s. (0, s);
  fopen = λ f path mode s. (true, if f == 1 then record s { temp = some new_info } else s);
  fread = λ f n s. (take n s.input, record s { input = drop n s.input });
  fwrite = λ f bytes s. (length (take 2 bytes), record s { output = s.output ++ take 2 bytes });
  feof = λ f s. (if f == 0 then is_end s.input else false, s);
  ferror = λ f s. (false, s);
  fflush = λ f s. (pos 0, s);
  fclose = λ f s. if f == 1 then put s (set_size (length s.output) s.temp) else (pos 0, s);
  fflush_all = λ s. (pos 0, s);
  print_error = λ text s. s;
  print = λ text s. s;
}

abbrev pub disk_stat : StatLaws disk
disk_stat = record {
  files = λ s. record { followed = λ p. named (length p) s; unfollowed = λ p. named (length p) s };
  stat_tells = λ path s. refl;
  lstat_tells = λ path s. refl;
  stat_keeps = λ path s. refl;
  lstat_keeps = λ path s. refl;
  errno_keeps = λ n s. refl;
}

abbrev pub disk_streams : StreamLaws disk 0 1
disk_streams = record {
  unread = λ s. s.input;
  sunk = λ s. s.output;
  fread_takes = λ n s. sym (take-append-drop n s.input);
  fread_bound = λ n s. omega (arith, length-take {0} n s.input);
  fread_keeps = λ n s. refl;
  fread_ends = λ n s h. inl (nothing_read n s.input h);
  feof_means = λ s h. at_end s.input h;
  fwrite_gives = λ bytes s. ap (λ x. s.output ++ x) (sym (take_two bytes));
  fwrite_keeps = λ bytes s. refl;
  fwrite_fails = λ b bytes s h. absurd (omega arith);
  feof_same = λ s. refl;
}

pub sunk-fclose : (f : ℕ) (s : Disk) → (disk.fclose f s).1.output ≡ s.output
sunk-fclose f s = ground arith

abbrev pub disk_keeps : KeepsSunk disk 0 1 disk_streams
disk_keeps = record {
  fflush = λ s. refl;
  chmod = λ path mode s. refl;
  chown = λ path uid gid s. refl;
  fclose = sunk-fclose;
  rename = λ from to s. refl;
}

-- The name of the file that is written.
abbrev pub target_name : Bytes
target_name = lit "b"

kind-set_mode : (m : ℕ) (o : Option FileInfo) → kind disk (set_mode m o).1 ≡ kind disk o
kind-set_mode m none = refl
kind-set_mode m (some sb) = refl

owner-set_mode : (m : ℕ) (o : Option FileInfo) → owner (set_mode m o).1 ≡ owner o
owner-set_mode m none = refl
owner-set_mode m (some sb) = refl

perms-set_mode :
    (m : ℕ) (o : Option FileInfo)
    → ((set_mode m o).0 ==ℤ pos 0) ≡ true
    → perms (set_mode m o).1 ≡ some (bit_and m 0o755)
perms-set_mode m none h = cc
perms-set_mode m (some sb) h = refl

kind-set_owner : (u g : ℤ) (o : Option FileInfo) → kind disk (set_owner u g o).1 ≡ kind disk o
kind-set_owner u g none = refl
kind-set_owner u g (some sb) = refl

perms-set_owner : (u g : ℤ) (o : Option FileInfo) → perms (set_owner u g o).1 ≡ perms o
perms-set_owner u g none = refl
perms-set_owner u g (some sb) = refl

owner-set_owner :
    (u g : ℤ) (o : Option FileInfo)
    → ((set_owner u g o).0 ==ℤ minus_one) ≡ false
    → owner (set_owner u g o).1 ≡ some (u, g)
owner-set_owner u g none h = cc
owner-set_owner u g (some sb) h = refl

kind-set_size : (n : ℕ) (o : Option FileInfo) → kind disk (set_size n o).1 ≡ kind disk o
kind-set_size n none = refl
kind-set_size n (some sb) = refl

owner-set_size : (n : ℕ) (o : Option FileInfo) → owner (set_size n o).1 ≡ owner o
owner-set_size n none = refl
owner-set_size n (some sb) = refl

perms-set_size : (n : ℕ) (o : Option FileInfo) → perms (set_size n o).1 ≡ perms o
perms-set_size n none = refl
perms-set_size n (some sb) = refl

size-set_size :
    (n : ℕ) (o : Option FileInfo)
    → ((set_size n o).0 ==ℤ minus_one) ≡ false
    → size (set_size n o).1 ≡ some n
size-set_size n none h = cc
size-set_size n (some sb) h = refl

-- The temporary file is as the system documents it.
pub disk_files : FileLaws disk disk_stat 0 1 disk_streams (temporary target_name) target_name
unfolding lit
disk_files = record {
  fread_kind = λ n s. refl;
  fread_owner = λ n s. refl;
  fwrite_kind = λ b s. refl;
  fwrite_owner = λ b s. refl;
  feof_told = λ f s. refl;
  ferror_told = λ f s. refl;
  fflush_kind = λ s. refl;
  fflush_owner = λ s. refl;
  chmod_kind = λ m s. kind-set_mode m s.temp;
  chmod_owner = λ m s. owner-set_mode m s.temp;
  chmod_sets = λ m s h. perms-set_mode m s.temp h;
  chown_kind = λ u g s. kind-set_owner u g s.temp;
  chown_perms = λ u g s. perms-set_owner u g s.temp;
  chown_sets = λ u g s h. owner-set_owner u g s.temp h;
  fclose_kind = λ s. kind-set_size (length s.output) s.temp;
  fclose_owner = λ s. owner-set_size (length s.output) s.temp;
  fclose_perms = λ s. perms-set_size (length s.output) s.temp;
  fclose_size = λ s h. size-set_size (length s.output) s.temp h;
  fclose_source = λ s. refl;
  rename_tells = λ s h. refl;
}

-- The state before the first call.
abbrev pub blank : World Disk
blank = record {
  os = record {
    number = 0;
    input = b'a' ∷ b'b' ∷ b'c' ∷ [];
    output = [];
    temp = none;
    target = none;
  };
  exec_suffix = [];
  dlib_suffix = [];
  failed = 0;
  callback_warn = none;
  callback_info = none;
  callback_data = 0;
  fake_root = none;
  next_stream = 0;
  open_streams = [];
}
