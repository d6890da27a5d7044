-- ===== src/Tests/Machine.antt =====
-- A system with one file to read, one file that is written, and a list of the directories made.
-- Its writes take two bytes at a time.
use coreland_c_string.Base.{
  ℕ, suc, ◌==◌, ◌≡◌, refl, sym, ap, inl, arith, Bool, true, false, none, some, List, [], ◌∷◌, ◌++◌,
  Bytes, length, take, drop, take-append-drop, length-take, pos, lit, if◌then◌else◌,
}
use coreland_c_string.Install.Os.{Os, FileInfo}
use coreland_c_string.Install.World.{World}
use coreland_c_string.Install.Copy.Content.{StreamLaws}
use coreland_c_string.Install.Copy.Whole.{KeepsSunk}
use coreland_c_string.Install.Interface.DryRun.{ReadsKeep}

pub record Machine : Type 0 where
  pub number : ℕ
  pub input : Bytes
  pub output : Bytes
  pub made : List Bytes

-- A directory of root's.
abbrev directory_info : FileInfo
directory_info = record { st_mode = 2; st_uid = pos 0; st_gid = pos 0; st_size = 0 }

abbrev pub is_end : Bytes → Bool
is_end [] = true
is_end (c ∷ cs) = false

abbrev pub machine : Os Machine
machine = record {
  errno = λ s. s.number;
  set_errno = λ n s. record s { number = n };
  strerror = λ n. lit "error";
  eexist = 17;
  eisdir = 21;
  enametoolong = 36;
  s_isreg = λ m. m == 1;
  s_ischr = λ m. m == 3;
  s_isdir = λ m. m == 2;
  s_issock = λ m. m == 4;
  s_isfifo = λ m. m == 5;
  s_islnk = λ m. m == 6;
  getuid = λ s. (pos 0, s);
  getgid = λ s. (pos 0, s);
  getpwnam = λ name s. (none, s);
  getgrnam = λ name s. (none, s);
  getlogin = λ s. (none, s);
  sscanf_int = λ text. (pos 0, none);
  stat = λ path s. (some directory_info, s);
  lstat = λ path s. (some directory_info, s);
  mkdir = λ path mode s. (pos 0, record s { made = path ∷ s.made });
  rmdir = λ path s. (pos 0, s);
  chmod = λ path mode s. (pos 0, s);
  chown = λ path uid gid s. (pos 0, s);
  symlink = λ from to s. (pos 0, s);
  unlink = λ path s. (pos 0, s);
  rename = λ from to s. (pos 0, s);
  chdir = λ path s. (pos 0, s);
  getcwd = λ n s. (some (lit "/"), s);
  umask = λ m s. (0, s);
  fopen = λ f path mode s. (true, s);
  fread = λ f n s. (take n s.input, record s { input = drop n s.input });
  fwrite = λ f bytes s. (length (take 2 bytes), record s { output = s.output ++ take 2 bytes });
  feof = λ f s. (if f == 0 then is_end s.input else false, s);
  ferror = λ f s. (false, s);
  fflush = λ f s. (pos 0, s);
  fclose = λ f s. (pos 0, s);
  fflush_all = λ s. (pos 0, s);
  print_error = λ text s. s;
  print = λ text s. s;
}

pub take_two : (bytes : Bytes) → take (length (take 2 bytes)) bytes ≡ take 2 bytes
take_two [] = refl
take_two (b ∷ []) = refl
take_two (b ∷ c ∷ bytes) = refl

pub nothing_read :
    (n : ℕ) (input : Bytes) → length (take (suc n) input) ≡ 0 → is_end (drop (suc n) input) ≡ true
nothing_read n [] h = refl
nothing_read n (c ∷ cs) h = absurd (omega arith)

pub at_end : (input : Bytes) → is_end input ≡ true → input ≡ []
at_end [] h = refl
at_end (c ∷ cs) h = cc

-- The streams 0 and 1 are as the C library documents them.
abbrev pub machine_streams : StreamLaws machine 0 1
machine_streams = record {
  unread = λ s. s.input;
  sunk = λ s. s.output;
  fread_takes = λ n s. sym (take-append-drop n s.input);
  fread_bound = λ n s. omega (arith, length-take {0} n s.input);
  fread_keeps = λ n s. refl;
  fread_ends = λ n s h. inl (nothing_read n s.input h);
  feof_means = λ s h. at_end s.input h;
  fwrite_gives = λ bytes s. ap (λ x. s.output ++ x) (sym (take_two bytes));
  fwrite_keeps = λ bytes s. refl;
  fwrite_fails = λ b bytes s h. absurd (omega arith);
  feof_same = λ s. refl;
}

-- The calls behind the copying loop write nothing.
abbrev pub machine_keeps : KeepsSunk machine 0 1 machine_streams
machine_keeps = record {
  fflush = λ s. refl;
  chmod = λ path mode s. refl;
  chown = λ path uid gid s. refl;
  fclose = λ f s. refl;
  rename = λ from to s. refl;
}

-- Reading changes none of the directories.
abbrev pub machine_reads : ReadsKeep machine (λ s. s.made)
machine_reads = record {
  set_errno = λ n s. refl;
  getuid = λ s. refl;
  getgid = λ s. refl;
  getpwnam = λ name s. refl;
  getgrnam = λ name s. refl;
  stat = λ path s. refl;
  chdir = λ path s. refl;
  getcwd = λ n s. refl;
  fopen_rb = λ f path s. refl;
  fread = λ f n s. refl;
  ferror = λ f s. refl;
  fclose = λ f s. refl;
  fflush_all = λ s. refl;
}

abbrev pub start : Machine
start = record { number = 0; input = b'a' ∷ b'b' ∷ b'c' ∷ []; output = []; made = [] }

-- The state before the first call.
abbrev pub fresh : World Machine
fresh = record {
  os = start;
  exec_suffix = [];
  dlib_suffix = [];
  failed = 0;
  callback_warn = none;
  callback_info = none;
  callback_data = 0;
  fake_root = none;
  next_stream = 0;
  open_streams = [];
}
