-- ===== src/Tests/Sysdeps.antt =====
-- The theorems on the programs of SYSDEPS at concrete data.
use coreland_c_string.Base.{
  ℕ, ◌==◌, ◌≡◌, ◌≢◌, ◌≤◌, refl, arith, true, Bool-cases, inl, inr, none, some, ℤ, pos, minus_one,
  List, [], ◌∷◌, ◌++◌, Bytes, lit, strcmp_eq, if◌then◌else◌,
}
use coreland_c_string.Sysdeps.Locker.{
  main, run_command, usage, posix_lock_acquire, posix_lock_file_open, posix_execute,
  sd_locker_lock_acquire, sd_locker_execute, sd_locker_fatal,
}
use coreland_c_string.Sysdeps.Locker.Calls.{open_file, getpid, Prog, ◌>>=◌}
use coreland_c_string.Sysdeps.Locker.Ends.{Answers, run, exits, main-expected_end}
use coreland_c_string.Sysdeps.Locker.Exclusion.{
  Starts, Implements, Reach-Implements, one_command, command_locked,
}
use coreland_c_string.Sysdeps.Locker.Progress.{ComesFree, Reach-ComesFree}
use coreland_c_string.Sysdeps.Locker.Phases.{Keeps, waiting}
use coreland_c_string.Sysdeps.Locker.Run.{
  Task, absent, process, command, System, plain, closes, locks, forks, executes, Reach, here, next,
  events,
}
use coreland_c_string.Sysdeps.Locker.Shell.{
  convert_command, shell_prefix, quoted, convert_command-quoted,
}
use coreland_c_string.Sysdeps.Cpuidx86
use coreland_c_string.Sysdeps.Cpuidx86.{detect}
use coreland_c_string.Sysdeps.Cpuidx86.State.{Machine}
use coreland_c_string.Sysdeps.Cpuidx86.Caches.{Registers, cpu_cache_size}
use coreland_c_string.Sysdeps.Cpuidx86.Detect.{detect_returns}
use coreland_c_string.Sysdeps.Cpuidx86.Flags.{any_sets}
use coreland_c_string.Sysdeps.Cpuidx86.Report.{steady, feature_bit, feature-reported}
use coreland_c_string.Sysdeps.Cpuidx86.Search.{
  IsTable, Finds, find_first, listed, cpu_cache_size-Finds,
}
use coreland_c_string.Sysdeps.Cpuidx86.Tables.{intel_l1d_caches}
use coreland_c_string.Sysdeps.Probes.{print_os, print_arch, print_cc_type}
use coreland_c_string.Sysdeps.Probes.Constants.{sysinfo_os, sysinfo_arch, sysinfo_cc_type}
use coreland_c_string.Sysdeps.Probes.Known.{Names, print-Names}

-- One process, with the number 1, that is to run `make all` under a lock.
abbrev atoi : Bytes → ℤ
atoi text = pos 7

abbrev argv : List Bytes
argv = lit "7" ∷ lit "lock" ∷ lit "make" ∷ lit "all" ∷ []

abbrev start_tasks : ℕ → Task
start_tasks i = if i == 1 then process (main atoi argv) else absent

abbrev start : System
start = record { tasks = start_tasks; owner = none }

start-Starts : Starts atoi start
start-Starts = record {
  unlocked = refl;
  started = λ i. elim (Bool-cases (i == 1)) [
    | inl first ↦ inr (argv, rw first refl)
    | inr other ↦ inl (rw other refl)
  ];
}

-- The file is opened and locked; process 2 is forked, closes the file and becomes the command.
running : (t : System) × Reach start t × (t.tasks 2 ≡ command)
unfolding main run_command usage posix_lock_acquire posix_lock_file_open posix_execute
    sd_locker_lock_acquire sd_locker_execute sd_locker_fatal ◌>>=◌ lit
running = (
  _,
  next
      (next
        (next
          (next
            (next (next here (plain 1 (open_file (lit "lock")) _ (pos 3) refl tt refl))
              (plain 1 getpid _ (pos 1) refl tt refl))
            (locks 1 (pos 3) _ refl (inl refl) refl))
          (forks 1 2 _ refl refl (omega arith) refl))
        (closes 2 (pos 3) _ (pos 0) refl refl))
      (executes 2 (lit "make" ∷ lit "all" ∷ []) _ refl refl),
  refl,
)

Reach-Implements_example : Implements (events running.1) running.0
Reach-Implements_example = Reach-Implements atoi start running.0 start-Starts running.1

one_command_example : ◌≡◌ {A = ℕ} 2 2
one_command_example =
    one_command atoi start running.0 start-Starts running.1 2 2 running.2 running.2

command_locked_example :
    (p : ℕ) × (q : Prog ℤ) × (p ≢ 2)
    × (running.0.owner ≡ some p)
    × (running.0.tasks p ≡ process q)
    × Keeps (waiting 2) q
command_locked_example = command_locked atoi start running.0 start-Starts running.1 2 running.2

-- The command exits with 3.
abbrev answers : Answers
answers = record {
  opened = pos 3;
  locked = pos 0;
  forked = pos 2;
  waited = (pos 2, 0x300);
  unlocked = pos 0;
  closed = pos 0;
  executed = minus_one;
}

main-expected_end_example : run answers (main atoi argv) ≡ exits (pos 3)
main-expected_end_example =
    main-expected_end atoi (lit "7") (lit "lock") (lit "make") (lit "all" ∷ []) answers refl

-- A command that a signal has killed: the program ends with 0.
killed : run (record answers { waited = (pos 2, 9) }) (main atoi argv) ≡ exits (pos 0)
killed =
    main-expected_end atoi (lit "7") (lit "lock") (lit "make") (lit "all" ∷ [])
      (record answers { waited = (pos 2, 9) }) refl

convert_command-quoted_example :
    convert_command (lit "cc" ∷ lit "a.c" ∷ [])
    ≡ some (((shell_prefix ++ quoted (lit "cc" ∷ lit "a.c" ∷ [])) ++ (b'"' ∷ [])) ++ (0 ∷ []))
convert_command-quoted_example = convert_command-quoted (lit "cc") (lit "a.c" ∷ [])

-- An Intel processor with a data cache of 16 kilobytes, and SSE2.
abbrev intel : ℕ → Registers
intel eax =
    if eax == 0
    then record { eax = 2; ebx = 0x756e6547; ecx = 0x6c65746e; edx = 0x49656e69 }
    else if eax == 1
    then record { eax = 0x633; ebx = 0; ecx = 0; edx = 0x04000000 }
    else if eax == 2
    then record { eax = 0x00000001; ebx = 0x00000c00; ecx = 0; edx = 0 }
    else record { eax = 0; ebx = 0; ecx = 0; edx = 0 }

l1d_end : IsTable intel_l1d_caches
l1d_end = inr (inr (inr (inr (inr (inr (inr (inr (inr (inl refl)))))))))

cpu_cache_size-Finds_example :
    Finds
      (cpu_cache_size (steady intel) intel_l1d_caches 0)
      (find_first intel_l1d_caches (listed (steady intel) 1 1))
      256
cpu_cache_size-Finds_example = cpu_cache_size-Finds (steady intel) intel_l1d_caches 0 l1d_end

detect_returns_example : (m : Machine) × (detect (steady intel) ≡ some m) × (m.calls ≤ 1031)
detect_returns_example = detect_returns (steady intel)

feature-reported_example : Cpuidx86.main true (steady intel) (lit "sse2" ∷ []) ≡ some (lit "1\n", 0)
unfolding feature_bit strcmp_eq lit any_sets
feature-reported_example = feature-reported intel (lit "sse2") [] 0x20 refl

print-Names_example :
    Names sysinfo_os (print_os (λ macro. strcmp_eq macro (lit "linux")))
    × Names sysinfo_arch (print_arch (λ macro. strcmp_eq macro (lit "linux")))
    × Names sysinfo_cc_type (print_cc_type (λ macro. strcmp_eq macro (lit "linux")))
print-Names_example = print-Names (λ macro. strcmp_eq macro (lit "linux"))

Reach-ComesFree_example : ComesFree running.0
Reach-ComesFree_example = Reach-ComesFree atoi start running.0 start-Starts running.1
