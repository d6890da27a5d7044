-- ===== src/Sysdeps/Locker/Run.antt =====
-- Several processes on one system: what sd-locker_posix.c relies on of `fcntl` locks, `fork`,
-- `execvp` and `waitpid`.
use coreland_c_string.Base.{
  ℕ, ◌<◌, ◌==◌, ◌≡◌, ◌⊎◌, Option, none, some, ℤ, pos, minus_one, List, [], ◌∷◌, Bytes,
  if◌then◌else◌,
}
use coreland_c_string.Sysdeps.Locker.Calls.{
  LockType, write_lock, unlock, Syscall, Answer, open_file, setlkw, close, fork, execvp, waitpid,
  getpid, strerror, print_error, Prog, call,
}

-- What a process number stands for: nothing, a process of this program, the command that one
-- has turned into, or a process that ended and was not waited for.
pub data Task : Type 0 where
  absent : Task
  process : Prog ℤ → Task
  command : Task
  zombie : ℕ → Task

-- The processes, and the one that holds the lock on the file.
pub record System : Type 0 where
  pub tasks : ℕ → Task
  pub owner : Option ℕ

abbrev pub set : (ℕ → Task) → ℕ → Task → ℕ → Task
set tasks i task j = if j == i then task else tasks j

-- A lock is gone once its owner ends, or closes a descriptor of the file.
unfoldable pub release : ℕ → Option ℕ → Option ℕ
release i none = none
release i (some p) = if p == i then none else some p

abbrev pub becomes : System → ℕ → Task → System
becomes s i task = record s { tasks = set s.tasks i task }

-- Calls that concern neither the lock nor other processes.
abbrev pub IsPlain : Syscall → Type 0
IsPlain (open_file path) = Unit
IsPlain getpid = Unit
IsPlain strerror = Unit
IsPlain (print_error text) = Unit
IsPlain _ = ⊥

-- The program has come to its end.
abbrev pub IsEnd : Prog ℤ → Type 0
IsEnd (call c k) = ⊥
IsEnd _ = Unit

-- One process makes one call, or ends. A process blocks in `fcntl` while another one holds the
-- lock, and in `waitpid` until the child has ended; `waitpid` does not fail, as the program
-- waits once for a child of its own and catches no signal.
pub data Step (s t : System) : Type 0 where
  plain :
      (i : ℕ) (c : Syscall) (k : Answer c → Prog ℤ) (r : Answer c)
      → s.tasks i ≡ process (call c k)
      → IsPlain c
      → t ≡ becomes s i (process (k r))
      → Step s t
  closes :
      (i : ℕ) (fd : ℤ) (k : ℤ → Prog ℤ) (r : ℤ)
      → s.tasks i ≡ process (call (close fd) k)
      → t ≡ record (becomes s i (process (k r))) { owner = release i s.owner }
      → Step s t
  locks :
      (i : ℕ) (fd : ℤ) (k : ℤ → Prog ℤ)
      → s.tasks i ≡ process (call (setlkw write_lock fd) k)
      → (s.owner ≡ none) ⊎ (s.owner ≡ some i)
      → t ≡ record (becomes s i (process (k (pos 0)))) { owner = some i }
      → Step s t
  unlocks :
      (i : ℕ) (fd : ℤ) (k : ℤ → Prog ℤ)
      → s.tasks i ≡ process (call (setlkw unlock fd) k)
      → t ≡ record (becomes s i (process (k (pos 0)))) { owner = release i s.owner }
      → Step s t
  lock_fails :
      (i : ℕ) (type : LockType) (fd : ℤ) (k : ℤ → Prog ℤ)
      → s.tasks i ≡ process (call (setlkw type fd) k)
      → t ≡ becomes s i (process (k minus_one))
      → Step s t
  forks :
      (i j : ℕ) (k : ℤ → Prog ℤ)
      → s.tasks i ≡ process (call fork k)
      → s.tasks j ≡ absent
      → 0 < j
      → t ≡ becomes (becomes s i (process (k (pos j)))) j (process (k (pos 0)))
      → Step s t
  fork_fails :
      (i : ℕ) (k : ℤ → Prog ℤ)
      → s.tasks i ≡ process (call fork k)
      → t ≡ becomes s i (process (k minus_one))
      → Step s t
  executes :
      (i : ℕ) (argv : List Bytes) (k : ℤ → Prog ℤ)
      → s.tasks i ≡ process (call (execvp argv) k)
      → t ≡ becomes s i command
      → Step s t
  exec_fails :
      (i : ℕ) (argv : List Bytes) (k : ℤ → Prog ℤ)
      → s.tasks i ≡ process (call (execvp argv) k)
      → t ≡ becomes s i (process (k minus_one))
      → Step s t
  command_ends : (i status : ℕ) → s.tasks i ≡ command → t ≡ becomes s i (zombie status) → Step s t
  waits :
      (i j status : ℕ) (k : ℤ × ℕ → Prog ℤ)
      → s.tasks i ≡ process (call (waitpid (pos j)) k)
      → s.tasks j ≡ zombie status
      → t ≡ becomes (becomes s j absent) i (process (k (pos j, status)))
      → Step s t
  ends :
      (i status : ℕ) (p : Prog ℤ)
      → s.tasks i ≡ process p
      → IsEnd p
      → t ≡ record (becomes s i (zombie status)) { owner = release i s.owner }
      → Step s t

-- What is seen of a step: a process gets the lock or gives it up, forks, turns into the command or
-- has waited for it.
pub data Event : Type 0 where
  locked_by unlocked_by executed : ℕ → Event
  forked waited : ℕ → ℕ → Event

-- A process gives up the lock, if it is its own.
unfoldable pub freed : ℕ → Option ℕ → Option Event
freed i none = none
freed i (some p) = if p == i then some (unlocked_by i) else none

-- A process gets the lock, if it is free.
abbrev pub taken : ℕ → Option ℕ → Option Event
taken i none = some (locked_by i)
taken i (some p) = none

abbrev pub seen : {s t : System} → Step s t → Option Event
seen (plain i c k r now is_plain e) = none
seen {s} (closes i fd k r now e) = freed i s.owner
seen {s} (locks i fd k now can e) = taken i s.owner
seen {s} (unlocks i fd k now e) = freed i s.owner
seen (lock_fails i type fd k now e) = none
seen (forks i j k now new positive e) = some (forked i j)
seen (fork_fails i k now e) = none
seen (executes i argv k now e) = some (executed i)
seen (exec_fails i argv k now e) = none
seen (command_ends i status now e) = none
seen (waits i j status k now child_ended e) = some (waited i j)
seen {s} (ends i status p now is_end e) = freed i s.owner

-- Any number of steps.
pub data Reach (s : System) : System → Type 0 where
  here : Reach s s
  next : {t u : System} → Reach s t → Step t u → Reach s u

abbrev pub add : Option Event → List Event → List Event
add none events = events
add (some event) events = event ∷ events

-- What is seen of a run, the last event first.
abbrev pub events : {s t : System} → Reach s t → List Event
events here = []
events (next reach step) = add (seen step) (events reach)
