-- ===== src/Sysdeps/Locker/Exclusion.antt =====
-- What the lock of sd-locker.c is for: the commands of several processes do not run together.
use coreland_c_string.Base.{
  ℕ, ◌==◌, ==_iff, ◌≡◌, ◌≢◌, refl, sym, ap, subst, ◌⊎◌, Bool, true, false, Option, none, some, ℤ,
  Bytes, [], ◌∷◌, List, arith, inl, inr, if◌then◌else◌,
}
use coreland_c_string.Sysdeps.Locker.{main}
use coreland_c_string.Sysdeps.Locker.Calls.{Prog}
use coreland_c_string.Sysdeps.Locker.Mutex.{
  Fits, Moves, ==_self, Mode, MutexStep, Represents, Role, busy, calm, at_task, free, held, holder,
  kid, role, waiter,
}
use coreland_c_string.Sysdeps.Locker.Phases.{Keeps, main-Keeps, waiting}
use coreland_c_string.Sysdeps.Locker.Refines.{Step-Follows}
use coreland_c_string.Sysdeps.Locker.Run.{
  Task, absent, process, command, zombie, System, Reach, here, next, Event, events, seen, add,
}

-- The beginning: nobody has the lock, and some numbers are processes that start `main`.
pub record Starts (atoi : Bytes → ℤ) (s : System) : Type 0 where
  pub unlocked : s.owner ≡ none
  pub started :
      (i : ℕ)
      → (s.tasks i ≡ absent) ⊎ ((argv : List Bytes) × (s.tasks i ≡ process (main atoi argv)))

-- The runs of the mutual exclusion from its free mode, by their events, the last one first.
pub data MutexRun : List Event → Mode → Type 0 where
  initially : MutexRun [] free
  moved :
      {es : List Event} {event : Event} {m m' : Mode}
      → MutexRun es m
      → MutexStep m event m'
      → MutexRun (event ∷ es) m'

started-Fits :
    (atoi : Bytes → ℤ) (task : Task)
    → (task ≡ absent) ⊎ ((argv : List Bytes) × (task ≡ process (main atoi argv)))
    → Fits calm task
started-Fits atoi task (inl e) = subst (Fits calm) (sym e) tt
started-Fits atoi task (inr (argv, e)) = subst (Fits calm) (sym e) (main-Keeps atoi argv)

start-Represents : (atoi : Bytes → ℤ) (s : System) → Starts atoi s → Represents free s
start-Represents atoi s h = record {
  owner = h.unlocked;
  proper = tt;
  fits = λ i. started-Fits atoi (s.tasks i) (h.started i);
}

-- The mutual exclusion has a run of these events, to a mode that the processes are in.
abbrev pub Implements : List Event → System → Type 0
Implements es t = (m : Mode) × MutexRun es m × Represents m t

followed :
    (es : List Event) (m m' : Mode) (o : Option Event)
    → MutexRun es m
    → Moves m o m'
    → MutexRun (add o es) m'
followed es m m' none run same = subst (MutexRun es) same run
followed es m m' (some event) run step = moved run step

-- From a start of any number of processes, with any arguments, whatever the calls answer and in
-- whatever order the processes make them, the events of the run (a process gets the lock, gives it
-- up, forks, turns into the command, has waited for it) are the events of a run of the mutual
-- exclusion, in the same order. Its steps are: a free lock is taken; its holder gives it up, or
-- forks; then only that child turns into the command, and only the holder goes on, by waiting for
-- that child. The lock and every process are at the end as the mode of that run says.
pub Reach-Implements :
    (atoi : Bytes → ℤ) (s t : System)
    → Starts atoi s
    → (reach : Reach s t) → Implements (events reach) t
Reach-Implements atoi s t h here = (free, initially, start-Represents atoi s h)
Reach-Implements atoi s u h (next {t = t} reach step) =
    let (m, run, now) = Reach-Implements atoi s t h reach in
    let (m', moves, after) = Step-Follows m t u now step in
    (m', followed (events reach) m m' (seen step) run moves, after)

-- A command runs in the one mode that has one.
command_kid : (r : Role) → Fits r command → r ≡ kid
command_kid calm fits = elim fits [ ]
command_kid holder fits = elim fits [ ]
command_kid (waiter c) fits = elim fits [ ]
command_kid kid fits = refl

held_kid : (b : Bool) → (if b then holder else calm) ≢ kid
held_kid true e = cc
held_kid false e = cc

busy_kid :
    (a b : Bool) (c : ℕ)
    → (if a then waiter c else if b then kid else calm) ≡ kid
    → (a ≡ false) × (b ≡ true)
busy_kid true b c e = cc
busy_kid false true c e = (refl, refl)
busy_kid false false c e = cc

kid_busy : (m : Mode) (i : ℕ) → role m i ≡ kid → (p : ℕ) × (m ≡ busy p i) × ((i == p) ≡ false)
kid_busy free i e = cc
kid_busy (held p) i e = absurd (held_kid (i == p) e)
kid_busy (busy p c) i e =
    let (other, same) = busy_kid (i == p) (i == c) c e in
    (p, ap (busy p) (sym ((==_iff i c).0 same)), other)

waiter_task :
    (i : ℕ) (task : Task)
    → Fits (waiter i) task
    → (q : Prog ℤ) × (task ≡ process q) × Keeps (waiting i) q
waiter_task i (process q) fits = (q, refl, fits)
waiter_task i absent fits = elim fits [ ]
waiter_task i command fits = elim fits [ ]
waiter_task i (zombie status) fits = elim fits [ ]

pub waiting_task :
    (p i : ℕ) (task : Task)
    → Fits (if p == p then waiter i else if p == i then kid else calm) task
    → (q : Prog ℤ) × (task ≡ process q) × Keeps (waiting i) q
waiting_task p i task = rw (==_self p) (waiter_task i task)

distinct : (p i : ℕ) → (i == p) ≡ false → p ≢ i
distinct p i other e = ground arith

module _ (atoi : Bytes → ℤ) (s t : System) (start : Starts atoi s) (reach : Reach s t) where
  command_mode :
      (i : ℕ) → t.tasks i ≡ command → (p : ℕ) × ((i == p) ≡ false) × Represents (busy p i) t
  command_mode i e =
      let (m, _, now) = Reach-Implements atoi s t start reach in
      let (p, same, other) = kid_busy m i (command_kid (role m i) (at_task m t i command now e)) in
      (p, other, subst (λ x. Represents x t) same now)

  -- From a start of any number of processes, no two commands ever run at the same time.
  pub one_command : (i j : ℕ) → t.tasks i ≡ command → t.tasks j ≡ command → i ≡ j
  one_command i j first second =
      let (p, _, now) = command_mode i first in
      let is_kid = command_kid (role (busy p i) j) (at_task (busy p i) t j command now second) in
      sym ((==_iff j i).0 (busy_kid (j == p) (j == i) i is_kid).1)

  -- From a start of any number of processes, while a command runs the lock belongs to another
  -- process, which is a process of sd-locker that can only wait for that command.
  pub command_locked :
      (i : ℕ)
      → t.tasks i ≡ command
      → (p : ℕ) × (q : Prog ℤ) × (p ≢ i)
        × (t.owner ≡ some p)
        × (t.tasks p ≡ process q)
        × Keeps (waiting i) q
  command_locked i e =
      let (p, other, now) = command_mode i e in
      let (q, same, keeps) = waiting_task p i (t.tasks p) (now.fits p) in
      (p, q, distinct p i other, now.owner, same, keeps)
