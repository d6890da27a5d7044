-- ===== src/Sysdeps/Locker/Progress.antt =====
-- The lock of sd-locker.c can always come free again.
use coreland_c_string.Base.{
  ℕ, ◌==◌, ◌≡◌, ◌≢◌, refl, ap, ◌∙◌, subst, false, Option, none, some, ℤ, pos, minus_one, Bytes, [],
  arith, if◌then◌else◌,
}
use coreland_c_string.Sysdeps.Locker.Calls.{
  write_lock, unlock, open_file, setlkw, close, fork, execvp, waitpid, getpid, strerror,
  print_error, Prog, ret, exit, abort, call,
}
use coreland_c_string.Sysdeps.Locker.Exclusion.{Starts, Reach-Implements, waiting_task}
use coreland_c_string.Sysdeps.Locker.Mutex.{
  ==_self, Fits, Mode, Represents, busy, calm, free, held, holder, kid, role, release_own,
  release_other,
}
use coreland_c_string.Sysdeps.Locker.Phases.{Keeps, inside, child, waiting}
use coreland_c_string.Sysdeps.Locker.Run.{
  Task, absent, process, command, zombie, System, set, release, becomes, Step, plain, closes,
  unlocks, fork_fails, executes, command_ends, waits, ends, Reach, here, next,
}

-- The lock comes free from here.
abbrev pub ComesFree : System → Type 0
ComesFree s = (t : System) × Reach s t × (t.owner ≡ none)

before_step : (s t u : System) → Step s t → Reach t u → Reach s u
before_step s t u step here = next here step
before_step s t u step (next reach last) = next (before_step s t _ step reach) last

first_step : (s t : System) → Step s t → ComesFree t → ComesFree s
first_step s t step (u, reach, unlocked) = (u, before_step s t u step reach, unlocked)

at_once : (s t : System) → Step s t → t.owner ≡ none → ComesFree s
at_once s t step unlocked = (t, next here step, unlocked)

set_own : (tasks : ℕ → Task) (i : ℕ) (task : Task) → set tasks i task i ≡ task
set_own tasks i task = rw (==_self i) refl

released : (s : System) (i : ℕ) → s.owner ≡ some i → release i s.owner ≡ none
released s i mine = ap (release i) mine ∙ release_own i

-- A process that is inside goes on to release the lock.
inside_ComesFree :
    (p : Prog ℤ) (s : System) (i : ℕ)
    → s.tasks i ≡ process p
    → s.owner ≡ some i
    → Keeps inside p
    → ComesFree s
unfolding Keeps
inside_ComesFree (ret code) s i now mine keeps =
    at_once s _ (ends i 0 (ret code) now tt refl) (released s i mine)
inside_ComesFree (exit code) s i now mine keeps =
    at_once s _ (ends i 0 (exit code) now tt refl) (released s i mine)
inside_ComesFree abort s i now mine keeps =
    at_once s _ (ends i 0 abort now tt refl) (released s i mine)
inside_ComesFree (call (open_file path) k) s i now mine keeps =
    first_step s _ (plain i (open_file path) k (pos 0) now tt refl)
      (inside_ComesFree (k (pos 0)) _ i (set_own s.tasks i _) mine (keeps.1 (pos 0)))
inside_ComesFree (call getpid k) s i now mine keeps =
    first_step s _ (plain i getpid k (pos 0) now tt refl)
      (inside_ComesFree (k (pos 0)) _ i (set_own s.tasks i _) mine (keeps.1 (pos 0)))
inside_ComesFree (call strerror k) s i now mine keeps =
    first_step s _ (plain i strerror k [] now tt refl)
      (inside_ComesFree (k []) _ i (set_own s.tasks i _) mine (keeps.1 []))
inside_ComesFree (call (print_error text) k) s i now mine keeps =
    first_step s _ (plain i (print_error text) k tt now tt refl)
      (inside_ComesFree (k tt) _ i (set_own s.tasks i _) mine keeps.1)
inside_ComesFree (call (close fd) k) s i now mine keeps =
    at_once s _ (closes i fd k (pos 0) now refl) (released s i mine)
inside_ComesFree (call (setlkw unlock fd) k) s i now mine keeps =
    at_once s _ (unlocks i fd k now refl) (released s i mine)
inside_ComesFree (call fork k) s i now mine keeps =
    first_step s _ (fork_fails i k now refl)
      (inside_ComesFree (k minus_one) _ i (set_own s.tasks i _) mine keeps.0)
inside_ComesFree (call (setlkw write_lock fd) k) s i now mine keeps = elim keeps [ ]
inside_ComesFree (call (execvp argv) k) s i now mine keeps = elim keeps [ ]
inside_ComesFree (call (waitpid pid) k) s i now mine keeps = elim keeps [ ]

-- A process that has the lock and waits for the process `c`.
record Waiter (s : System) (p c : ℕ) : Type 0 where
  program : Prog ℤ
  now : s.tasks p ≡ process program
  mine : s.owner ≡ some p
  keeps : Keeps (waiting c) program
  apart : (p == c) ≡ false

-- What the child does leaves the waiting process as it is.
after_child :
    (s : System) (p c : ℕ) (task : Task) (owner : Option ℕ)
    → Waiter s p c
    → owner ≡ some p
    → Waiter (record (becomes s c task) { owner = owner }) p c
after_child s p c task owner h mine = record {
  program = h.program;
  now = (rw (h.apart) refl) ∙ h.now;
  mine = mine;
  keeps = h.keeps;
  apart = h.apart;
}

differ : (p c : ℕ) → (p == c) ≡ false → some p ≢ some c
differ p c apart same = ground arith

released_other : (s : System) (p c : ℕ) → Waiter s p c → release c s.owner ≡ some p
released_other s p c h = ap (release c) h.mine ∙ release_other (some p) c (differ p c h.apart)

waited :
    (p c status : ℕ) (w : Prog ℤ) (s : System)
    → s.tasks p ≡ process w
    → s.owner ≡ some p
    → Keeps (waiting c) w
    → s.tasks c ≡ zombie status
    → ComesFree s
unfolding Keeps
waited p c status (ret code) s now mine keeps gone = elim keeps [ ]
waited p c status (exit code) s now mine keeps gone = elim keeps [ ]
waited p c status abort s now mine keeps gone = elim keeps [ ]
waited p c status (call (open_file path) k) s now mine keeps gone = elim keeps.0 [ ]
waited p c status (call getpid k) s now mine keeps gone = elim keeps.0 [ ]
waited p c status (call strerror k) s now mine keeps gone = elim keeps.0 [ ]
waited p c status (call (print_error text) k) s now mine keeps gone = elim keeps.0 [ ]
waited p c status (call (close fd) k) s now mine keeps gone = elim keeps [ ]
waited p c status (call (setlkw type fd) k) s now mine keeps gone = elim keeps [ ]
waited p c status (call fork k) s now mine keeps gone = elim keeps [ ]
waited p c status (call (execvp argv) k) s now mine keeps gone = elim keeps [ ]
waited p c status (call (waitpid pid) k) s now mine keeps gone =
    let at_child = subst (λ x. s.tasks p ≡ process (call (waitpid x) k)) keeps.0 now in
    first_step s _ (waits p c status k at_child gone refl) (
      inside_ComesFree (k (pos c, status)) _ p (set_own (set s.tasks c absent) p _) mine
        (keeps.1 status))

zombie_ComesFree :
    (s : System) (p c status : ℕ) → Waiter s p c → s.tasks c ≡ zombie status → ComesFree s
zombie_ComesFree s p c status h gone = waited p c status h.program s h.now h.mine h.keeps gone

command_ComesFree : (s : System) (p c : ℕ) → Waiter s p c → s.tasks c ≡ command → ComesFree s
command_ComesFree s p c h now =
    first_step s _ (command_ends c 0 now refl) (
      zombie_ComesFree _ p c 0 (after_child s p c (zombie 0) s.owner h h.mine)
        (set_own s.tasks c _))

-- A child goes on to become the command, or ends.
child_ComesFree :
    (q : Prog ℤ) (s : System) (p c : ℕ)
    → Waiter s p c
    → s.tasks c ≡ process q
    → Keeps child q
    → ComesFree s
unfolding Keeps
child_ComesFree (ret code) s p c h now keeps = first_step s _ (ends c 0 (ret code) now tt refl) (
    zombie_ComesFree _ p c 0 (after_child s p c (zombie 0) _ h (released_other s p c h))
      (set_own s.tasks c _))
child_ComesFree (exit code) s p c h now keeps = first_step s _ (ends c 0 (exit code) now tt refl) (
    zombie_ComesFree _ p c 0 (after_child s p c (zombie 0) _ h (released_other s p c h))
      (set_own s.tasks c _))
child_ComesFree abort s p c h now keeps = first_step s _ (ends c 0 abort now tt refl) (
    zombie_ComesFree _ p c 0 (after_child s p c (zombie 0) _ h (released_other s p c h))
      (set_own s.tasks c _))
child_ComesFree (call (open_file path) k) s p c h now keeps =
    first_step s _ (plain c (open_file path) k (pos 0) now tt refl) (
      child_ComesFree (k (pos 0)) _ p c (after_child s p c _ s.owner h h.mine) (set_own s.tasks c _)
        (keeps.1 (pos 0)))
child_ComesFree (call getpid k) s p c h now keeps =
    first_step s _ (plain c getpid k (pos 0) now tt refl) (
      child_ComesFree (k (pos 0)) _ p c (after_child s p c _ s.owner h h.mine) (set_own s.tasks c _)
        (keeps.1 (pos 0)))
child_ComesFree (call strerror k) s p c h now keeps =
    first_step s _ (plain c strerror k [] now tt refl) (
      child_ComesFree (k []) _ p c (after_child s p c _ s.owner h h.mine) (set_own s.tasks c _)
        (keeps.1 []))
child_ComesFree (call (print_error text) k) s p c h now keeps =
    first_step s _ (plain c (print_error text) k tt now tt refl) (
      child_ComesFree (k tt) _ p c (after_child s p c _ s.owner h h.mine) (set_own s.tasks c _)
        keeps.1)
child_ComesFree (call (close fd) k) s p c h now keeps =
    first_step s _ (closes c fd k (pos 0) now refl) (
      child_ComesFree (k (pos 0)) _ p c (after_child s p c _ _ h (released_other s p c h))
        (set_own s.tasks c _) (keeps (pos 0)))
child_ComesFree (call (execvp argv) k) s p c h now keeps =
    first_step s _ (executes c argv k now refl)
      (command_ComesFree _ p c (after_child s p c command s.owner h h.mine) (set_own s.tasks c _))
child_ComesFree (call (setlkw type fd) k) s p c h now keeps = elim keeps [ ]
child_ComesFree (call fork k) s p c h now keeps = elim keeps [ ]
child_ComesFree (call (waitpid pid) k) s p c h now keeps = elim keeps [ ]

-- The task of the child of a process that waits.
kid_ComesFree :
    (task : Task) (s : System) (p c : ℕ)
    → Waiter s p c
    → s.tasks c ≡ task
    → Fits kid task
    → ComesFree s
kid_ComesFree absent s p c h now fits = elim fits [ ]
kid_ComesFree (process q) s p c h now fits = child_ComesFree q s p c h now fits
kid_ComesFree command s p c h now fits = command_ComesFree s p c h now
kid_ComesFree (zombie status) s p c h now fits = zombie_ComesFree s p c status h now

holder_task : (task : Task) → Fits holder task → (q : Prog ℤ) × (task ≡ process q) × Keeps inside q
holder_task (process q) fits = (q, refl, fits)
holder_task absent fits = elim fits [ ]
holder_task command fits = elim fits [ ]
holder_task (zombie status) fits = elim fits [ ]

apart_sym : (p c : ℕ) → (c == p) ≡ false → (p == c) ≡ false
apart_sym p c h = ground arith

mode_ComesFree : (m : Mode) (s : System) → Represents m s → ComesFree s
mode_ComesFree free s h = (s, here, h.owner)
mode_ComesFree (held p) s h =
    let at_holder : Fits holder (s.tasks p) =
      subst (λ b. Fits (if b then holder else calm) (s.tasks p)) (==_self p) (h.fits p) in
    let (q, now, keeps) = holder_task (s.tasks p) at_holder in
    inside_ComesFree q s p now h.owner keeps
mode_ComesFree (busy p c) s h =
    let (w, now, keeps) = waiting_task p c (s.tasks p) (h.fits p) in
    let as_kid : role (busy p c) c ≡ kid = rw (h.proper, ==_self c) refl in
    kid_ComesFree (s.tasks c) s p c
      (record {
        program = w;
        now = now;
        mine = h.owner;
        keeps = keeps;
        apart = apart_sym p c h.proper;
      })
      refl (subst (λ r. Fits r (s.tasks c)) as_kid (h.fits c))

-- From a start of any number of processes, whatever they have done so far, the lock can come
-- free again: no order of the calls leads to a system that is stuck with the lock held.
pub Reach-ComesFree : (atoi : Bytes → ℤ) (s t : System) → Starts atoi s → Reach s t → ComesFree t
Reach-ComesFree atoi s t h reach =
    let (m, _, now) = Reach-Implements atoi s t h reach in mode_ComesFree m t now
