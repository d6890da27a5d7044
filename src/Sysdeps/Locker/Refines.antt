-- ===== src/Sysdeps/Locker/Refines.antt =====
-- Each step of the processes of sd-locker.c against the steps of the mutual exclusion.
use coreland_c_string.Base.{
  ℕ, ◌<◌, ◌≡◌, refl, sym, ap, ◌∙◌, subst, ◌⊎◌, none, some, ℤ, pos, negsuc, minus_one, Bytes, List,
  inl, inr,
}
use coreland_c_string.Sysdeps.Locker.Calls.{
  LockType, write_lock, unlock, Syscall, Answer, open_file, setlkw, close, fork, execvp, waitpid,
  getpid, strerror, print_error, Prog, ret, exit, abort, call,
}
use coreland_c_string.Sysdeps.Locker.Phases.{
  Allows, IsActive, Phase, outside, inside, child, waiting, Keeps,
}
use coreland_c_string.Sysdeps.Locker.Run.{
  locked_by, forked, executed, waited, freed, taken, seen, absent, process, command, zombie, System,
  becomes, Step, plain, closes, locks, unlocks, lock_fails, forks, fork_fails, executes, exec_fails,
  command_ends, waits, ends, IsPlain, IsEnd,
}
use coreland_c_string.Sysdeps.Locker.Mutex.{
  Fits, Follows, Mode, Represents, Role, as_calm, as_holder, as_kid, as_waiter, busy, calm,
  finishes, at_task, free, held, holder, kid, mode_owner, phase_of, releases, role, role_of, turns,
  starts, stays, takes, waiter,
}

plain_next :
    (phase : Phase) (c : Syscall) (next' : Phase → Answer c → Type 0) (r : Answer c)
    → IsPlain c
    → Allows phase c next'
    → next' phase r
plain_next phase (setlkw _ _) next' r is_plain allowed = elim is_plain [ ]
plain_next phase (close _) next' r is_plain allowed = elim is_plain [ ]
plain_next phase fork next' r is_plain allowed = elim is_plain [ ]
plain_next phase (execvp _) next' r is_plain allowed = elim is_plain [ ]
plain_next phase (waitpid _) next' r is_plain allowed = elim is_plain [ ]
plain_next phase (open_file path) next' r is_plain allowed = allowed.1 r
plain_next phase getpid next' r is_plain allowed = allowed.1 r
plain_next phase strerror next' r is_plain allowed = allowed.1 r
plain_next phase (print_error text) next' r is_plain allowed = allowed.1

lock_failed :
    (phase : Phase) (type : LockType) (fd : ℤ) (next' : Phase → ℤ → Type 0)
    → Allows phase (setlkw type fd) next'
    → next' phase minus_one
lock_failed outside unlock fd next' allowed = elim allowed [ ]
lock_failed inside write_lock fd next' allowed = elim allowed [ ]
lock_failed child type fd next' allowed = elim allowed [ ]
lock_failed (waiting _) type fd next' allowed = elim allowed [ ]
lock_failed outside write_lock fd next' allowed = allowed.1
lock_failed inside unlock fd next' allowed = allowed.1

fork_failed :
    (phase : Phase) (next' : Phase → ℤ → Type 0) → Allows phase fork next' → next' phase minus_one
fork_failed outside next' allowed = elim allowed [ ]
fork_failed child next' allowed = elim allowed [ ]
fork_failed (waiting _) next' allowed = elim allowed [ ]
fork_failed inside next' allowed = allowed.0

exec_failed :
    (phase : Phase) (argv : List Bytes) (next' : Phase → ℤ → Type 0)
    → Allows phase (execvp argv) next'
    → next' phase minus_one
exec_failed outside argv next' allowed = elim allowed [ ]
exec_failed inside argv next' allowed = elim allowed [ ]
exec_failed (waiting _) argv next' allowed = elim allowed [ ]
exec_failed child argv next' allowed = allowed

command_ended : (r : Role) (status : ℕ) → Fits r command → Fits r (zombie status)
command_ended calm status fits = elim fits [ ]
command_ended holder status fits = elim fits [ ]
command_ended (waiter _) status fits = elim fits [ ]
command_ended kid status fits = tt

ended : (phase : Phase) (p : Prog ℤ) → IsEnd p → Keeps phase p → IsActive phase
unfolding Keeps
ended phase (ret code) end keeps = keeps
ended phase (exit code) end keeps = keeps
ended phase abort end keeps = keeps
ended phase (call c _) end keeps = elim end [ ]

free_mode : (m : Mode) → mode_owner m ≡ none → m ≡ free
free_mode free e = refl
free_mode (held p) e = cc
free_mode (busy p c) e = cc

-- The task of a process fits the role that it has.
at_role :
    (m : Mode) (s : System) (i : ℕ) (p : Prog ℤ)
    → Represents m s
    → s.tasks i ≡ process p
    → Keeps (phase_of (role m i)) p
at_role m s i p h e = subst (Fits (role m i)) e (h.fits i)

as_phase : (r r' : Role) (p : Prog ℤ) → Keeps (phase_of r) p → r ≡ r' → Keeps (phase_of r') p
as_phase r r' p k e = subst (λ x. Keeps (phase_of x) p) e k

abbrev size_of : ℤ → ℕ
size_of (pos n) = n
size_of (negsuc n) = n

pos_injective : (a b : ℕ) → pos a ≡ pos b → a ≡ b
pos_injective a b e = ap size_of e

module _ (m : Mode) (s : System) (h : Represents m s) where
  -- What the order of calls says of a process that is about to make a call.
  allowed_at :
      (i : ℕ) (c : Syscall) (k : Answer c → Prog ℤ)
      → s.tasks i ≡ process (call c k)
      → Allows (phase_of (role m i)) c (λ phase r. Keeps phase (k r))
  unfolding Keeps
  allowed_at i c k e = at_role m s i (call c k) h e

  module _ (i : ℕ) (c : Syscall) (k : Answer c → Prog ℤ)
      (now : s.tasks i ≡ process (call c k)) where
    allowed_as : (r : Role) → role m i ≡ r → Allows (phase_of r) c (λ phase a. Keeps phase (k a))
    allowed_as r is =
        subst (λ x. Allows (phase_of x) c (λ phase a. Keeps phase (k a))) is (allowed_at i c k now)

  lock-Follows :
      (i : ℕ) (fd : ℤ) (k : ℤ → Prog ℤ)
      → s.tasks i ≡ process (call (setlkw write_lock fd) k)
      → (s.owner ≡ none) ⊎ (s.owner ≡ some i)
      → Follows m (taken i s.owner) (record (becomes s i (process (k (pos 0)))) { owner = some i })
  lock-Follows i fd k now can =
      let allowed = allowed_as i (setlkw write_lock fd) k now in
      elim (role_of m i) [
        | as_calm is other ↦ elim can [
          | inl unlocked ↦
              let e : m ≡ free = free_mode m (sym h.owner ∙ unlocked) in
              subst
                (λ o.
                  Follows m (taken i o)
                    (record (becomes s i (process (k (pos 0)))) { owner = some i }))
                (sym unlocked)
                (subst
                  (λ x.
                    Follows x (some (locked_by i))
                      (record (becomes s i (process (k (pos 0)))) { owner = some i }))
                  (sym e)
                  (takes s i (k (pos 0)) (subst (λ x. Represents x s) e h) (allowed calm is).0))
          | inr mine ↦ absurd (other (sym h.owner ∙ mine))
        ]
        | as_holder e is ↦ absurd (allowed holder is)
        | as_waiter c e is ↦ absurd (allowed (waiter c) is)
        | as_kid p e is other ↦ absurd (allowed kid is)
      ]

  fork-Follows :
      (i j : ℕ) (k : ℤ → Prog ℤ)
      → s.tasks i ≡ process (call fork k)
      → s.tasks j ≡ absent
      → 0 < j
      → Follows m
          (some (forked i j))
          (becomes (becomes s i (process (k (pos j)))) j (process (k (pos 0))))
  fork-Follows i j k now new positive =
      let allowed = allowed_as i fork k now in
      elim (role_of m i) [
        | as_calm is other ↦ absurd (allowed calm is)
        | as_holder e is ↦
            subst
              (λ x.
                Follows x (some (forked i j))
                  (becomes (becomes s i (process (k (pos j)))) j (process (k (pos 0)))))
              (sym e)
              (starts s i j (k (pos j)) (k (pos 0)) (subst (λ x. Represents x s) e h) new
                ((allowed holder is).2 j positive) (allowed holder is).1)
        | as_waiter c e is ↦ absurd (allowed (waiter c) is)
        | as_kid p e is other ↦ absurd (allowed kid is)
      ]

  wait-Follows :
      (i j status : ℕ) (k : ℤ × ℕ → Prog ℤ)
      → s.tasks i ≡ process (call (waitpid (pos j)) k)
      → Follows m (some (waited i j)) (becomes (becomes s j absent) i (process (k (pos j, status))))
  wait-Follows i j status k now =
      let allowed = allowed_as i (waitpid (pos j)) k now in
      elim (role_of m i) [
        | as_calm is other ↦ absurd (allowed calm is)
        | as_holder e is ↦ absurd (allowed holder is)
        | as_waiter c e is ↦
            let (same, after) = allowed (waiter c) is in
            let e' : m ≡ busy i j = e ∙ ap (busy i) (sym (pos_injective j c same)) in
            subst
              (λ x.
                Follows x (some (waited i j))
                  (becomes (becomes s j absent) i (process (k (pos j, status)))))
              (sym e')
              (finishes s i j (k (pos j, status)) (subst (λ x. Represents x s) e' h)
                (subst (λ x. Keeps inside (k (x, status))) (sym same) (after status)))
        | as_kid p e is other ↦ absurd (allowed kid is)
      ]

  exec-Follows :
      (i : ℕ) (argv : List Bytes) (k : ℤ → Prog ℤ)
      → s.tasks i ≡ process (call (execvp argv) k)
      → Follows m (some (executed i)) (becomes s i command)
  exec-Follows i argv k now =
      let allowed = allowed_as i (execvp argv) k now in
      elim (role_of m i) [
        | as_calm is other ↦ absurd (allowed calm is)
        | as_holder e is ↦ absurd (allowed holder is)
        | as_waiter c e is ↦ absurd (allowed (waiter c) is)
        | as_kid p e is other ↦
            subst (λ x. Follows x (some (executed i)) (becomes s i command)) (sym e)
              (turns s p i (subst (λ x. Represents x s) e h)
                (subst (λ x. Fits (role x i) command) e (subst (λ r. Fits r command) (sym is) tt)))
      ]

-- Whatever is seen of what a process does, the mutual exclusion makes that step.
pub Step-Follows :
    (m : Mode) (s t : System) → Represents m s → (step : Step s t) → Follows m (seen step) t
Step-Follows m s t h (plain i c k r now is_plain e) = subst (Follows m none) (sym e) (
    stays m s i (process (k r)) h (
      plain_next (phase_of (role m i)) c (λ phase a. Keeps phase (k a)) r is_plain
        (allowed_at m s h i c k now)))
Step-Follows m s t h (closes i fd k r now e) =
    let allowed = allowed_as m s h i (close fd) k now in
    subst (Follows m (freed i s.owner)) (sym e) (
      releases m s i (process (k r)) h (λ is. allowed calm is r) (λ is. allowed holder is r)
        (λ is. allowed kid is r) (λ c is. allowed (waiter c) is))
Step-Follows m s t h (locks i fd k now can e) =
    subst (Follows m (taken i s.owner)) (sym e) (lock-Follows m s h i fd k now can)
Step-Follows m s t h (unlocks i fd k now e) =
    let allowed = allowed_as m s h i (setlkw unlock fd) k now in
    subst (Follows m (freed i s.owner)) (sym e) (
      releases m s i (process (k (pos 0))) h (λ is. absurd (allowed calm is))
        (λ is. (allowed holder is).0) (λ is. absurd (allowed kid is))
        (λ c is. allowed (waiter c) is))
Step-Follows m s t h (lock_fails i type fd k now e) = subst (Follows m none) (sym e) (
    stays m s i (process (k minus_one)) h (
      lock_failed (phase_of (role m i)) type fd (λ phase a. Keeps phase (k a))
        (allowed_at m s h i (setlkw type fd) k now)))
Step-Follows m s t h (forks i j k now new positive e) =
    subst (Follows m (some (forked i j))) (sym e) (fork-Follows m s h i j k now new positive)
Step-Follows m s t h (fork_fails i k now e) = subst (Follows m none) (sym e) (
    stays m s i (process (k minus_one)) h (
      fork_failed (phase_of (role m i)) (λ phase a. Keeps phase (k a))
        (allowed_at m s h i fork k now)))
Step-Follows m s t h (executes i argv k now e) =
    subst (Follows m (some (executed i))) (sym e) (exec-Follows m s h i argv k now)
Step-Follows m s t h (exec_fails i argv k now e) = subst (Follows m none) (sym e) (
    stays m s i (process (k minus_one)) h (
      exec_failed (phase_of (role m i)) argv (λ phase a. Keeps phase (k a))
        (allowed_at m s h i (execvp argv) k now)))
Step-Follows m s t h (command_ends i status now e) =
    subst (Follows m none) (sym e) (
      stays m s i (zombie status) h (command_ended (role m i) status (at_task m s i command h now)))
Step-Follows m s t h (waits i j status k now child_ended e) =
    subst (Follows m (some (waited i j))) (sym e) (wait-Follows m s h i j status k now)
Step-Follows m s t h (ends i status p now is_end e) = subst (Follows m (freed i s.owner)) (sym e) (
    releases m s i (zombie status) h (λ is. tt) (λ is. tt) (λ is. tt)
      (λ c is.
        ended (waiting c) p is_end (as_phase (role m i) (waiter c) p (at_role m s i p h now) is)))
