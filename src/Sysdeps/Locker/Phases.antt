-- ===== src/Sysdeps/Locker/Phases.antt =====
-- In which order sd-locker makes its calls, whatever they answer.
use coreland_c_string.Base.{
  ℕ, ◌<◌, ◌==◌, ◌≡◌, refl, false, ℤ, pos, minus_one, ◌==ℤ◌, List, [], ◌∷◌, Bytes, arith, Bool-cases,
  inl, inr,
}
use coreland_c_string.Sysdeps.Locker.Calls.{
  write_lock, unlock, Syscall, Answer, open_file, setlkw, close, fork, execvp, waitpid, getpid,
  strerror, print_error, Prog, ret, exit, abort, call, ◌>>=◌,
}
use coreland_c_string.Sysdeps.Locker.{
  sd_locker_fatal, posix_lock_acquire, posix_lock_release, posix_lock_file_open,
  posix_lock_file_close, posix_execute, sd_locker_lock_acquire, sd_locker_lock_release,
  sd_locker_execute, usage, run_command, main,
}

-- Where a process stands: without the lock, with it, waiting for a child with it, or as the child.
pub data Phase : Type 0 where
  outside inside child : Phase
  waiting : ℕ → Phase

-- A process that waits does nothing else.
abbrev pub IsActive : Phase → Type 0
IsActive (waiting j) = ⊥
IsActive _ = Unit

-- The calls that each phase allows, and the phase that each answer leads to.
abbrev pub Allows : Phase → (c : Syscall) → (Phase → Answer c → Type 0) → Type 0
Allows outside (setlkw write_lock fd) next = next inside (pos 0) × next outside minus_one
Allows inside (setlkw unlock fd) next = next outside (pos 0) × next inside minus_one
Allows phase (setlkw type fd) next = ⊥
Allows inside fork next =
    next inside minus_one × next child (pos 0) × ((j : ℕ) → 0 < j → next (waiting j) (pos j))
Allows phase fork next = ⊥
Allows child (execvp argv) next = next child minus_one
Allows phase (execvp argv) next = ⊥
Allows (waiting j) (waitpid pid) next = (pid ≡ pos j) × ((status : ℕ) → next inside (pos j, status))
Allows phase (waitpid pid) next = ⊥
Allows child (close fd) next = (r : ℤ) → next child r
Allows outside (close fd) next = (r : ℤ) → next outside r
Allows inside (close fd) next = (r : ℤ) → next outside r
Allows (waiting j) (close fd) next = ⊥
Allows phase (open_file path) next = IsActive phase × ((r : ℤ) → next phase r)
Allows phase getpid next = IsActive phase × ((r : ℤ) → next phase r)
Allows phase strerror next = IsActive phase × ((r : Bytes) → next phase r)
Allows phase (print_error text) next = IsActive phase × next phase tt

-- A program keeps to the order: lock, fork, wait for the child, unlock; and the child does
-- nothing but turn into the command. It does not end while it waits.
unfoldable pub Keeps : Phase → Prog ℤ → Type 0
Keeps phase (ret code) = IsActive phase
Keeps phase (exit code) = IsActive phase
Keeps phase abort = IsActive phase
Keeps phase (call c k) = Allows phase c (λ next r. Keeps next (k r))

pub not_zero : (j : ℕ) → 0 < j → (j == 0) ≡ false
not_zero j h = ground arith

-- sd-locker keeps to the order, for any arguments.
pub main-Keeps : (atoi : Bytes → ℤ) (argv : List Bytes) → Keeps outside (main atoi argv)
unfolding Keeps main run_command usage sd_locker_fatal posix_lock_acquire posix_lock_release
    posix_lock_file_open posix_lock_file_close posix_execute sd_locker_lock_acquire
    sd_locker_lock_release sd_locker_execute ◌>>=◌
main-Keeps atoi [] = (tt, tt)
main-Keeps atoi (id ∷ []) = (tt, tt)
main-Keeps atoi (id ∷ file ∷ []) = (tt, tt)
main-Keeps atoi (id ∷ file ∷ command ∷ arguments) = (
  tt,
  λ fd. elim (Bool-cases (fd ==ℤ minus_one)) [
    | inl bad ↦ rw bad (tt, λ error. (tt, tt))
    | inr good ↦ rw good (
      tt,
      λ pid. (
        (
          (tt, λ error. (tt, tt)),
          λ r. elim (Bool-cases (r ==ℤ minus_one)) [
            | inl failed ↦ rw failed (tt, λ error. (tt, tt))
            | inr closed ↦ rw closed (tt, λ error. (tt, tt))
          ],
          λ j some_child. rw (not_zero j some_child) (
            refl,
            λ status. (
              tt,
              λ self. (
                rw good λ r. elim (Bool-cases (r ==ℤ minus_one)) [
                  | inl failed ↦ rw failed (tt, λ error. (tt, tt))
                  | inr closed ↦ rw closed tt
                ],
                (tt, λ error. (tt, tt)),
              ),
            ),
          ),
        ),
        (tt, λ error. (tt, tt)),
      ),
    )
  ],
)
