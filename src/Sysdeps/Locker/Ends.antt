-- ===== src/Sysdeps/Locker/Ends.antt =====
-- With which exit code a process of sd-locker.c ends.
use coreland_c_string.Base.{
  ℕ, ◌≡◌, refl, false, ℤ, pos, minus_one, ◌==ℤ◌, List, [], ◌∷◌, Bytes, Bool-cases, inl, inr,
  if◌then◌else◌,
}
use coreland_c_string.Sysdeps.Locker.Calls.{
  write_lock, unlock, Syscall, Answer, open_file, setlkw, close, fork, execvp, waitpid, getpid,
  strerror, print_error, Prog, ret, exit, abort, call, ◌>>=◌,
}
use coreland_c_string.Sysdeps.Locker.{
  exit_status, exit_failure, sd_locker_fatal, posix_lock_acquire, posix_lock_release,
  posix_lock_file_open, posix_lock_file_close, posix_execute, sd_locker_lock_acquire,
  sd_locker_lock_release, sd_locker_execute, usage, run_command, main,
}

-- What the calls answer in one run.
pub record Answers : Type 0 where
  pub opened : ℤ
  pub locked : ℤ
  pub forked : ℤ
  pub waited : ℤ × ℕ
  pub unlocked : ℤ
  pub closed : ℤ
  pub executed : ℤ

abbrev pub answer : Answers → (c : Syscall) → Answer c
answer a (open_file path) = a.opened
answer a (setlkw write_lock fd) = a.locked
answer a (setlkw unlock fd) = a.unlocked
answer a (close fd) = a.closed
answer a fork = a.forked
answer a (execvp argv) = a.executed
answer a (waitpid pid) = a.waited
answer a getpid = pos 0
answer a strerror = []
answer a (print_error text) = tt

-- How a program ends: the exit code of the process, or an assertion that failed.
pub data End : Type 0 where
  exits : ℤ → End
  fails_assertion : End

unfoldable pub run : Answers → Prog ℤ → End
run a (ret code) = exits code
run a (exit code) = exits code
run a abort = fails_assertion
run a (call c k) = run a (k (answer a c))

-- `run a p ≡ e`, by the calls of the program.
unfoldable EndsAs : Answers → End → Prog ℤ → Type 0
EndsAs a e (ret code) = exits code ≡ e
EndsAs a e (exit code) = exits code ≡ e
EndsAs a e abort = fails_assertion ≡ e
EndsAs a e (call c k) = Unit {0} → EndsAs a e (k (answer a c))

EndsAs-run : (a : Answers) (e : End) (p : Prog ℤ) → EndsAs a e p → run a p ≡ e
unfolding EndsAs run
EndsAs-run a e (ret code) h = h
EndsAs-run a e (exit code) h = h
EndsAs-run a e abort h = h
EndsAs-run a e (call c k) h = EndsAs-run a e (k (answer a c)) (h tt)

-- What the exit code is meant to be for a process that forked.
abbrev pub parent_end : Answers → ℤ
parent_end a =
    if a.waited.0 ==ℤ minus_one
    then exit_failure
    else if a.unlocked ==ℤ minus_one
    then exit_failure
    else if a.closed ==ℤ minus_one
    then exit_failure
    else exit_status a.waited.1

abbrev pub expected_end : Answers → ℤ
expected_end a =
    if a.opened ==ℤ minus_one
    then exit_failure
    else if a.locked ==ℤ minus_one
    then exit_failure
    else if a.forked ==ℤ minus_one
    then exit_failure
    else parent_end a

main-EndsAs :
    (atoi : Bytes → ℤ) (id file command : Bytes) (arguments : List Bytes) (a : Answers)
    → (a.forked ==ℤ pos 0) ≡ false
    → EndsAs a (exits (expected_end a)) (main atoi (id ∷ file ∷ command ∷ arguments))
unfolding EndsAs main run_command usage sd_locker_fatal posix_lock_acquire posix_lock_release
    posix_lock_file_open posix_lock_file_close posix_execute sd_locker_lock_acquire
    sd_locker_lock_release sd_locker_execute ◌>>=◌
main-EndsAs atoi id file command arguments a is_parent = λ _.
    elim (Bool-cases (a.opened ==ℤ minus_one)) [
      | inl bad ↦ rw bad (λ _ _. rw bad refl)
      | inr good ↦ rw good (λ _ _. elim (Bool-cases (a.locked ==ℤ minus_one)) [
        | inl failed ↦ rw failed (λ _ _. rw (good, failed) refl)
        | inr locked ↦ rw locked (λ _. elim (Bool-cases (a.forked ==ℤ minus_one)) [
          | inl failed ↦ rw failed (λ _ _. rw (good, locked, failed) refl)
          | inr forked ↦
              rw (forked, is_parent)
                (λ _. elim (Bool-cases (a.waited.0 ==ℤ minus_one)) [
                  | inl failed ↦ rw failed (λ _ _. rw (good, locked, forked, failed) refl)
                  | inr waited ↦ rw waited (λ _ _. elim (Bool-cases (a.unlocked ==ℤ minus_one)) [
                    | inl failed ↦ rw failed (λ _ _. rw (good, locked, forked, waited, failed) refl)
                    | inr unlocked ↦
                        rw (unlocked, good)
                          (λ _. elim (Bool-cases (a.closed ==ℤ minus_one)) [
                            | inl failed ↦
                                rw failed
                                  (λ _ _. rw (good, locked, forked, waited, unlocked, failed) refl)
                            | inr closed ↦
                                rw closed (rw (good, locked, forked, waited, unlocked, closed) refl)
                          ])
                  ])
                ])
        ])
      ])
    ]

-- sd-locker that is given a file and a command, and whose `fork` does not make it the child,
-- ends with the status of the command (bits 8 to 15 of the status that `waitpid` gives) where
-- every call succeeds, and with EXIT_FAILURE where one of them fails; no assertion fails.
pub main-expected_end :
    (atoi : Bytes → ℤ) (id file command : Bytes) (arguments : List Bytes) (a : Answers)
    → (a.forked ==ℤ pos 0) ≡ false
    → run a (main atoi (id ∷ file ∷ command ∷ arguments)) ≡ exits (expected_end a)
main-expected_end atoi id file command arguments a is_parent =
    EndsAs-run a (exits (expected_end a)) (main atoi (id ∷ file ∷ command ∷ arguments))
      (main-EndsAs atoi id file command arguments a is_parent)
