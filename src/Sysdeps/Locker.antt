-- ===== src/Sysdeps/Locker.antt =====
-- sd-locker.c with sd-locker_posix.c: a command that runs under a lock on a file.
pub mod Calls
pub mod Run
pub mod Refines
pub mod Mutex
pub mod Phases
pub mod Exclusion
pub mod Ends
pub mod Shell
pub mod Progress
pub mod Windows
pub mod Moves
pub mod Followed
use coreland_c_string.Base.{
  ℕ, ◌/◌, ◌%◌, ltb, Bool, true, false, not, List, [], ◌∷◌, ◌++◌, Bytes, length, ℤ, pos, minus_one,
  ◌==ℤ◌, lit, String, signed_decimal, if◌then◌else◌,
}
use coreland_c_string.Sysdeps.Locker.Calls.{
  LockType, write_lock, unlock, Syscall, Prog, ret, exit, abort, call, ◌>>=◌, ◌>>◌, open_file,
  setlkw, close, fork, execvp, waitpid, getpid, strerror, print_error, ask, assert_that,
}

-- `struct sd_locker_state_t` and `struct sd_locker_posix_state_t`
pub record Locker : Type 0 where
  pub lock_file : Bytes
  pub id : ℤ
  pub exit_code : ℤ
  pub locked : ℤ
  pub lock_fd : ℤ

-- `EXIT_SUCCESS` and `EXIT_FAILURE`
abbrev pub exit_success : ℤ
exit_success = pos 0

abbrev pub exit_failure : ℤ
exit_failure = pos 1

unfoldable pub sd_locker_fatal : {A : Type 0} → Locker → String → Prog A
sd_locker_fatal state message = do
  error ← ask strerror
  ask (
      print_error (
        lit "sd-locker: "
        ++ (signed_decimal state.id
            ++ (lit ": " ++ (lit message ++ (lit " - " ++ (error ++ lit "\n")))))))
  exit exit_failure

-- A call that failed ends the program.
abbrev pub fatal_if : Bool → Locker → String → Prog (Unit {0})
fatal_if failed state message = if failed then sd_locker_fatal state message else ret tt

-- `sd_locker_posix_lock_acquire`
unfoldable pub posix_lock_acquire : Locker → Prog (Unit {0})
posix_lock_acquire state = do
  assert_that (state.locked ==ℤ pos 0)
  ask getpid
  r ← ask (setlkw write_lock state.lock_fd)
  fatal_if (r ==ℤ minus_one) state "fcntl"

-- `sd_locker_posix_lock_release`
unfoldable pub posix_lock_release : Locker → Prog (Unit {0})
posix_lock_release state = do
  assert_that (state.locked ==ℤ pos 1)
  ask getpid
  r ← ask (setlkw unlock state.lock_fd)
  fatal_if (r ==ℤ minus_one) state "fcntl"

-- `sd_locker_posix_lock_file_open`
unfoldable pub posix_lock_file_open : Locker → Prog Locker
posix_lock_file_open state = do
  fd ← ask (open_file state.lock_file)
  let state = record state { lock_fd = fd }
  fatal_if (fd ==ℤ minus_one) state "open"
  ret state

-- `sd_locker_posix_lock_file_close`
unfoldable pub posix_lock_file_close : Locker → Prog (Unit {0})
posix_lock_file_close state = do
  assert_that (not (state.lock_fd ==ℤ minus_one))
  r ← ask (close state.lock_fd)
  fatal_if (r ==ℤ minus_one) state "close"

-- `argc > 0`
abbrev pub has_command : List Bytes → Bool
has_command [] = false
has_command (command ∷ arguments) = true

-- `WEXITSTATUS (status)`
abbrev pub exit_status : ℕ → ℤ
exit_status status = pos (status / 256 % 256)

-- The child, which `execvp` turns into the command.
abbrev child : Locker → List Bytes → Prog Locker
child state argv = do
  r ← ask (close state.lock_fd)
  fatal_if (r ==ℤ minus_one) state "close"
  r ← ask (execvp argv)
  fatal_if (r ==ℤ minus_one) state "execvp"
  ret state

-- The parent, which waits for it.
abbrev parent : Locker → ℤ → Prog Locker
parent state process_id = do
  waited ← ask (waitpid process_id)
  fatal_if (waited.0 ==ℤ minus_one) state "waitpid"
  ret (record state { exit_code = exit_status waited.1 })

-- `sd_locker_posix_execute`
unfoldable pub posix_execute : Locker → List Bytes → Prog Locker
posix_execute state argv = do
  assert_that (has_command argv)
  process_id ← ask fork
  fatal_if (process_id ==ℤ minus_one) state "fork"
  if process_id ==ℤ pos 0 then child state argv else parent state process_id

-- The functions of sd-locker.c, without SD_LOCKER_DEBUGGING, whose messages and argument dump are
-- left out by the preprocessor.
unfoldable pub sd_locker_lock_acquire : Locker → Prog Locker
unfolding posix_lock_acquire
sd_locker_lock_acquire state = do posix_lock_acquire state; ret (record state { locked = pos 1 })

unfoldable pub sd_locker_lock_release : Locker → Prog Locker
unfolding posix_lock_release
sd_locker_lock_release state = do posix_lock_release state; ret (record state { locked = pos 0 })

unfoldable pub sd_locker_execute : Locker → List Bytes → Prog Locker
unfolding posix_execute
sd_locker_execute state argv = do
  assert_that (state.locked ==ℤ pos 1)
  assert_that (has_command argv)
  posix_execute state argv

unfoldable pub usage : Prog ℤ
usage = do
  ask (print_error (lit "sd-locker: usage: id file command [arguments]\n"))
  exit exit_failure

-- `main` behind the test of `argc`: a lock file and the command that is run under it.
unfoldable pub run_command : Locker → List Bytes → Prog ℤ
unfolding posix_lock_file_open sd_locker_lock_acquire sd_locker_execute sd_locker_lock_release
    posix_lock_file_close
run_command state argv = do
  state ← posix_lock_file_open state
  state ← sd_locker_lock_acquire state
  state ← sd_locker_execute state argv
  state ← sd_locker_lock_release state
  posix_lock_file_close state
  ret state.exit_code

-- `main` on the arguments behind the program's name.
unfoldable pub main : (Bytes → ℤ) → List Bytes → Prog ℤ
unfolding run_command usage
main atoi (id ∷ file ∷ command ∷ arguments) =
    run_command
      (record {
        lock_file = file;
        id = atoi id;
        exit_code = exit_success;
        locked = pos 0;
        lock_fd = pos 0;
      })
      (command ∷ arguments)
main atoi argv = usage
