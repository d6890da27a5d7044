-- ===== src/Sysdeps/Locker/Windows.antt =====
-- sd-locker.c with sd-locker_win32.c: the lock and the command on Windows.
use coreland_c_string.Base.{
  Bool, not, Option, none, some, List, ◌++◌, Bytes, ℤ, pos, minus_one, ◌==ℤ◌, lit, String,
  signed_decimal, if◌then◌else◌,
}
use coreland_c_string.Sysdeps.Locker.{Locker, exit_failure, has_command}
use coreland_c_string.Sysdeps.Locker.Shell.{convert_command}

-- The functions of Windows, over a state `T`. A handle is a number, `INVALID_HANDLE_VALUE` is -1 and
-- a null pointer is 0; `create_process` gives the handles of the process and of its thread.
pub record LockApi (T : Type 0) : Type 0 where
  pub create_file : Bytes → T → ℤ × T
  pub lock_file_ex : ℤ → T → Bool × T
  pub unlock_file_ex : ℤ → T → Bool × T
  pub close_handle : ℤ → T → Bool × T
  pub allocates : T → Bool × T
  pub create_process : Bytes → T → (Bool × ℤ × ℤ) × T
  pub wait_for_single_object : ℤ → T → Unit {0} × T
  pub get_exit_code_process : ℤ → T → (Bool × ℤ) × T
  pub format_message : T → Option Bytes × T
  pub print_error : Bytes → T → Unit {0} × T

-- A step goes on, ends the program, or stops it at an assertion or a write past a block.
pub data Ended (T A : Type 0) : Type 0 where
  goes : A → T → Ended T A
  exits : ℤ → T → Ended T A
  aborts : Ended T A

abbrev pub W : Type 0 → Type 0 → Type 0
W T A = T → Ended T A

module _ {T : Type 0} where
  infixl 5 ◌>>=◌ ◌>>◌
  unfoldable pub ◌>>=◌ : {A B : Type 0} → W T A → (A → W T B) → W T B
  ◌>>=◌ p f t = elim (p t) [ goes a t' ↦ f a t' | exits code t' ↦ exits code t' | aborts ↦ aborts ]

  abbrev pub ◌>>◌ : {A B : Type 0} → W T A → W T B → W T B
  p >> q = p >>= λ _. q

  abbrev pub ret : {A : Type 0} → A → W T A
  ret a t = goes a t

  abbrev pub sys : {A : Type 0} → (T → A × T) → W T A
  sys f t = let (a, t') = f t in goes a t'

  abbrev pub assert_that : Bool → W T (Unit {0})
  assert_that c t = if c then goes tt t else aborts

  -- A pointer that is asserted not to be null, or a value that a faulty write does not give.
  abbrev pub given : {A : Type 0} → Option A → W T A
  given none t = aborts
  given (some a) t = goes a t

module _ {T : Type 0} (win : LockApi T) where
  unfoldable pub win32_error_message : W T Bytes
  win32_error_message = do message ← sys win.format_message; given message

  -- `sd_locker_fatal`, with the message of Windows
  unfoldable pub win32_fatal : Locker → String → W T (Unit {0})
  unfolding win32_error_message
  win32_fatal state message = do
    error ← win32_error_message
    sys (
        win.print_error (
          lit "sd-locker: "
          ++ (signed_decimal state.id
              ++ (lit ": " ++ (lit message ++ (lit " - " ++ (error ++ lit "\n")))))))
    λ t. exits exit_failure t

  abbrev pub win32_fatal_if : Bool → Locker → String → W T (Unit {0})
  win32_fatal_if failed state message = if failed then win32_fatal state message else ret tt

  unfoldable pub win32_lock_acquire : Locker → W T (Unit {0})
  win32_lock_acquire state = do
    assert_that (state.locked ==ℤ pos 0)
    locked ← sys (win.lock_file_ex state.lock_fd)
    win32_fatal_if (not locked) state "lock_file_ex"

  unfoldable pub win32_lock_release : Locker → W T (Unit {0})
  win32_lock_release state = do
    assert_that (state.locked ==ℤ pos 1)
    unlocked ← sys (win.unlock_file_ex state.lock_fd)
    win32_fatal_if (not unlocked) state "unlock_file_ex"

  unfoldable pub win32_lock_file_open : Locker → W T Locker
  win32_lock_file_open state = do
    handle ← sys (win.create_file state.lock_file)
    win32_fatal_if (handle ==ℤ minus_one) (record state { lock_fd = handle }) "create_file"
    ret (record state { lock_fd = handle })

  unfoldable pub win32_lock_file_close : Locker → W T (Unit {0})
  win32_lock_file_close state = do
    assert_that (not (state.lock_fd ==ℤ pos 0))
    closed ← sys (win.close_handle state.lock_fd)
    win32_fatal_if (not closed) state "close_handle"

  unfoldable pub win32_execute : Locker → List Bytes → W T Locker
  win32_execute state argv = do
    assert_that (has_command argv)
    allocated ← sys win.allocates
    win32_fatal_if (not allocated) state "malloc"
    command ← given (convert_command argv)
    process ← sys (win.create_process command)
    win32_fatal_if (not process.0) state "create_process"
    sys (win.wait_for_single_object process.1)
    code ← sys (win.get_exit_code_process process.1)
    win32_fatal_if (not code.0) state "exit_code"
    closed ← sys (win.close_handle process.1)
    win32_fatal_if (not closed) state "close_process"
    closed ← sys (win.close_handle process.2)
    win32_fatal_if (not closed) state "close_thread"
    ret (record state { exit_code = code.1 })

  -- `main` behind the test of `argc`, as sd-locker.c has it on both systems
  unfoldable pub win32_run_command : Locker → List Bytes → W T ℤ
  unfolding win32_lock_file_open win32_lock_acquire win32_execute win32_lock_release
      win32_lock_file_close
  win32_run_command state argv = do
    state ← win32_lock_file_open state
    win32_lock_acquire state
    let state = record state { locked = pos 1 }
    assert_that (state.locked ==ℤ pos 1)
    state ← win32_execute state argv
    win32_lock_release state
    let state = record state { locked = pos 0 }
    win32_lock_file_close state
    ret state.exit_code
