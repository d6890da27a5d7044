-- ===== src/Sysdeps/Locker/Calls.antt =====
-- Programs that make system calls: a tree that branches on what each call answers. The system is
-- not part of the repository.
use coreland_c_string.Base.{ℕ, Bool, true, false, List, Bytes, ℤ}

-- `F_WRLCK` and `F_UNLCK`
pub data LockType : Type 0 where
  write_lock unlock : LockType

pub data Syscall : Type 0 where
  open_file : Bytes → Syscall
  setlkw : LockType → ℤ → Syscall
  close : ℤ → Syscall
  fork : Syscall
  execvp : List Bytes → Syscall
  waitpid : ℤ → Syscall
  getpid : Syscall
  strerror : Syscall
  print_error : Bytes → Syscall

-- What a call answers: its value, and for `waitpid` also the status.
abbrev pub Answer : Syscall → Type 0
Answer (open_file path) = ℤ
Answer (setlkw type fd) = ℤ
Answer (close fd) = ℤ
Answer fork = ℤ
Answer (execvp argv) = ℤ
Answer (waitpid pid) = ℤ × ℕ
Answer getpid = ℤ
Answer strerror = Bytes
Answer (print_error text) = Unit

-- A program returns a value, exits, fails an assertion or makes a call.
pub data Prog (A : Type 0) : Type 0 where
  ret : A → Prog A
  exit : ℤ → Prog A
  abort : Prog A
  call : (c : Syscall) → (Answer c → Prog A) → Prog A

infixl 5 ◌>>=◌ ◌>>◌
unfoldable pub ◌>>=◌ : {A B : Type 0} → Prog A → (A → Prog B) → Prog B
ret a >>= f = f a
exit code >>= f = exit code
abort >>= f = abort
call c k >>= f = call c (λ r. k r >>= f)

abbrev pub ◌>>◌ : {A B : Type 0} → Prog A → Prog B → Prog B
p >> q = p >>= λ _. q

abbrev pub ask : (c : Syscall) → Prog (Answer c)
ask c = call c (λ r. ret r)

abbrev pub assert_that : Bool → Prog (Unit {0})
assert_that true = ret tt
assert_that false = abort
