-- ===== src/Sysdeps/Locker/Followed.antt =====
-- sd-locker.c with sd-locker_win32.c against the list of its moves.
use coreland_c_string.Base.{
  Bool, true, false, not, Option, none, some, List, [], ◌∷◌, ◌++◌, Bytes, ℤ, pos, minus_one, ◌==ℤ◌,
  String, ◌≡◌, refl, sym, ap, ◌∙◌,
}
use coreland_c_string.Sysdeps.Locker.{Locker, exit_failure}
use coreland_c_string.Sysdeps.Locker.Shell.{convert_command, convert_command-quoted}
use coreland_c_string.Sysdeps.Locker.Windows.{
  Ended, goes, exits, aborts, W, ◌>>=◌, ret, sys, assert_that, given, win32_error_message,
  win32_fatal, win32_fatal_if, win32_lock_acquire, win32_lock_release, win32_lock_file_open,
  win32_lock_file_close, win32_execute, win32_run_command,
}
use coreland_c_string.Sysdeps.Locker.Moves.{
  Event, creates_file, locks, unlocks, closes, allocates, creates_process, waits_for,
  asks_exit_code, reports, Replies, logging, Move, calls, needs, error_line, ends_failed, follow,
  command_line, open_moves, acquire_moves, execute_moves, release_moves, close_moves, run_moves,
}

-- A program does nothing but these moves, and then goes on with this value.
record Makes {A : Type 0} (r : Replies) (id : ℤ) (moves : List Move) (a : A) (p : W (List Event) A)
    : Type 0 where
  at : (log : List Event) → p log ≡ follow r id moves a log

not-not : (b : Bool) → not (not b) ≡ b
not-not true = refl
not-not false = refl

module _ (r : Replies) (id : ℤ) where
  after_failure :
      {A B : Type 0} (text : String) (message : Option Bytes) (f : A → W (List Event) B)
      (log : List Event)
      → (elim (ends_failed id text message log) [
        | goes a t ↦ f a t
        | exits code t ↦ exits code t
        | aborts ↦ aborts
      ])
        ≡ ends_failed id text message log
  after_failure text none f log = refl
  after_failure text (some message) f log = refl

  after :
      {A B : Type 0} (moves more : List Move) (a : A) (b : B) (f : A → W (List Event) B)
      → Makes r id more b (f a)
      → (log : List Event)
      → (elim (follow r id moves a log) [
        | goes a t ↦ f a t
        | exits code t ↦ exits code t
        | aborts ↦ aborts
      ])
        ≡ follow r id (moves ++ more) b log
  unfolding follow
  after [] more a b f h log = h.at log
  after (calls event ∷ moves) more a b f h log = after moves more a b f h (event ∷ log)
  after (needs true text ∷ moves) more a b f h log = after moves more a b f h log
  after (needs false text ∷ moves) more a b f h log = after_failure text r.message f log

  Makes-bind :
      {A B : Type 0} (moves more : List Move) (a : A) (b : B) (p : W (List Event) A)
      (f : A → W (List Event) B)
      → Makes r id moves a p
      → Makes r id more b (f a)
      → Makes r id (moves ++ more) b (p >>= f)
  unfolding ◌>>=◌
  Makes-bind moves more a b p f first rest = record {
    at = λ log.
        ap (λ e. elim e [ goes a t ↦ f a t | exits code t ↦ exits code t | aborts ↦ aborts ])
          (first.at log)
        ∙ after moves more a b f rest log;
  }

  Makes-ret : {A : Type 0} (a : A) → Makes r id [] a (ret a)
  unfolding follow
  Makes-ret a = record { at = λ log. refl }

  Makes-sys :
      {A : Type 0} (event : Event) (a : A)
      → Makes r id (calls event ∷ []) a (sys (λ log. (a, event ∷ log)))
  unfolding follow
  Makes-sys event a = record { at = λ log. refl }

  Makes-assert : (c : Bool) → c ≡ true → Makes r id [] tt (assert_that c)
  unfolding follow
  Makes-assert c h = record { at = λ log. rw h refl }

  Makes-given : {A : Type 0} (o : Option A) (a : A) → o ≡ some a → Makes r id [] a (given o)
  unfolding follow
  Makes-given o a h = record { at = λ log. rw h refl }

  Makes-needs :
      (ok : Bool) (state : Locker) (text : String)
      → state.id ≡ id
      → Makes r id (needs ok text ∷ []) tt (win32_fatal_if (logging r) (not ok) state text)
  unfolding follow win32_fatal win32_error_message ◌>>=◌
  Makes-needs true state text same = record { at = λ log. refl }
  Makes-needs false state text same = record { at = λ log. reported r.message log }
    where
      reported :
          (message : Option Bytes) (log : List Event)
          → (elim (given message log) as (λ _. Ended (List Event) (Unit {0})) [
            | goes m t ↦ exits exit_failure (reports (error_line state.id text m) ∷ t)
            | exits code t ↦ exits code t
            | aborts ↦ aborts
          ])
            ≡ ends_failed id text message log
      reported none log = refl
      reported (some m) log =
          ap (λ n. exits exit_failure (reports (error_line n text m) ∷ log)) same

  -- A call whose failure ends the run, and what follows it.
  Makes-try :
      {A B : Type 0} (event : Event) (ok : Bool) (text : String) (moves : List Move) (x : A) (b : B)
      (state : A → Locker) (failed : A → Bool) (f : A → W (List Event) B)
      → (state x).id ≡ id
      → failed x ≡ not ok
      → Makes r id moves b (f x)
      → Makes r id (calls event ∷ needs ok text ∷ moves) b (
          sys (λ log. (x, event ∷ log)) >>= λ a.
          win32_fatal_if (logging r) (failed a) (state a) text >>= λ _. f a)
  Makes-try event ok text moves x b state failed f same e rest =
      Makes-bind (calls event ∷ []) (needs ok text ∷ moves) x b _ _ (Makes-sys event x) (
        Makes-bind (needs ok text ∷ []) moves tt b _ _ (rw e (Makes-needs ok (state x) text same))
          rest)

  acquire-Makes :
      (state : Locker)
      → state.id ≡ id
      → state.locked ≡ pos 0
      → Makes r id (acquire_moves r state.lock_fd) tt (win32_lock_acquire (logging r) state)
  unfolding win32_lock_acquire
  acquire-Makes state same free =
      Makes-bind [] _ tt tt _ _ (Makes-assert (state.locked ==ℤ pos 0) (rw free refl)) (
        Makes-bind (calls (locks state.lock_fd) ∷ []) _ r.locked tt _ _ (Makes-sys _ _)
          (Makes-needs r.locked state "lock_file_ex" same))

  release-Makes :
      (state : Locker)
      → state.id ≡ id
      → state.locked ≡ pos 1
      → Makes r id (release_moves r state.lock_fd) tt (win32_lock_release (logging r) state)
  unfolding win32_lock_release
  release-Makes state same held =
      Makes-bind [] _ tt tt _ _ (Makes-assert (state.locked ==ℤ pos 1) (rw held refl)) (
        Makes-bind (calls (unlocks state.lock_fd) ∷ []) _ r.unlocked tt _ _ (Makes-sys _ _)
          (Makes-needs r.unlocked state "unlock_file_ex" same))

  close-Makes :
      (state : Locker)
      → state.id ≡ id
      → (state.lock_fd ==ℤ pos 0) ≡ false
      → Makes r id (close_moves r state.lock_fd) tt (win32_lock_file_close (logging r) state)
  unfolding win32_lock_file_close
  close-Makes state same there =
      Makes-bind [] _ tt tt _ _ (Makes-assert (not (state.lock_fd ==ℤ pos 0)) (ap not there)) (
        Makes-bind (calls (closes state.lock_fd) ∷ []) _ (r.closed state.lock_fd) tt _ _
          (Makes-sys _ _) (Makes-needs (r.closed state.lock_fd) state "close_handle" same))

  open-Makes :
      (state : Locker)
      → state.id ≡ id
      → Makes r id
          (open_moves r state.lock_file)
          (record state { lock_fd = r.opened })
          (win32_lock_file_open (logging r) state)
  unfolding win32_lock_file_open
  open-Makes state same =
      Makes-try (creates_file state.lock_file) (not (r.opened ==ℤ minus_one)) "create_file" []
        r.opened _ (λ handle. record state { lock_fd = handle }) (λ handle. handle ==ℤ minus_one) _
        same (sym (not-not (r.opened ==ℤ minus_one))) (Makes-ret _)

  execute-Makes :
      (state : Locker) (command : Bytes) (arguments : List Bytes)
      → state.id ≡ id
      → Makes r id
          (execute_moves r (command_line (command ∷ arguments)))
          (record state { exit_code = r.code })
          (win32_execute (logging r) state (command ∷ arguments))
  unfolding win32_execute
  execute-Makes state command arguments same = Makes-bind [] _ tt _ _ _ (Makes-assert true refl) (
      Makes-try allocates r.allocated "malloc" _ r.allocated _ (λ _. state) not _ same refl
        (Makes-bind [] _ (command_line (command ∷ arguments)) _ _ _
          (Makes-given (convert_command (command ∷ arguments)) _
            (convert_command-quoted command arguments))
          (Makes-try (creates_process (command_line (command ∷ arguments))) r.started
            "create_process" _ (r.started, r.process, r.thread) _ (λ _. state) (λ p. not p.0) _ same
            refl
            (Makes-bind (calls (waits_for r.process) ∷ []) _ tt _ _ _ (Makes-sys _ _) (
              Makes-try (asks_exit_code r.process) r.asked "exit_code" _ (r.asked, r.code) _
                (λ _. state) (λ c. not c.0) _ same refl
                (Makes-try (closes r.process) (r.closed r.process) "close_process" _ _ _
                  (λ _. state) not _ same refl
                  (Makes-try (closes r.thread) (r.closed r.thread) "close_thread" [] _ _
                    (λ _. state) not _ same refl (Makes-ret _))))))))

-- On Windows a run of a command of at least one word, from a state without the lock and with a
-- CreateFile that gives no null handle, makes these calls in their order: it creates the file,
-- locks it, runs the line for the command, waits for the process, asks for its exit code, closes
-- its handles, unlocks and closes the file. It ends with the code of the command where each
-- succeeds. At the first that fails it makes no other of these calls: it reports the failure and
-- ends with EXIT_FAILURE, or, if FormatMessage gives no message, fails the assertion on it.
pub win32_run_command-follow :
    (r : Replies) (state : Locker) (command : Bytes) (arguments : List Bytes) (log : List Event)
    → state.locked ≡ pos 0
    → (r.opened ==ℤ pos 0) ≡ false
    → win32_run_command (logging r) state (command ∷ arguments) log
      ≡ follow r state.id (run_moves r state.lock_file (command ∷ arguments)) r.code log
unfolding win32_run_command
win32_run_command-follow r state command arguments log free there =
    let opened = record state { lock_fd = r.opened } in
    let held = record opened { locked = pos 1 } in
    let done = record held { exit_code = r.code } in
    let free' = record done { locked = pos 0 } in
    let id = state.id in
    (Makes-bind r id _ _ opened r.code _ _ (open-Makes r id state refl) (
        Makes-bind r id _ _ tt r.code _ _ (acquire-Makes r id opened refl free) (
          Makes-bind r id [] _ tt r.code _ _ (Makes-assert r id true refl) (
            Makes-bind r id _ _ done r.code _ _ (execute-Makes r id held command arguments refl) (
              Makes-bind r id _ _ tt r.code _ _ (release-Makes r id done refl refl) (
                Makes-bind r id _ [] tt r.code _ _ (close-Makes r id free' refl there)
                  (Makes-ret r id r.code))))))).at
      log
