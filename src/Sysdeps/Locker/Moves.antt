-- ===== src/Sysdeps/Locker/Moves.antt =====
-- The calls that sd-locker makes on Windows, in their order, and the exit code it ends with.
use coreland_c_string.Base.{
  Bool, true, false, not, Option, none, some, List, [], ◌∷◌, ◌++◌, Bytes, ℤ, minus_one, ◌==ℤ◌, lit,
  String, signed_decimal,
}
use coreland_c_string.Sysdeps.Locker.{exit_failure}
use coreland_c_string.Sysdeps.Locker.Shell.{shell_prefix, quoted}
use coreland_c_string.Sysdeps.Locker.Windows.{LockApi, Ended, goes, exits, aborts}

-- What a run does to the system.
pub data Event : Type 0 where
  creates_file : Bytes → Event
  locks unlocks closes : ℤ → Event
  allocates : Event
  creates_process : Bytes → Event
  waits_for asks_exit_code : ℤ → Event
  reports : Bytes → Event

-- What the functions of Windows answer in one run.
pub record Replies : Type 0 where
  pub opened : ℤ
  pub locked : Bool
  pub unlocked : Bool
  pub closed : ℤ → Bool
  pub allocated : Bool
  pub started : Bool
  pub process : ℤ
  pub thread : ℤ
  pub asked : Bool
  pub code : ℤ
  pub message : Option Bytes

-- A Windows that answers so, and keeps the events, the last one first.
abbrev pub logging : Replies → LockApi (List Event)
logging r = record {
  create_file = λ file log. (r.opened, creates_file file ∷ log);
  lock_file_ex = λ handle log. (r.locked, locks handle ∷ log);
  unlock_file_ex = λ handle log. (r.unlocked, unlocks handle ∷ log);
  close_handle = λ handle log. (r.closed handle, closes handle ∷ log);
  allocates = λ log. (r.allocated, allocates ∷ log);
  create_process = λ line log. ((r.started, r.process, r.thread), creates_process line ∷ log);
  wait_for_single_object = λ handle log. (tt, waits_for handle ∷ log);
  get_exit_code_process = λ handle log. ((r.asked, r.code), asks_exit_code handle ∷ log);
  format_message = λ log. (r.message, log);
  print_error = λ text log. (tt, reports text ∷ log);
}

-- A call, or a success that the run needs to go on, with the name under which it is reported.
pub data Move : Type 0 where
  calls : Event → Move
  needs : Bool → String → Move

-- The line that is printed for a failure.
abbrev pub error_line : ℤ → String → Bytes → Bytes
error_line id text message =
    lit "sd-locker: "
    ++ (signed_decimal id ++ (lit ": " ++ (lit text ++ (lit " - " ++ (message ++ lit "\n")))))

-- How a failure ends a run: with its report and EXIT_FAILURE, or, where Windows has no message for
-- it, at the assertion on the message.
abbrev pub ends_failed :
    {A : Type 0} → ℤ → String → Option Bytes → List Event → Ended (List Event) A
ends_failed id text none log = aborts
ends_failed id text (some message) log =
    exits exit_failure (reports (error_line id text message) ∷ log)

-- The calls are made in their order, up to the first success that is missing, which ends the run.
unfoldable pub follow :
    {A : Type 0} → Replies → ℤ → List Move → A → List Event → Ended (List Event) A
follow r id [] a log = goes a log
follow r id (calls event ∷ moves) a log = follow r id moves a (event ∷ log)
follow r id (needs true text ∷ moves) a log = follow r id moves a log
follow r id (needs false text ∷ moves) a log = ends_failed id text r.message log

-- The line that the command becomes.
abbrev pub command_line : List Bytes → Bytes
command_line argv = ((shell_prefix ++ quoted argv) ++ (b'"' ∷ [])) ++ (0 ∷ [])

module _ (r : Replies) where
  -- The moves of each part.
  abbrev pub open_moves : Bytes → List Move
  open_moves file =
      calls (creates_file file) ∷ needs (not (r.opened ==ℤ minus_one)) "create_file" ∷ []

  abbrev pub acquire_moves : ℤ → List Move
  acquire_moves handle = calls (locks handle) ∷ needs r.locked "lock_file_ex" ∷ []

  abbrev pub execute_moves : Bytes → List Move
  execute_moves line =
      calls allocates
      ∷ needs r.allocated "malloc"
      ∷ calls (creates_process line)
      ∷ needs r.started "create_process"
      ∷ calls (waits_for r.process)
      ∷ calls (asks_exit_code r.process)
      ∷ needs r.asked "exit_code"
      ∷ calls (closes r.process)
      ∷ needs (r.closed r.process) "close_process"
      ∷ calls (closes r.thread)
      ∷ needs (r.closed r.thread) "close_thread"
      ∷ []

  abbrev pub release_moves : ℤ → List Move
  release_moves handle = calls (unlocks handle) ∷ needs r.unlocked "unlock_file_ex" ∷ []

  abbrev pub close_moves : ℤ → List Move
  close_moves handle = calls (closes handle) ∷ needs (r.closed handle) "close_handle" ∷ []

-- All moves of a run.
abbrev pub run_moves : Replies → Bytes → List Bytes → List Move
run_moves r file argv =
    open_moves r file
    ++ (acquire_moves r r.opened
        ++ (execute_moves r (command_line argv)
            ++ (release_moves r r.opened ++ close_moves r r.opened)))
