-- ===== src/User.antt =====
-- `task_main` of user/user.c: a task performs what a read of the control file gives it.
use kstep.Prelude.{ℕ, Outcome, ok, panic, unknown_action, ◌==◌, if◌then◌else◌}

pub data Syscall : Type 0 where
  exit_call pause_call nanosleep_call pipe_read pipe_write sched_yield : Syscall

-- The `switch` of the loop, on the byte read.
unfoldable pub perform : ℕ → Outcome Syscall
perform c =
    if c == 1
    then ok exit_call
    else if c == 2
    then ok pause_call
    else if c == 3
    then ok nanosleep_call
    else if c == 4
    then ok pipe_read
    else if c == 5
    then ok pipe_write
    else if c == 6
    then ok sched_yield
    else panic unknown_action
