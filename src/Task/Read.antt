-- ===== src/Task/Read.antt =====
-- The control file's read and the controller's end of it: `kstep_ctrl_read` and `kstep_task_ctrl`
-- of kmod/task.c with the verbs that call it.
pub mod Handover
use kstep.Prelude.{
  ℕ, Bool, true, false, not, ◌&&◌, ◌||◌, Option, none, some, Outcome, ok, panic, no_record,
  no_buffer, ◌>>=◌, ◌==◌, if◌then◌else◌,
}
use kstep.Task.Ctrl.{Ctrl, exit, pause, block, chan_read, chan_write, yield, park, code}
use kstep.Task.Queue.{Task, ctrl_take, ctrl_put}
use kstep.Task.Table.{Proc, Table, xa_store, task_find}

-- How a read goes on: the task sleeps in it until its first wakeup, returns one byte, halts with
-- `settled` set, or returns nothing at once.
pub data Read : Type 0 where
  parks : Read
  gives : ℕ → Read
  halts : Read
  returns : Read

-- What the read finds when it is entered.
pub record Entered : Type 0 where
  pub len : ℕ
  pub copied : Bool
  pub need_resched : Bool
  pub signal_pending : Bool

-- After the action is taken: `copied` says that `copy_to_user` returned 0.
unfoldable pub read_act : Entered → Ctrl → Task → Outcome (Read × Task)
read_act e park t = ok (parks, t)
read_act e Ctrl.none t =
    if not e.need_resched && not e.signal_pending
    then ok (halts, record t { settled = true })
    else ok (returns, t)
read_act e act t = if e.len == 0 || not e.copied then panic no_buffer else ok (gives (code act), t)

unfoldable pub read_record : Entered → Task → Outcome (Read × Task)
unfolding read_act
read_record e t = read_act e (ctrl_take t).0 (ctrl_take t).1

read_found : Entered → Table → Proc → Option Task → Outcome (Read × Table)
read_found e m q none = panic no_record
read_found e m q (some t) = do (r, t') ← read_record e t; ok (r, xa_store m q.pid t')

-- Up to the halt, or to the end where the read does not halt.
unfoldable pub ctrl_read : Entered → Table → Proc → Outcome (Read × Table)
unfolding read_found
ctrl_read e m q = read_found e m q (task_find m q)

-- The interrupt that ends the halt; the read then returns 0.
pub wake : Task → Task
wake t = record t { settled = false }

ctrl_found : Table → Proc → Ctrl → Option Task → Outcome (Bool × Table)
ctrl_found m q act none = panic no_record
ctrl_found m q act (some t) = do t' ← ctrl_put t act; ok (t'.settled, xa_store m q.pid t')

-- Queue an action; the flag says that the halted task's CPU is sent the IPI.
unfoldable pub task_ctrl : Table → Proc → Ctrl → Outcome (Bool × Table)
unfolding ctrl_found
task_ctrl m q act = ctrl_found m q act (task_find m q)

-- The verbs that are an action.
pub task_pause : Table → Proc → Outcome (Bool × Table)
task_pause m q = task_ctrl m q pause

pub task_exit : Table → Proc → Outcome (Bool × Table)
task_exit m q = task_ctrl m q exit

pub task_yield : Table → Proc → Outcome (Bool × Table)
task_yield m q = task_ctrl m q yield

pub task_chan_read : Table → Proc → Outcome (Bool × Table)
task_chan_read m q = task_ctrl m q chan_read

pub task_chan_write : Table → Proc → Outcome (Bool × Table)
task_chan_write m q = task_ctrl m q chan_write

pub task_block : Table → Proc → Outcome (Bool × Table)
task_block m q = task_ctrl m q block
