-- ===== src/Task/Table.antt =====
-- The records of the tasks that use the control file, keyed by pid: `kstep_tasks`,
-- `kstep_task_find`, `kstep_task_add` and `kstep_task_settled` of kmod/task.c.
pub mod Records
use kstep.Prelude.{
  ℕ, Bool, true, false, not, ◌&&◌, List, [], ◌∷◌, Option, none, some, Outcome, ok, panic, no_record,
  ◌>>=◌, ◌==◌, if◌then◌else◌,
}
use kstep.Task.Ctrl.{park}
use kstep.Task.Queue.{Task, zeroed, ctrl_put}

-- What the records need of a `task_struct`: where it stands, and its pid.
pub record Proc : Type 0 where
  pub addr : ℕ
  pub pid : ℕ

abbrev pub Table : Type 0
Table = List (ℕ × Task)

-- `xa_load` and `xa_store`
unfoldable pub xa_load : Table → ℕ → Option Task
xa_load [] k = none
xa_load ((j, t) ∷ m) k = if j == k then some t else xa_load m k

unfoldable pub xa_store : Table → ℕ → Task → Table
xa_store [] k t = (k, t) ∷ []
xa_store ((j, u) ∷ m) k t = if j == k then (k, t) ∷ m else (j, u) ∷ xa_store m k t

same_task : Proc → Option Task → Option Task
same_task q none = none
same_task q (some t) = if t.p == q.addr then some t else none

unfoldable pub task_find : Table → Proc → Option Task
unfolding same_task
task_find m q = same_task q (xa_load m q.pid)

-- The two flags say whether `kzalloc` and `xa_store` found memory.
unfoldable pub task_add : Bool → Bool → Table → Proc → Outcome Table
task_add allocated stored m q =
    if allocated
    then (do
      t ← ctrl_put (zeroed q.addr) park
      if stored then ok (xa_store m q.pid t) else panic no_record)
    else panic no_record

settled_in : Bool → Option Task → Bool
settled_in signal_pending none = false
settled_in signal_pending (some t) = t.settled && t.head == t.tail && not signal_pending

unfoldable pub task_settled : Bool → Table → Proc → Bool
unfolding settled_in
task_settled signal_pending m q = settled_in signal_pending (task_find m q)
