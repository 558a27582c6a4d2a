-- ===== src/Task/Queue.antt =====
-- The action queue of a task's record: `struct kstep_task`, `kstep_ctrl_take` and `kstep_ctrl_put`
-- of kmod/task.c. The two counters are `u32` and run free.
pub mod Fifo
use kstep.Prelude.{
  ℕ, ◌%◌, Bool, false, List, Outcome, ok, panic, queue_full, get_or, set, replicate, ◌==◌, leb,
  if◌then◌else◌, ◌≡◌, refl,
}
use kstep.Prelude.Ring.{add_u32, sub_u32}
use kstep.Task.Ctrl.{Ctrl, park}

-- KSTEP_CTRL_QUEUE
abbrev pub ctrl_queue : ℕ
ctrl_queue = 8

-- `p` is the address of the `task_struct`.
pub record Task : Type 0 where
  pub p : ℕ
  pub settled : Bool
  pub queue : List Ctrl
  pub head : ℕ
  pub tail : ℕ

-- Reading a slot out of range is ruled out by `Fifo.IsValid`.
unfoldable pub ctrl_take : Task → Ctrl × Task
ctrl_take t =
    if t.head == t.tail
    then (Ctrl.none, t)
    else (get_or t.queue (t.head % ctrl_queue) Ctrl.none, record t { head = add_u32 t.head 1 })

unfoldable pub ctrl_put : Task → Ctrl → Outcome Task
ctrl_put t act =
    if leb ctrl_queue (sub_u32 t.tail t.head)
    then panic queue_full
    else ok (record t { queue = set t.queue (t.tail % ctrl_queue) act; tail = add_u32 t.tail 1 })

-- What `kzalloc` returns, with `p` filled in: every slot is 0, which is KSTEP_CTRL_NONE.
abbrev pub zeroed : ℕ → Task
zeroed p = record {
  p = p;
  settled = false;
  queue = replicate ctrl_queue Ctrl.none;
  head = 0;
  tail = 0;
}

-- The record of a new task: PARK is asked for, and nothing else.
abbrev pub parked : ℕ → Task
parked p = record (zeroed p) { queue = set (zeroed p).queue 0 park; tail = 1 }

pub put-zeroed : (p : ℕ) → ctrl_put (zeroed p) park ≡ ok (parked p)
unfolding ctrl_put
put-zeroed p = refl
