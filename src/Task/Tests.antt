-- ===== src/Task/Tests.antt =====
-- The record of kmod/task.c at runs whose counters wrap.
use kstep.Prelude.{true, false, [], ◌∷◌, some, ok, panic, queue_full, ◌≡◌, refl, arith, List}
use kstep.Task.Ctrl.{Ctrl, exit, pause, block, yield, code}
use kstep.Task.Queue.{Task, ctrl_take, ctrl_put, parked}
use kstep.Task.Queue.Fifo.{
  IsValid, pending, map_ok, Op, post, take, run, run_fifo, view, run_refines,
}
use kstep.Task.Table.{Proc, Table, xa_load, xa_store, task_find, task_add, task_settled}
use kstep.Task.Read.{Entered, gives, read_act, read_record, task_ctrl}
use kstep.Task.Read.Handover.{taken, read-perform, ctrl-not_settled}
use kstep.User.{Syscall, perform}

-- A yield in the last slot before the counters wrap, and a pause in the first one behind it.
abbrev wrapped : Task
wrapped = record {
  p = 100;
  settled = true;
  queue = pause ∷ exit ∷ exit ∷ exit ∷ exit ∷ exit ∷ exit ∷ yield ∷ [];
  head = 4294967295;
  tail = 1;
}

abbrev first : Proc
first = record { addr = 100; pid = 7 }

abbrev other : Proc
other = record { addr = 200; pid = 9 }

abbrev table : Table
table = (7, wrapped) ∷ []

abbrev entered : Entered
entered = record { len = 1; copied = true; need_resched = true; signal_pending = false }

wrapped-IsValid : IsValid wrapped
wrapped-IsValid = omega arith

abbrev script : List Op
script = post block ∷ take ∷ take ∷ take ∷ take ∷ []

run-wrapped : map_ok view (run wrapped script) ≡ ok (yield ∷ pause ∷ block ∷ Ctrl.none ∷ [], [])
unfolding run ctrl_put ctrl_take
run-wrapped = refl

-- The ninth action stops the machine.
run-full :
    run (parked 1) (
      post yield
      ∷ post yield
      ∷ post yield
      ∷ post yield
      ∷ post yield
      ∷ post yield
      ∷ post yield
      ∷ post yield
      ∷ [])
    ≡ panic queue_full
unfolding run ctrl_put
run-full = refl

run_refines_example : map_ok view (run wrapped script) ≡ run_fifo (yield ∷ pause ∷ []) script
run_refines_example = run_refines script wrapped-IsValid

abbrev with_other : Table
with_other = (7, wrapped) ∷ (9, parked 200) ∷ []

add-table : task_add true true table other ≡ ok with_other
unfolding task_add ctrl_put xa_store
add-table = refl

abbrev halted : Task
halted = record wrapped { head = 1 }

halted-settled : task_settled false ((7, halted) ∷ []) first ≡ true
unfolding task_settled task_find xa_load
halted-settled = refl

wrapped-read : read_record entered wrapped ≡ ok (gives 6, record wrapped { head = 0 })
unfolding read_record read_act ctrl_take code
wrapped-read = refl

read-perform_example :
    (s : Syscall) × (perform 6 ≡ ok s)
    × (6 ≡ code yield)
    × (pending (record wrapped { head = 0 }) ≡ pause ∷ [])
read-perform_example = read-perform entered wrapped-IsValid wrapped-read

find-wrapped : task_find table first ≡ some wrapped
unfolding task_find xa_load
find-wrapped = refl

abbrev asked : Task
asked = record wrapped {
  queue = pause ∷ block ∷ exit ∷ exit ∷ exit ∷ exit ∷ exit ∷ yield ∷ [];
  tail = 2;
}

ctrl-wrapped : task_ctrl table first block ≡ ok (true, (7, asked) ∷ [])
unfolding task_ctrl task_find ctrl_put xa_load xa_store
ctrl-wrapped = refl

ctrl-not_settled_example :
    (t' : kstep.Task.Queue.Task) × (task_find ((7, asked) ∷ []) first ≡ some t')
    × (task_settled false
          (xa_store ((7, asked) ∷ []) 7 (record (taken 2 t') { settled = true }))
          first
        ≡ false)
    × (true ≡ true)
ctrl-not_settled_example =
    ctrl-not_settled false true 2 table first block find-wrapped wrapped-IsValid (omega arith)
      ctrl-wrapped
