-- ===== src/Task/Table/Records.antt =====
-- Each task finds its own record, and a settled task has nothing left to do.
use kstep.Prelude.{
  ℕ, Bool, true, false, [], ◌∷◌, none, some, ok, ◌≡◌, refl, arith, ◌==◌, if◌then◌else◌,
}
use kstep.Task.Queue.{Task, parked, put-zeroed}
use kstep.Task.Table.{Proc, Table, xa_load, xa_store, task_find, task_add, task_settled}

pub load-store :
    (m : Table) (k j : ℕ) (t : Task)
    → xa_load (xa_store m k t) j ≡ (if k == j then some t else xa_load m j)
unfolding xa_load xa_store
load-store [] k j t = refl
load-store ((i, u) ∷ m) k j t = ground (arith, load-store m k j t)

-- After a task is recorded, a task with its pid finds the record exactly if it is that same task,
-- with PARK as its one pending action; every other pid finds what it found before.
pub find-add :
    (m : Table) {m' : Table} (p q : Proc)
    → task_add true true m p ≡ ok m'
    → task_find m' q ≡ (
        if p.pid == q.pid
        then (if p.addr == q.addr then some (parked p.addr) else none)
        else task_find m q)
unfolding task_add task_find
find-add m p q h = ground (arith, put-zeroed p.addr, load-store m p.pid q.pid (parked p.addr))

-- A task that reads as settled has its record, halts in the control file's read, has no action
-- pending and no signal pending.
pub settled-pending :
    (signal : Bool) (m : Table) (q : Proc)
    → task_settled signal m q ≡ true
    → (t : Task) × (task_find m q ≡ some t)
      × (t.settled ≡ true)
      × (t.head ≡ t.tail)
      × (signal ≡ false)
unfolding task_settled
settled-pending signal m q h = ground arith
