-- ===== src/Task/Read/Handover.antt =====
-- From the controller's post to the task's system call.
use kstep.Prelude.{
  length-append, sym, Bool-cases, panic-not_ok, ok-inj, leb, zero, suc, ◌+◌, ◌≤◌, ◌<◌, List, ◌∷◌,
  length, ◌⊎◌, inl, inr, ℕ, [], Bool, true, false, some, ok, ◌≡◌, ◌≢◌, refl, arith, Outcome, panic,
  ◌>>=◌, ◌∙◌, ap,
}
use kstep.Task.Ctrl.{Ctrl, exit, pause, block, chan_read, chan_write, yield, park, code}
use kstep.Task.Queue.{ctrl_queue, Task, ctrl_take, ctrl_put, parked}
use kstep.Task.Queue.Fifo.{
  IsValid, pending, front, rest, take_refines, map_ok, put_refines, enqueue, put-tail, take-IsValid,
  put-IsValid, length-pending,
}
use kstep.Task.Table.{Proc, Table, xa_store, task_find, task_add, task_settled}
use kstep.Task.Table.Records.{load-store, find-add}
use kstep.Task.Read.{Entered, parks, gives, read_act, read_record, ctrl_read, task_ctrl}
use kstep.User.{
  Syscall, exit_call, pause_call, nanosleep_call, pipe_read, pipe_write, sched_yield, perform,
}

-- What is handed over is the code of the action taken, and `task_main` knows it.
act-perform :
    (e : Entered) (a : Ctrl) (t : Task) {c : ℕ} {t' : Task}
    → read_act e a t ≡ ok (gives c, t')
    → (s : Syscall) × (perform c ≡ ok s) × (c ≡ code a) × (t' ≡ t)
unfolding read_act perform code
act-perform e exit t h = (exit_call, ground arith, ground arith, ground arith)
act-perform e pause t h = (pause_call, ground arith, ground arith, ground arith)
act-perform e block t h = (nanosleep_call, ground arith, ground arith, ground arith)
act-perform e chan_read t h = (pipe_read, ground arith, ground arith, ground arith)
act-perform e chan_write t h = (pipe_write, ground arith, ground arith, ground arith)
act-perform e yield t h = (sched_yield, ground arith, ground arith, ground arith)
act-perform e park t h = absurd (ground arith)
act-perform e Ctrl.none t h = absurd (ground arith)

-- A byte that the read hands over is the code of the oldest pending action; the task's loop has a
-- case for it, and the other actions stay pending in their order.
pub read-perform :
    (e : Entered) {t t' : Task} {c : ℕ}
    → IsValid t
    → read_record e t ≡ ok (gives c, t')
    → (s : Syscall) × (perform c ≡ ok s)
      × (c ≡ code (front (pending t)))
      × (pending t' ≡ rest (pending t))
unfolding read_record
read-perform e {t} v h =
    let (s, done, byte, left) = act-perform e (ctrl_take t).0 (ctrl_take t).1 h in
    let (oldest, others) = take_refines v in
    (s, done, byte ∙ ap code oldest, ap pending left ∙ others)

length-enqueued :
    (o : List Ctrl) (a : Ctrl) (t' : Task)
    → ok (pending t') ≡ enqueue o a
    → length (pending t') ≡ length o + 1
length-enqueued o a t' h = elim (Bool-cases (leb ctrl_queue (length o))) [
  | inl full ↦ absurd (panic-not_ok (sym (rw full at h)))
  | inr room ↦ ap length (ok-inj (rw room at h)) ∙ length-append o (a ∷ [])
]

length-put :
    {t t' : Task} (a : Ctrl)
    → IsValid t
    → ctrl_put t a ≡ ok t'
    → length (pending t') ≡ length (pending t) + 1
length-put {t} {t'} a v put = length-enqueued (pending t) a t' (
    let refined : map_ok pending (ctrl_put t a) ≡ enqueue (pending t) a = put_refines a v in
    rw put at refined)

ctrl-put :
    (m : Table) {m' : Table} (q : Proc) (a : Ctrl) (t : Task) {ipi : Bool} (o : Outcome Task)
    → ctrl_put t a ≡ o
    → ◌>>=◌ {B = Bool × Table} o (λ t'. ok (t'.settled, xa_store m q.pid t')) ≡ ok (ipi, m')
    → (t' : Task) × (ctrl_put t a ≡ ok t') × (ipi ≡ t'.settled) × (m' ≡ xa_store m q.pid t')
ctrl-put m q a t (ok t') e h = (t', e, ground arith, ground arith)
ctrl-put m q a t (panic x) e h = cc

find-p : (m : Table) (q : Proc) {t : Task} → task_find m q ≡ some t → t.p ≡ q.addr
unfolding task_find
find-p m q f = ground arith

-- The record after some takes.
abbrev pub taken : ℕ → Task → Task
taken zero t = t
taken (suc k) t = taken k (ctrl_take t).1

take-left :
    {t : Task}
    → IsValid t
    → (length (pending (ctrl_take t).1) + 1 ≡ length (pending t)) ⊎ (pending t ≡ [])
take-left {t} v = rw (take_refines v).1 (left (pending t))
  where
    left : (q : List Ctrl) → (length (rest q) + 1 ≡ length q) ⊎ (q ≡ [])
    left [] = inr refl
    left (a ∷ q) = inl (omega arith)

take-p : (t : Task) → (ctrl_take t).1.p ≡ t.p
unfolding ctrl_take
take-p t = ground arith

taken-waiting :
    (k : ℕ) {t : Task}
    → IsValid t
    → k < length (pending t)
    → ((taken k t).head ≢ (taken k t).tail) × ((taken k t).p ≡ t.p)
taken-waiting zero {t} v h = (ground (arith, h, length-pending t), refl)
taken-waiting (suc k) {t} v h = elim (take-left v) [
  | inl left ↦
      let (waits, p) = taken-waiting k (take-IsValid v) (omega (arith, h, left)) in
      (waits, p ∙ take-p t)
  | inr none_left ↦ absurd (omega (arith, h, ap length none_left))
]

settled-store :
    (signal halted : Bool) (m : Table) (q : Proc) (t : Task)
    → t.p ≡ q.addr
    → t.head ≢ t.tail
    → task_settled signal (xa_store m q.pid (record t { settled = halted })) q ≡ false
unfolding task_settled task_find
settled-store signal halted m q t p ne =
    ground (arith, load-store m q.pid q.pid (record t { settled = halted }))

-- The record that the post leaves.
posted-find :
    (m : Table) (q : Proc) (t : Task) → t.p ≡ q.addr → task_find (xa_store m q.pid t) q ≡ some t
unfolding task_find
posted-find m q t p = ground (arith, load-store m q.pid q.pid t)

-- An action that is queued behind others keeps the task from reading as settled until the task has
-- taken it: after as many takes as there were others, and after fewer, it does not read as settled,
-- halted or not. The IPI goes out when the task was halted.
pub ctrl-not_settled :
    (signal halted : Bool) (k : ℕ) (m : Table) {m' : Table} (q : Proc) (a : Ctrl) {t : Task}
    {ipi : Bool}
    → task_find m q ≡ some t
    → IsValid t
    → k ≤ length (pending t)
    → task_ctrl m q a ≡ ok (ipi, m')
    → (t' : Task) × (task_find m' q ≡ some t')
      × (task_settled signal (xa_store m' q.pid (record (taken k t') { settled = halted })) q
          ≡ false)
      × (ipi ≡ t.settled)
unfolding task_ctrl
ctrl-not_settled signal halted k m q a {t} f v few h =
    let (t', put, ipi, stored) = ctrl-put m q a t (ctrl_put t a) refl (rw f at h) in
    let (waiting, kept, same) = put-tail a v put in
    let at_q = same ∙ find-p m q f in
    let more = length-put a v put in
    let (waits, p) = taken-waiting k (put-IsValid a v put) (omega (arith, few, more)) in
    (
      t',
      rw stored (posted-find m q t' at_q),
      settled-store signal halted _ q (taken k t') (p ∙ at_q) waits,
      ipi ∙ kept,
    )

find-add_self :
    (m : Table) {m' : Table} (q : Proc)
    → task_add true true m q ≡ ok m'
    → task_find m' q ≡ some (parked q.addr)
find-add_self m q h = find-add m q q h ∙ ground arith

parked-taken :
    (m : Table) (q : Proc)
    → let read : Task = record (parked q.addr) { head = 1 } in
      (task_find (xa_store m q.pid read) q ≡ some read) × (pending read ≡ [])
unfolding task_find
parked-taken m q =
    (ground (arith, load-store m q.pid q.pid (record (parked q.addr) { head = 1 })), refl)

-- A task that is recorded parks on its first read, whatever the scheduler wants of it, and its
-- record has no action left afterwards.
pub add-read-parks :
    (e : Entered) (m : Table) {m' : Table} (q : Proc)
    → task_add true true m q ≡ ok m'
    → (m'' : Table) × (t : Task) × (ctrl_read e m' q ≡ ok (parks, m''))
      × (task_find m'' q ≡ some t)
      × (pending t ≡ [])
unfolding ctrl_read read_record read_act ctrl_take
add-read-parks e m {m'} q h =
    let read : Task = record (parked q.addr) { head = 1 } in
    let (found, empty) = parked-taken m' q in
    (xa_store m' q.pid read, read, rw (find-add_self m q h, ctrl_read), found, empty)
