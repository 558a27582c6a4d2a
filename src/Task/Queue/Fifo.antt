-- ===== src/Task/Queue/Fifo.antt =====
-- The ring of `struct kstep_task` is a queue of at most eight actions, oldest first, however often
-- its counters have wrapped.
use kstep.Prelude.{
  ℕ, ◌%◌, ◌≤◌, ◌<◌, ◌^◌, ◌≡◌, ◌≢◌, refl, ◌∙◌, List, [], ◌∷◌, ◌++◌, arith, Outcome, ok, panic,
  queue_full, length, length-set, leb, if◌then◌else◌, ◌>>=◌,
}
use kstep.Prelude.Ring.{
  count, entries, length-entries, entries_of_ne, entries-put, eight_FitsCounter,
}
use kstep.Task.Ctrl.{Ctrl}
use kstep.Task.Queue.{Task, ctrl_queue, ctrl_take, ctrl_put, zeroed}

pub record IsValid (t : Task) : Type 0 where
  pub slots : length t.queue ≡ ctrl_queue
  pub head_lt : t.head < 2 ^ 32
  pub tail_lt : t.tail < 2 ^ 32
  pub fits : count t.head t.tail ≤ ctrl_queue

-- The actions asked for and not yet taken, oldest first.
abbrev pub pending : Task → List Ctrl
pending t = entries ctrl_queue Ctrl.none t.queue t.head (count t.head t.tail)

pub length-pending : (t : Task) → length (pending t) ≡ count t.head t.tail
length-pending t = length-entries ctrl_queue Ctrl.none t.queue t.head (count t.head t.tail)

-- The abstract queue.
abbrev pub front : List Ctrl → Ctrl
front [] = Ctrl.none
front (a ∷ q) = a

abbrev pub rest : List Ctrl → List Ctrl
rest [] = []
rest (a ∷ q) = q

abbrev pub enqueue : List Ctrl → Ctrl → Outcome (List Ctrl)
enqueue q a = if leb ctrl_queue (length q) then panic queue_full else ok (q ++ (a ∷ []))

abbrev pub map_ok : {A B : Type 0} → (A → B) → Outcome A → Outcome B
map_ok f m = m >>= λ a. ok (f a)

pub zeroed-IsValid : (p : ℕ) → IsValid (zeroed p)
zeroed-IsValid p = omega arith

pub take-IsValid : {t : Task} → IsValid t → IsValid (ctrl_take t).1
unfolding ctrl_take
take-IsValid v = ground arith

pub put-IsValid : {t t' : Task} (a : Ctrl) → IsValid t → ctrl_put t a ≡ ok t' → IsValid t'
unfolding ctrl_put
put-IsValid {t} a v h = ground (arith, length-set t.queue (t.tail % ctrl_queue) a)

pub put-tail :
    {t t' : Task} (a : Ctrl)
    → IsValid t
    → ctrl_put t a ≡ ok t'
    → (t'.head ≢ t'.tail) × (t'.settled ≡ t.settled) × (t'.p ≡ t.p)
unfolding ctrl_put
put-tail a v h = ground arith

-- `kstep_ctrl_take` returns the oldest action, or NONE from an empty queue, and leaves the others.
pub take_refines :
    {t : Task}
    → IsValid t
    → ((ctrl_take t).0 ≡ front (pending t)) × (pending (ctrl_take t).1 ≡ rest (pending t))
unfolding ctrl_take
take_refines {t} v =
    ground (arith, entries_of_ne ctrl_queue Ctrl.none t.queue t.head t.tail v.head_lt v.tail_lt)

-- `kstep_ctrl_put` adds the action behind the others, and panics exactly when eight are waiting.
pub put_refines :
    {t : Task} (a : Ctrl) → IsValid t → map_ok pending (ctrl_put t a) ≡ enqueue (pending t) a
unfolding ctrl_put
put_refines {t} a v = ground (
  arith,
  length-pending t,
  entries-put ctrl_queue Ctrl.none t.queue t.head t.tail a eight_FitsCounter,
)

-- What the two ends do, in the order in which it happens.
pub data Op : Type 0 where
  post : Ctrl → Op
  take : Op

-- What the takes of a sequence returned, with the queue that is left.
unfoldable pub run : Task → List Op → Outcome (List Ctrl × Task)
run t [] = ok ([], t)
run t (post a ∷ ops) = do t' ← ctrl_put t a; run t' ops
run t (take ∷ ops) = do (taken, t') ← run (ctrl_take t).1 ops; ok ((ctrl_take t).0 ∷ taken, t')

pub run_fifo : List Ctrl → List Op → Outcome (List Ctrl × List Ctrl)
run_fifo q [] = ok ([], q)
run_fifo q (post a ∷ ops) = do q' ← enqueue q a; run_fifo q' ops
run_fifo q (take ∷ ops) = do (taken, q') ← run_fifo (rest q) ops; ok (front q ∷ taken, q')

abbrev pub view : List Ctrl × Task → List Ctrl × List Ctrl
view r = (r.0, pending r.1)

run_take :
    (a : Ctrl) (m : Outcome (List Ctrl × Task))
    → map_ok view (m >>= λ r. ok (a ∷ r.0, r.1)) ≡ (map_ok view m >>= λ r. ok (a ∷ r.0, r.1))
run_take a (ok r) = refl
run_take a (panic e) = refl

run_post :
    (ops : List Op) (m : Outcome Task)
    → ((t' : Task) → m ≡ ok t' → map_ok view (run t' ops) ≡ run_fifo (pending t') ops)
    → map_ok view (m >>= λ t'. run t' ops) ≡ (map_ok pending m >>= λ q. run_fifo q ops)
run_post ops (ok t') ih = ih t' refl
run_post ops (panic e) ih = refl

-- Any interleaving of posts and takes on a valid record gives what a bounded FIFO gives from the
-- pending actions: the same actions taken, the same actions left, and a panic in the same cases.
pub run_refines :
    (ops : List Op) {t : Task} → IsValid t → map_ok view (run t ops) ≡ run_fifo (pending t) ops
unfolding run run_fifo
run_refines [] v = refl
run_refines (post a ∷ ops) {t} v =
    rw (← put_refines a v) (run_post ops (ctrl_put t a) λ t' e. run_refines ops (put-IsValid a v e))
run_refines (take ∷ ops) {t} v =
    run_take (ctrl_take t).0 (run (ctrl_take t).1 ops)
    ∙ rw (run_refines ops (take-IsValid v), (take_refines v).0, (take_refines v).1)
