-- ===== src/Check/Wakeup.antt =====
-- kmod/checkers/sync_wakeup.c: the wakeups of a step that were owed the waker's CPU, and the verdict
-- once the step has settled.
pub mod Verdict
use Prim.Native.Nat.{min}
use kstep.Prelude.{
  set, take, ℕ, zero, suc, ◌+◌, ◌-◌, ◌^◌, ◌%◌, Bool, true, false, not, ◌&&◌, ◌||◌, List, [], ◌∷◌,
  ◌++◌, Option, none, some, length, ltb, leb, ◌==◌, if◌then◌else◌,
}

-- KSTEP_WAKEUPS
abbrev pub wakeups : ℕ
wakeups = 16

-- What `on_select` reads of a placement; `sync` is WF_SYNC, `allowed` that the wakee may run on the
-- waker's CPU, and `delayed` is 0 before 6.14.
pub record Placement : Type 0 where
  pub p : ℕ
  pub jiffies : ℕ
  pub sync : Bool
  pub this_cpu : ℕ
  pub allowed : Bool
  pub nr_running : ℕ
  pub delayed : ℕ

-- What stands in memory from the array `pending` on, of which the first 16 places are the array, and
-- the counter, which goes on counting behind the array.
pub record Pending : Type 0 where
  pub pending : ℕ → ℕ × ℕ
  pub npending : ℕ

-- A write of one place.
abbrev pub placed : ℕ → ℕ × ℕ → (ℕ → ℕ × ℕ) → ℕ → ℕ × ℕ
placed i e pending j = if j == i then e else pending j

-- The first n places.
abbrev pub entries : ℕ → (ℕ → ℕ × ℕ) → List (ℕ × ℕ)
entries zero pending = []
entries (suc n) pending = entries n pending ++ (pending n ∷ [])

-- `unsigned int` subtraction in the last guard.
unfoldable pub owed_wakeup : Placement → Bool
owed_wakeup x =
    if x.jiffies == 0
    then false
    else if not x.sync || x.this_cpu == 0 || not x.allowed
    then false
    else (x.nr_running + 2 ^ 32 - x.delayed) % 2 ^ 32 == 1

unfoldable pub on_select : Placement → Pending → Pending
on_select x w =
    if owed_wakeup x
    then record {
      pending =
          if ltb w.npending wakeups
          then placed w.npending (x.p, x.this_cpu) w.pending
          else w.pending;
      npending = w.npending + 1;
    }
    else w

-- The verdicts on the entries: the tasks, the CPUs that they were owed, and where they are.
unfoldable pub verdicts : (ℕ → ℕ) → List (ℕ × ℕ) → List (ℕ × ℕ × ℕ)
verdicts task_cpu [] = []
verdicts task_cpu ((p, waker_cpu) ∷ es) =
    let rest = verdicts task_cpu es in
    if task_cpu p == waker_cpu then rest else (p, waker_cpu, task_cpu p) ∷ rest

unfoldable pub on_settle : (ℕ → ℕ) → Pending → List (ℕ × ℕ × ℕ) × Pending
on_settle task_cpu w =
    let n = min w.npending wakeups in
    (verdicts task_cpu (entries n w.pending), record w { npending = 0 })

-- A step: its placements in their order, and its settle.
unfoldable pub select_all : List Placement → Pending → Pending
select_all [] w = w
select_all (x ∷ xs) w = select_all xs (on_select x w)
