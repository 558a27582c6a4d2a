-- ===== src/Cli.antt =====
-- The command line driver of kmod/cli.c: its state, and what it calls of the rest of the module and
-- of the kernel. `K` is the state of those; a reply is the fields that a command adds to it.
pub mod Args
pub mod Commands
pub mod Create
pub mod Execute
pub mod Reports
mod Tests
use kstep.Prelude.{
  ℕ, ◌+◌, ◌^◌, Bool, true, false, List, [], ◌∷◌, ◌++◌, Option, none, some, ltb, leb, ◌==◌, ◌||◌,
  if◌then◌else◌, Outcome,
}
use kstep.Prelude.Int.{ℤ, pos, negsuc, pos_part, neg_part, ltb_ℤ}
use kstep.Text.{Bytes, lit}
use kstep.Io.Json.{Field, text, string}

-- KSTEP_SHM_TASKS, the size of `tasks`
abbrev pub shm_tasks : ℕ
shm_tasks = 64

pub data FairPolicy : Type 0 where
  normal batch idle : FairPolicy

pub data RtPolicy : Type 0 where
  fifo rr : RtPolicy

-- The functions of `task_verbs`.
pub data TaskVerb : Type 0 where
  pause block wake kill chan_read chan_write freeze thaw yield : TaskVerb

-- A `task_struct` is its address. An `int` that a call returns is 0 or an error; `kstep_topo_set`
-- returns NULL or a message; `cgroup_busy` is `none` where there is no such cgroup. Ticks, the verbs
-- of a task, a topology spec and destroying a cgroup may panic; of the other calls, those that return
-- are modelled.
pub record Kernel (K : Type 0) : Type 0 where
  pub kstrtoint : Bytes → Option ℤ
  pub decimal : ℕ → Bytes
  pub exited : ℕ → K → Bool
  pub task_nice : ℕ → K → ℤ
  pub test_ncpus : K → ℕ
  pub tick_repeat : ℕ → K → Outcome K
  pub task_create : K → ℕ × K
  pub task_exit : ℕ → K → K
  pub task_wakeup : ℕ → K → K
  pub set_affinity : ℕ → Option Bytes → K → ℤ × K
  pub set_fair : ℕ → FairPolicy → ℤ → K → K
  pub set_rt : ℕ → RtPolicy → ℕ → K → K
  pub act : TaskVerb → ℕ → K → Outcome K
  pub cgroup_exists : Bytes → K → Bool
  pub cgroup_create : Bytes → K → ℤ × K
  pub cgroup_move_task : Bytes → ℕ → K → ℤ × K
  pub cgroup_set_weight : Bytes → ℕ → K → ℤ × K
  pub parse_cpus : Bytes → K → Bool
  pub cgroup_set_cpuset : Bytes → Bytes → K → ℤ × K
  pub cgroup_busy : Bytes → K → Option Bool
  pub cgroup_destroy : Bytes → K → Outcome K
  pub check_enable : Bytes → K → ℤ × K
  pub freq_set : ℕ → ℕ → K → K
  pub topo_set : Bytes → K → Outcome (Option Bytes × K)
  pub settle : K → K
  pub shm_update : List ℕ → K → K

-- `tasks[0..ntasks)`, the reply, and everything outside the driver.
pub record Cli (K : Type 0) : Type 0 where
  pub tasks : List ℕ
  pub reply : List Field
  pub kernel : K

module _ {K : Type 0} where
  abbrev pub reply_error : Bytes → Cli K → Cli K
  reply_error msg w = record w { reply = w.reply ++ (string (lit "error") msg ∷ []) }

-- EOPNOTSUPP and EBUSY, negated
abbrev pub is_busy : ℤ → Bool
is_busy (pos n) = false
is_busy (negsuc n) = n == 94 || n == 15

abbrev pub is_zero : ℤ → Bool
is_zero (pos n) = n == 0
is_zero (negsuc n) = false

-- `-err`, printed
abbrev minus : ℤ → ℕ
minus err = neg_part err

module _ {K : Type 0} (k : Kernel K) where
  abbrev pub reply_errno : ℤ → Cli K → Cli K
  reply_errno err w =
      if is_zero err
      then w
      else if is_busy err
      then reply_error (lit "cgroup cannot hold both tasks and controlled children") w
      else reply_error (lit "failed (errno " ++ (k.decimal (minus err) ++ lit ")")) w
