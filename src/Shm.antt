-- ===== src/Shm.antt =====
-- The records of the shared region: kmod/shm.h. A number of an unsigned type is a natural number;
-- an `s64` or `s32` is its bit pattern, below 2 ^ 64 or 2 ^ 32.
pub mod Entities
pub mod Cgroups
pub mod Domains
pub mod Update
mod Tests
use kstep.Prelude.{ℕ, zero, suc, ◌+◌, ◌*◌, ◌%◌, ◌^◌, Bool, List, [], ◌∷◌, ◌++◌}
use kstep.Text.{Bytes}

abbrev pub layout : ℕ
layout = 14

abbrev pub eevdf : ℕ
eevdf = 1

abbrev pub cpus_max : ℕ
cpus_max = 32

abbrev pub tasks_max : ℕ
tasks_max = 64

abbrev pub cgroups_max : ℕ
cgroups_max = 16

abbrev pub entities_max : ℕ
entities_max = tasks_max + cgroups_max * cpus_max

abbrev pub domains_max : ℕ
domains_max = cpus_max * 5

abbrev pub groups_max : ℕ
groups_max = 1024

abbrev pub sd_flags_max : ℕ
sd_flags_max = 32

abbrev pub sd_flag_len : ℕ
sd_flag_len = 24

-- What a `u32` keeps of a longer number.
abbrev pub u32 : ℕ → ℕ
u32 n = n % 2 ^ 32

pub record Hdr : Type 0 where
  pub layout : ℕ
  pub features : ℕ
  pub timestamp : ℕ
  pub ncpus : ℕ
  pub ntasks : ℕ
  pub ncgroups : ℕ
  pub ndomains : ℕ
  pub ngroups : ℕ
  pub nentities : ℕ
  pub nrt_entities : ℕ

pub record ShmCpu : Type 0 where
  pub nr_running : ℕ
  pub nr_switches : ℕ
  pub cpu : ℕ
  pub curr : ℕ
  pub idle : Bool
  pub capacity : ℕ
  pub freq : ℕ
  pub next_balance_in : ℕ

pub data TaskState : Type 0 where
  running runnable sleeping blocked : TaskState

abbrev pub se_eligible : ℕ
se_eligible = 1

abbrev pub se_delayed : ℕ
se_delayed = 2

abbrev pub se_on_rq : ℕ
se_on_rq = 4

abbrev pub se_curr : ℕ
se_curr = 8

abbrev pub se_pick : ℕ
se_pick = 16

pub record ShmSe : Type 0 where
  pub weight : ℕ
  pub sum_exec_runtime : ℕ
  pub vruntime : ℕ
  pub deadline : ℕ
  pub slice : ℕ
  pub lag : ℕ
  pub flags : ℕ

pub record ShmTask : Type 0 where
  pub cpus : ℕ
  pub sum_exec_runtime : ℕ
  pub task : ℕ
  pub state : TaskState
  pub cpu : ℕ
  pub policy : ℕ
  pub nice : ℕ
  pub rt_priority : ℕ
  pub cgroup : ℕ

pub record ShmCgroup : Type 0 where
  pub cpus : ℕ
  pub weight : ℕ
  pub path : Bytes

pub record ShmCfs : Type 0 where
  pub util_avg : ℕ
  pub load_avg : ℕ
  pub runnable_avg : ℕ
  pub h_nr_runnable : ℕ
  pub cpu : ℕ

pub record ShmEntity : Type 0 where
  pub se : ShmSe
  pub task : ℕ
  pub cgroup : ℕ
  pub cpu : ℕ

pub record ShmRt : Type 0 where
  pub rt_time : ℕ
  pub rt_runtime : ℕ
  pub cpu : ℕ
  pub nr_running : ℕ
  pub highest_prio : ℕ
  pub throttled : Bool

abbrev pub rt_on_rq : ℕ
rt_on_rq = 1

abbrev pub rt_curr : ℕ
rt_curr = 2

abbrev pub rt_pick : ℕ
rt_pick = 4

pub record ShmRtEntity : Type 0 where
  pub task : ℕ
  pub cpu : ℕ
  pub flags : ℕ
  pub position : ℕ
  pub time_slice : ℕ

pub record ShmDomain : Type 0 where
  pub span : ℕ
  pub flags : ℕ
  pub cpu : ℕ
  pub group : ℕ
  pub ngroups : ℕ
  pub imbalance_pct : ℕ
  pub balance_interval : ℕ
  pub busy_factor : ℕ
  pub cache_nice_tries : ℕ
  pub nr_balance_failed : ℕ
  pub next_balance_in : ℕ
  pub balancer : ℕ
  pub name : Bytes

pub record ShmGroup : Type 0 where
  pub span : ℕ
  pub capacity : ℕ
  pub min_capacity : ℕ
  pub max_capacity : ℕ
  pub weight : ℕ

-- The region. Each table is a list of all its slots, those past the count included.
pub record Shm : Type 0 where
  pub hdr : Hdr
  pub sd_flag : List Bytes
  pub cpu : List ShmCpu
  pub task : List ShmTask
  pub cgroup : List ShmCgroup
  pub domain : List ShmDomain
  pub group : List ShmGroup
  pub cfs : List ShmCfs
  pub entity : List ShmEntity
  pub rt : List ShmRt
  pub rt_entity : List ShmRtEntity

module _ {ℓ} {A : Type ℓ} where
  -- The records `new` written from the first slot of a table on. A write past the last slot makes
  -- the list longer than the table.
  abbrev pub overwrite : List A → List A → List A
  overwrite [] old = old
  overwrite (x ∷ new) [] = x ∷ overwrite new []
  overwrite (x ∷ new) (y ∷ old) = x ∷ overwrite new old
