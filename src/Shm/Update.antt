-- ===== src/Shm/Update.antt =====
-- The region after a command: `kstep_shm_update` of kmod/shm.c, and `kstep_shm_init`.
pub mod Tables
pub mod Classes
use Prim.Native.Nat.{bit_and, bit_or}
use kstep.Prelude.{
  ℕ, zero, suc, ◌+◌, ◌-◌, ◌%◌, ◌^◌, Bool, true, false, not, ◌&&◌, ◌||◌, List, [], ◌∷◌, ◌++◌, length,
  map, Option, none, some, ltb, leb, ◌==◌, if◌then◌else◌,
}
use kstep.Text.{Bytes, equal, strscpy}
use kstep.Shm.{
  layout, eevdf, tasks_max, entities_max, sd_flags_max, sd_flag_len, u32, Hdr, ShmCpu, TaskState,
  running, runnable, sleeping, blocked, ShmTask, ShmCgroup, ShmCfs, ShmEntity, ShmRt, ShmRtEntity,
  Shm, overwrite,
}
use kstep.Shm.Entities.{SchedEntity, shm_se, RtTask, Rq, shm_rt_pick, shm_rt_entity}
use kstep.Shm.Cgroups.{Cgroup, shm_collect_cgroups}
use kstep.Shm.Domains.{Machine, wait_until, shm_collect_domains}

-- What is read of a `struct task_struct`; `allowed` is the first word of its mask, and `path` what
-- `cgroup_path` gives for its cgroup.
pub record Proc : Type 0 where
  pub addr : ℕ
  pub exited : Bool
  pub on_cpu : Bool
  pub state : ℕ
  pub cpu : ℕ
  pub policy : ℕ
  pub nice : ℕ
  pub rt_priority : ℕ
  pub allowed : ℕ
  pub se : SchedEntity
  pub rt : RtTask
  pub path : Option Bytes

-- The rest of what is read, with the kernel's tests of a policy.
pub record Sched : Type 0 where
  pub machine : Machine
  pub tree : Option (List Cgroup)
  pub cpu_capacity : ℕ → ℕ
  pub freq : ℕ → ℕ
  pub kstep_jiffies : ℕ
  pub test_ncpus : ℕ
  pub rt_policy : ℕ → Bool
  pub fair_policy : ℕ → Bool
  pub idle_policy : ℕ → Bool

-- The last of the tasks that is `curr`, as the cli numbers them from `i + 1` on.
unfoldable pub curr_number : ℕ → List Proc → ℕ → ℕ → ℕ
curr_number i [] curr found = found
curr_number i (p ∷ tasks) curr found =
    curr_number (suc i) tasks curr (if p.addr == curr then suc i else found)

-- `n` CPUs from `cpu` on.
unfoldable pub cpus_from : ℕ → ℕ → List ℕ
cpus_from zero cpu = []
cpus_from (suc n) cpu = cpu ∷ cpus_from n (cpu + 1)

-- The index of the first cgroup of that path, 0 if there is none.
unfoldable pub cgroup_row : Bytes → List ShmCgroup → ℕ → ℕ
cgroup_row path [] g = 0
cgroup_row path (c ∷ cgroups) g = if equal c.path path then g else cgroup_row path cgroups (g + 1)

abbrev pub cgroup_of : Option Bytes → List ShmCgroup → ℕ
cgroup_of none cgroups = 0
cgroup_of (some path) cgroups = cgroup_row path cgroups 0

-- TASK_RUNNING is 0 and TASK_INTERRUPTIBLE 1.
abbrev pub state_of : Proc → TaskState
state_of p =
    if p.on_cpu
    then running
    else if p.state == 0
    then runnable
    else if not (bit_and p.state 1 == 0)
    then sleeping
    else blocked

-- The three tables that the tasks fill, up to their counts.
pub record Filled : Type 0 where
  pub task : List ShmTask
  pub rt_entity : List ShmRtEntity
  pub entity : List ShmEntity

-- The entity of a task that a fair policy holds.
abbrev pub fair_entity : List ShmCgroup → ℕ → Proc → ShmEntity
fair_entity cgroups number p = record {
  se = shm_se p.se;
  task = number;
  cgroup = cgroup_of p.path cgroups;
  cpu = p.cpu;
}

-- The record in the table of the task's class: under a real-time policy or not, and where not,
-- under a fair one with room for its entity or not.
unfoldable pub by_class : Bool → Bool → ShmRtEntity → ShmEntity → Filled → Filled
by_class true fair r e out = record out { rt_entity = out.rt_entity ++ (r ∷ []) }
by_class false true r e out = record out { entity = out.entity ++ (e ∷ []) }
by_class false false r e out = out

module _ (s : Sched) where
  abbrev pub rq_of : ℕ → Rq
  rq_of cpu = s.machine.rq cpu

  unfoldable pub shm_cpu : List Proc → ℕ → ShmCpu
  shm_cpu tasks cpu = record {
    nr_running = (rq_of cpu).nr_running;
    nr_switches = (rq_of cpu).nr_switches;
    cpu = cpu;
    curr = curr_number 0 tasks (rq_of cpu).curr 0;
    idle = (rq_of cpu).curr == (rq_of cpu).idle;
    capacity = u32 (s.cpu_capacity cpu);
    freq = u32 (s.freq cpu);
    next_balance_in = wait_until (rq_of cpu).next_balance s.machine.jiffies;
  }

  unfoldable pub shm_cfs : ℕ → ShmCfs
  shm_cfs cpu = record {
    util_avg = (rq_of cpu).util_avg;
    load_avg = (rq_of cpu).load_avg;
    runnable_avg = (rq_of cpu).runnable_avg;
    h_nr_runnable = (rq_of cpu).h_nr_runnable;
    cpu = cpu;
  }

  unfoldable pub shm_rt : ℕ → ShmRt
  shm_rt cpu = record {
    rt_time = (rq_of cpu).rt.rt_time;
    rt_runtime = (rq_of cpu).rt.rt_runtime;
    cpu = cpu;
    nr_running = (rq_of cpu).rt.rt_nr_running;
    highest_prio = (rq_of cpu).rt.highest_prio;
    throttled = (rq_of cpu).rt.rt_throttled;
  }

  -- `rt_pick`, none outside of the CPUs that it has.
  abbrev pub rt_pick_on : ℕ → Option ℕ
  rt_pick_on cpu = if leb 1 cpu && leb cpu s.test_ncpus then shm_rt_pick (rq_of cpu).rt else none

  unfoldable pub shm_task : List ShmCgroup → ℕ → Proc → ShmTask
  shm_task cgroups number p = record {
    cpus = p.allowed;
    sum_exec_runtime = p.se.sum_exec_runtime;
    task = number;
    state = state_of p;
    cpu = p.cpu;
    policy = p.policy;
    nice = p.nice;
    rt_priority = p.rt_priority;
    cgroup = cgroup_of p.path cgroups;
  }

  unfoldable pub add_class : List ShmCgroup → ℕ → Proc → Filled → Filled
  unfolding by_class
  add_class cgroups number p out =
      by_class (s.rt_policy p.policy)
        ((s.fair_policy p.policy || s.idle_policy p.policy) && ltb (length out.entity) entities_max)
        (shm_rt_entity p.rt number (rt_pick_on p.cpu) (rq_of p.cpu).curr)
        (fair_entity cgroups number p) out

  unfoldable pub add_task : List ShmCgroup → ℕ → Proc → Filled → Filled
  unfolding add_class
  add_task cgroups number p out =
      if p.exited
      then out
      else let own = add_class cgroups number p out in
        record own { task = own.task ++ (shm_task cgroups number p ∷ []) }

  -- The tasks from index `i` on.
  unfoldable pub add_tasks : List ShmCgroup → ℕ → List Proc → Filled → Filled
  unfolding add_task
  add_tasks cgroups i [] out = out
  add_tasks cgroups i (p ∷ tasks) out =
      let rest = add_tasks cgroups (suc i) tasks (add_task cgroups (suc i) p out) in
      if ltb (length out.task) tasks_max then rest else out

  unfoldable pub filled : List Proc → Filled
  filled tasks =
      let tables = shm_collect_cgroups s.test_ncpus s.tree in
      add_tasks tables.0 0 tasks (record { task = []; rt_entity = []; entity = tables.1 })

  unfoldable pub shm_update : List Proc → Shm → Shm
  unfolding filled
  shm_update tasks shm =
      let cgroups = (shm_collect_cgroups s.test_ncpus s.tree).0 in
      let cpus = cpus_from s.test_ncpus 1 in
      let out = filled tasks in
      let (domains, groups) = shm_collect_domains s.machine s.test_ncpus in
      record shm {
        cpu = overwrite (map (shm_cpu tasks) cpus) shm.cpu;
        cfs = overwrite (map shm_cfs cpus) shm.cfs;
        rt = overwrite (map shm_rt cpus) shm.rt;
        task = overwrite out.task shm.task;
        rt_entity = overwrite out.rt_entity shm.rt_entity;
        cgroup = overwrite cgroups shm.cgroup;
        entity = overwrite out.entity shm.entity;
        domain = overwrite domains shm.domain;
        group = overwrite groups shm.group;
        hdr = record shm.hdr {
          timestamp = u32 s.kstep_jiffies;
          ncpus = s.test_ncpus;
          ntasks = length out.task;
          ncgroups = length cgroups;
          ndomains = length domains;
          ngroups = length groups;
          nentities = length out.entity;
          nrt_entities = length out.rt_entity;
        };
      }

abbrev stripped : Bytes → Bytes
stripped (a ∷ b ∷ c ∷ rest) = rest
stripped other = []

-- The flag names without "SD_", as many as there are slots for.
unfoldable pub flag_names : ℕ → List Bytes → List Bytes
flag_names zero names = []
flag_names (suc slots) [] = []
flag_names (suc slots) (name ∷ names) = strscpy sd_flag_len (stripped name) ∷ flag_names slots names

-- `kstep_shm_init` on the zeroed pages, for the kernel's list of flags.
unfoldable pub shm_init : List Bytes → Shm → Shm
unfolding flag_names
shm_init names zeroed = record zeroed {
  hdr = record zeroed.hdr { layout = layout; features = bit_or zeroed.hdr.features eevdf };
  sd_flag = overwrite (flag_names sd_flags_max names) zeroed.sd_flag;
}
