-- ===== src/Reset.antt =====
-- The scheduler's state put back to a start: kmod/reset.c, on a kernel from 7.0 on. A record has the
-- fields that the code writes, those that it reads to do so, and in `others` the words of all the
-- other fields of the kernel's struct, which survive a reset.
pub mod Forgets
mod Tests
use kstep.Prelude.{
  ℕ, zero, suc, ◌+◌, ◌*◌, Bool, true, false, ◌&&◌, List, [], ◌∷◌, map, leb, ◌==◌, if◌then◌else◌,
}

-- `struct sched_avg`
pub record SchedAvg : Type 0 where
  pub last_update_time : ℕ
  pub load_sum : ℕ
  pub runnable_sum : ℕ
  pub util_sum : ℕ
  pub period_contrib : ℕ
  pub load_avg : ℕ
  pub runnable_avg : ℕ
  pub util_avg : ℕ
  pub util_est : ℕ

unfoldable pub reset_sched_avg : SchedAvg → SchedAvg
reset_sched_avg avg = record {
  last_update_time = 0;
  load_sum = 0;
  runnable_sum = 0;
  util_sum = 0;
  period_contrib = 0;
  load_avg = 0;
  runnable_avg = 0;
  util_avg = 0;
  util_est = 0;
}

-- A task; `weight` is its load weight after `scale_load_down`. Its deadline is one of the others.
pub record Task : Type 0 where
  pub cpu : ℕ
  pub weight : ℕ
  pub nivcsw : ℕ
  pub nvcsw : ℕ
  pub exec_start : ℕ
  pub sum_exec_runtime : ℕ
  pub prev_sum_exec_runtime : ℕ
  pub nr_migrations : ℕ
  pub vruntime : ℕ
  pub vlag : ℕ
  pub slice : ℕ
  pub avg : SchedAvg
  pub others : List ℕ

pub record Domain : Type 0 where
  pub min_interval : ℕ
  pub last_balance : ℕ
  pub balance_interval : ℕ
  pub nr_balance_failed : ℕ
  pub max_newidle_lb_cost : ℕ
  pub last_decay_max_lb_cost : ℕ
  pub others : List ℕ

-- What the queue's `removed` has to take off its averages is one of the others.
pub record RunQueue : Type 0 where
  pub clock : ℕ
  pub clock_task : ℕ
  pub clock_pelt : ℕ
  pub lost_idle_time : ℕ
  pub clock_pelt_idle : ℕ
  pub clock_idle : ℕ
  pub avg_idle : ℕ
  pub max_idle_balance_cost : ℕ
  pub idle_stamp : ℕ
  pub nr_switches : ℕ
  pub next_balance : ℕ
  pub zero_vruntime : ℕ
  pub sum_w_vruntime : ℕ
  pub sum_weight : ℕ
  pub cfs_avg : SchedAvg
  pub avg_rt : SchedAvg
  pub avg_dl : SchedAvg
  pub avg_irq : SchedAvg
  pub avg_hw : SchedAvg
  pub domains : List Domain
  pub others : List ℕ

-- What a task group has on one CPU.
pub record GroupCpu : Type 0 where
  pub cfs_avg : SchedAvg
  pub tg_load_avg_contrib : ℕ
  pub propagate : ℕ
  pub prop_runnable_sum : ℕ
  pub se_avg : SchedAvg
  pub others : List ℕ

pub record Group : Type 0 where
  pub is_root : Bool
  pub load_avg : ℕ
  pub per_cpu : List GroupCpu
  pub others : List ℕ

-- `dl_server_apply_params`, the last for each CPU
pub record DlServer : Type 0 where
  pub runtime : ℕ
  pub period : ℕ

-- The machine. `rqs`, `distribute_cpu_mask_prev` and `fair_server` have an entry for each CPU that
-- is online, from CPU 0 on.
pub record World : Type 0 where
  pub tick_nsec : ℕ
  pub jiffies : ℕ
  pub base_slice : ℕ
  pub migration_cost : ℕ
  pub test_ncpus : ℕ
  pub rqs : List RunQueue
  pub groups : List Group
  pub tasks : List Task
  pub distribute_cpu_mask_prev : List ℕ
  pub fair_server : List DlServer

unfoldable pub reset_task : ℕ → Task → Task
unfolding reset_sched_avg
reset_task base_slice p = record p {
  nivcsw = 0;
  nvcsw = 0;
  exec_start = 0;
  sum_exec_runtime = 0;
  prev_sum_exec_runtime = 0;
  nr_migrations = 0;
  vruntime = 0;
  vlag = 0;
  slice = base_slice;
  avg = record (reset_sched_avg p.avg) { load_avg = p.weight };
}

unfoldable pub reset_tasks : ℕ → List Task → List Task
unfolding reset_task
reset_tasks base_slice [] = []
reset_tasks base_slice (p ∷ tasks) =
    (if p.cpu == 0 then p else reset_task base_slice p) ∷ reset_tasks base_slice tasks

unfoldable pub reset_rq_clocks : ℕ → RunQueue → RunQueue
reset_rq_clocks tick_nsec rq = record rq {
  clock = tick_nsec;
  clock_task = tick_nsec;
  clock_pelt = tick_nsec;
  lost_idle_time = 0;
  clock_pelt_idle = tick_nsec;
  clock_idle = tick_nsec;
}

unfoldable pub reset_domain : ℕ → Domain → Domain
reset_domain jiffies sd = record sd {
  last_balance = jiffies;
  balance_interval = sd.min_interval;
  nr_balance_failed = 0;
  max_newidle_lb_cost = 0;
  last_decay_max_lb_cost = jiffies;
}

unfoldable pub reset_runqueue : World → RunQueue → RunQueue
unfolding reset_rq_clocks reset_sched_avg reset_domain
reset_runqueue w rq = record (reset_rq_clocks w.tick_nsec rq) {
  avg_idle = 2 * w.migration_cost;
  max_idle_balance_cost = w.migration_cost;
  idle_stamp = 0;
  nr_switches = 0;
  next_balance = w.jiffies;
  zero_vruntime = 0;
  sum_w_vruntime = 0;
  sum_weight = 0;
  cfs_avg = reset_sched_avg rq.cfs_avg;
  avg_rt = reset_sched_avg rq.avg_rt;
  avg_dl = reset_sched_avg rq.avg_dl;
  avg_irq = reset_sched_avg rq.avg_irq;
  avg_hw = reset_sched_avg rq.avg_hw;
  domains = map (reset_domain w.jiffies) rq.domains;
}

reset_group_cpu : GroupCpu → GroupCpu
reset_group_cpu g = record g {
  cfs_avg = reset_sched_avg g.cfs_avg;
  tg_load_avg_contrib = 0;
  propagate = 0;
  prop_runnable_sum = 0;
  se_avg = reset_sched_avg g.se_avg;
}

unfoldable pub reset_group : Group → Group
unfolding reset_group_cpu reset_sched_avg
reset_group tg =
    if tg.is_root then tg else record tg { load_avg = 0; per_cpu = map reset_group_cpu tg.per_cpu }

unfoldable pub reset_control_rq : ℕ → RunQueue → RunQueue
unfolding reset_rq_clocks
reset_control_rq tick_nsec rq = record (reset_rq_clocks tick_nsec rq) { idle_stamp = 0 }

abbrev pub is_test : ℕ → ℕ → Bool
is_test ncpus cpu = leb 1 cpu && leb cpu ncpus

-- The runqueues from `cpu` on: the test CPUs', and that of CPU 0.
unfoldable pub reset_rqs : World → ℕ → List RunQueue → List RunQueue
unfolding reset_runqueue reset_control_rq
reset_rqs w cpu [] = []
reset_rqs w cpu (rq ∷ rqs) =
    (if is_test w.test_ncpus cpu
      then reset_runqueue w rq
      else if cpu == 0
      then reset_control_rq w.tick_nsec rq
      else rq)
    ∷ reset_rqs w (suc cpu) rqs

unfoldable pub reset_runqueues : World → World
unfolding reset_rqs reset_group
reset_runqueues w = record w { rqs = reset_rqs w 0 w.rqs; groups = map reset_group w.groups }

unfoldable pub reset_cpumask : World → World
reset_cpumask w = record w { distribute_cpu_mask_prev = map (λ prev. 0) w.distribute_cpu_mask_prev }

-- The servers from `cpu` on.
unfoldable pub apply_params : ℕ → ℕ → List DlServer → List DlServer
apply_params ncpus cpu [] = []
apply_params ncpus cpu (d ∷ servers) =
    (if is_test ncpus cpu then record { runtime = 0; period = 1000 * 1000000 } else d)
    ∷ apply_params ncpus (suc cpu) servers

unfoldable pub reset_dl_server : World → World
unfolding apply_params
reset_dl_server w = record w { fair_server = apply_params w.test_ncpus 0 w.fair_server }

-- The resets of `kstep_main` in their order.
unfoldable pub reset : World → World
unfolding reset_runqueues reset_cpumask reset_tasks reset_dl_server
reset w =
    let masks = reset_cpumask (reset_runqueues w) in
    let tasks : World = record masks { tasks = reset_tasks masks.base_slice masks.tasks } in
    reset_dl_server tasks
