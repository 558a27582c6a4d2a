-- ===== src/Reset/Tests.antt =====
-- Two boots of a machine with one test CPU, one task on it, and one task group besides the root.
use kstep.Prelude.{ℕ, ◌≡◌, refl, Bool, true, false, [], ◌∷◌, arith}
use kstep.Reset.{SchedAvg, Task, RunQueue, GroupCpu, Group, World, reset}
use kstep.Reset.Forgets.{AlikeTask, AlikeRq, AlikeGroup, Alike, reset-forgets}

-- What a boot left, as one number.
abbrev avg : ℕ → SchedAvg
avg n = record {
  last_update_time = n;
  load_sum = n;
  runnable_sum = n;
  util_sum = n;
  period_contrib = n;
  load_avg = n;
  runnable_avg = n;
  util_avg = n;
  util_est = n;
}

abbrev rq : ℕ → ℕ → RunQueue
rq clocks n = record {
  clock = clocks;
  clock_task = clocks;
  clock_pelt = clocks;
  lost_idle_time = clocks;
  clock_pelt_idle = clocks;
  clock_idle = clocks;
  avg_idle = n;
  max_idle_balance_cost = n;
  idle_stamp = clocks;
  nr_switches = n;
  next_balance = n;
  zero_vruntime = n;
  sum_w_vruntime = n;
  sum_weight = n;
  cfs_avg = avg n;
  avg_rt = avg n;
  avg_dl = avg n;
  avg_irq = avg n;
  avg_hw = avg n;
  domains =
      record {
        min_interval = 2;
        last_balance = n;
        balance_interval = n;
        nr_balance_failed = n;
        max_newidle_lb_cost = n;
        last_decay_max_lb_cost = n;
        others = [];
      }
      ∷ [];
  others = 40 ∷ [];
}

abbrev task : ℕ → ℕ → Task
task c n = record {
  cpu = c;
  weight = 1024;
  nivcsw = n;
  nvcsw = n;
  exec_start = n;
  sum_exec_runtime = n;
  prev_sum_exec_runtime = n;
  nr_migrations = n;
  vruntime = n;
  vlag = n;
  slice = n;
  avg = avg n;
  others = 70 ∷ [];
}

abbrev group_cpu : ℕ → GroupCpu
group_cpu n = record {
  cfs_avg = avg n;
  tg_load_avg_contrib = n;
  propagate = n;
  prop_runnable_sum = n;
  se_avg = avg n;
  others = [];
}

abbrev group : Bool → ℕ → Group
group r n = record {
  is_root = r;
  load_avg = n;
  per_cpu = group_cpu n ∷ group_cpu n ∷ [];
  others = 6 ∷ [];
}

abbrev boot : ℕ → World
boot n = record {
  tick_nsec = 1000000;
  jiffies = 1;
  base_slice = 3000000;
  migration_cost = 500000;
  test_ncpus = 1;
  rqs = rq n 5 ∷ rq n n ∷ [];
  groups = group true 3 ∷ group false n ∷ [];
  tasks = task 0 4 ∷ task 1 n ∷ [];
  distribute_cpu_mask_prev = n ∷ n ∷ [];
  fair_server = record { runtime = 50; period = 1000 } ∷ record { runtime = n; period = n } ∷ [];
}

control : AlikeRq 1 0 (rq 17 5) (rq 11 5)
control = record {
  domains = refl;
  others = refl;
  control = λ h. refl;
  spare = λ t h. absurd (h refl);
}

tested : AlikeRq 1 1 (rq 17 17) (rq 11 11)
tested = record {
  domains = refl;
  others = refl;
  control = λ h. absurd (omega arith);
  spare = λ t h. cc;
}

root_group : AlikeGroup 0 (group true 3) (group true 3)
root_group = record { is_root = refl; root = λ h. refl; others = refl; per_cpu = refl }

own_group : AlikeGroup 1 (group false 17) (group false 11)
own_group = record { is_root = refl; root = λ h. cc; others = refl; per_cpu = refl }

controller : AlikeTask 0 (task 0 4) (task 0 4)
controller = record { cpu = refl; weight = refl; others = refl; control = λ h. refl }

worker : AlikeTask 1 (task 1 17) (task 1 11)
worker = record { cpu = refl; weight = refl; others = refl; control = λ h. absurd (omega arith) }

boots-Alike : Alike (boot 17) (boot 11)
boots-Alike = record {
  tick_nsec = refl;
  jiffies = refl;
  base_slice = refl;
  migration_cost = refl;
  test_ncpus = refl;
  rqs = (control, (tested, tt));
  groups = (root_group, (own_group, tt));
  tasks = (controller, (worker, tt));
  prev = (tt, (tt, tt));
  servers = ((λ h. refl), ((λ h. cc), tt));
}

reset-forgets_example : reset (boot 17) ≡ reset (boot 11)
reset-forgets_example = reset-forgets (boot 17) (boot 11) boots-Alike
