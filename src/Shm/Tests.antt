-- ===== src/Shm/Tests.antt =====
-- A machine of two test CPUs with one domain each, two cgroups, and three tasks: one runs under a
-- fair policy, one waits under a real-time policy, and one has exited.
use kstep.Prelude.{
  ℕ, suc, ◌-◌, ◌^◌, ◌≡◌, refl, Bool, true, false, List, [], ◌∷◌, replicate, map, take, none, some,
  ◌==◌, ◌||◌, arith,
}
use kstep.Text.{lit}
use kstep.Shm.{
  cpus_max, tasks_max, cgroups_max, entities_max, domains_max, groups_max, ShmTask, ShmRtEntity,
  Shm, se_pick, se_eligible, se_delayed, se_curr, se_on_rq,
}
use kstep.Shm.Entities.{
  CfsQueue, SchedEntity, shm_se, RtEntity, RtQueue, RtRun, RtRq, Rq, RtTask, shm_rt_entity,
}
use kstep.Shm.Entities.Flags.{has_bit, shm_se-flags}
use kstep.Shm.Cgroups.{Cgroup, weight_of, cgroup_record}
use kstep.Shm.Domains.{
  SchedGroup, SchedDomain, Machine, shm_domain, shm_group, or_else, balancer_of, shm_idle_cpu,
  shm_collect_domains,
}
use kstep.Shm.Domains.Runs.{placed, rings, walk, collect_domains-placed}
use kstep.Shm.Domains.Balance.{should_balance, balancer-should}
use kstep.Shm.Update.{Proc, Sched, shm_update, shm_cpu, shm_cfs, shm_rt, shm_task, fair_entity}
use kstep.Shm.Update.Tables.{IsSized, IsCounted, shm_update-IsSized}
use kstep.Shm.Update.Classes.{numbers, members, shm_update-classes}

abbrev queue : CfsQueue
queue = record { curr = 70; avg_vruntime = 5; pick_eevdf = some 71 }

abbrev entity : SchedEntity
entity = record {
  addr = 71;
  weight = 1024;
  sum_exec_runtime = 9;
  vruntime = 8;
  deadline = 20;
  slice = 3;
  vlag = 0;
  on_rq = true;
  sched_delayed = false;
  cfs_rq = queue;
  entity_eligible = false;
}

-- The average is three behind, which as an `s64` is -3.
entity_lag : (shm_se entity).lag ≡ 2 ^ 64 - 3
unfolding shm_se
entity_lag = refl

shm_se-flags_example :
    (has_bit (shm_se entity).flags se_pick ≡ true)
    × (has_bit (shm_se entity).flags se_eligible ≡ false)
    × (has_bit (shm_se entity).flags se_delayed ≡ false)
    × (has_bit (shm_se entity).flags se_curr ≡ false)
    × (has_bit (shm_se entity).flags se_on_rq ≡ true)
shm_se-flags_example = shm_se-flags entity

abbrev group : ℕ → SchedGroup
group c = record {
  span = 2 ^ c;
  balance_mask = c ∷ [];
  capacity = 1024;
  min_capacity = 1024;
  max_capacity = 1024;
  group_weight = 1;
}

abbrev both_groups : SchedGroup
both_groups = record {
  span = 6;
  balance_mask = 1 ∷ 2 ∷ [];
  capacity = 2048;
  min_capacity = 1024;
  max_capacity = 1024;
  group_weight = 2;
}

abbrev domain : SchedDomain
domain = record {
  span = 6;
  flags = 0;
  name = lit "MC";
  imbalance_pct = 117;
  balance_interval = 2;
  nr_balance_failed = 0;
  busy_factor = 16;
  cache_nice_tries = 1;
  last_balance = 40;
  first = both_groups;
  others = group 3 ∷ [];
}

abbrev rt : RtRq
rt = record {
  rt_queued = true;
  rt_nr_running = 1;
  highest_prio = 98;
  rt_throttled = false;
  rt_time = 0;
  rt_runtime = 950000000;
  active =
      RtQueue.prio RtRun.end (RtQueue.prio (RtRun.entry (RtEntity.task 8) RtRun.end) RtQueue.empty);
}

abbrev rq : ℕ → Rq
rq c = record {
  curr = 7;
  idle = if_one c;
  ttwu_pending = false;
  nr_running = if_busy c;
  nr_switches = 4;
  next_balance = 60;
  util_avg = 100;
  load_avg = 200;
  runnable_avg = 300;
  h_nr_runnable = 1;
  rt = rt;
}
  where
    if_one : ℕ → ℕ
    if_one (suc (suc n)) = 7
    if_one n = 6

    if_busy : ℕ → ℕ
    if_busy (suc (suc n)) = 0
    if_busy n = 1

abbrev machine : Machine
machine = record {
  rq = rq;
  smt_mask = λ c. c ∷ [];
  jiffies = 41;
  msecs_to_jiffies = λ ms. ms;
  share_cpucapacity = 128;
  domains = λ c. domain ∷ [];
  nr_cpu_ids = 8;
}

-- CPU 1 is busy, so CPU 2, which idles, is to balance.
balancer-should_example :
    balancer_of machine domain ≡ or_else machine (should_balance machine domain) 1
balancer-should_example = balancer-should machine domain

balancer_two : balancer_of machine domain ≡ 2
unfolding balancer_of shm_idle_cpu
balancer_two = refl

collect_domains-placed_example :
    ((shm_collect_domains machine 2).0 ≡ placed machine domains_max 0 (walk machine 2 1))
    × ((shm_collect_domains machine 2).1
        ≡ take groups_max (rings machine domains_max (walk machine 2 1)))
collect_domains-placed_example = collect_domains-placed machine 2

abbrev root : Cgroup
root = record { online = true; path = some (lit "/"); tg = none; effective_cpus = some 7 }

abbrev child : Cgroup
child = record {
  online = true;
  path = some (lit "/a");
  tg = some (record { has_parent = true; shares = 1024; se = λ c. some entity });
  effective_cpus = some 6;
}

-- The default weight.
child_weight : weight_of child.tg ≡ 100
unfolding weight_of
child_weight = refl

abbrev rt_task : RtTask
rt_task = record {
  addr = 8;
  cpu = 1;
  time_slice = 100;
  on_rq = true;
  on_list = true;
  queue = 5 ∷ 8 ∷ [];
}

abbrev proc : ℕ → Bool → ℕ → Proc
proc a exited policy = record {
  addr = a;
  exited = exited;
  on_cpu = a == 7;
  state = 0;
  cpu = 1;
  policy = policy;
  nice = 0;
  rt_priority = policy;
  allowed = 6;
  se = entity;
  rt = rt_task;
  path = some (lit "/a");
}

abbrev three : List Proc
three = proc 7 false 0 ∷ proc 8 false 1 ∷ proc 9 true 0 ∷ []

abbrev sched : Sched
sched = record {
  machine = machine;
  tree = some (root ∷ child ∷ []);
  cpu_capacity = λ c. 1024;
  freq = λ c. 1024;
  kstep_jiffies = 12;
  test_ncpus = 2;
  rt_policy = λ p. p == 1 || p == 2;
  fair_policy = λ p. p == 0 || p == 3;
  idle_policy = λ p. p == 5;
}

abbrev blank : Shm
blank = record {
  hdr = record {
    layout = 14;
    features = 1;
    timestamp = 0;
    ncpus = 0;
    ntasks = 0;
    ncgroups = 0;
    ndomains = 0;
    ngroups = 0;
    nentities = 0;
    nrt_entities = 0;
  };
  sd_flag = [];
  cpu = replicate cpus_max (shm_cpu sched [] 1);
  task = replicate tasks_max (shm_task sched [] 0 (proc 0 true 0));
  cgroup = replicate cgroups_max (cgroup_record root []);
  domain = replicate domains_max (shm_domain machine 0 domain 0 0);
  group = replicate groups_max (shm_group machine both_groups);
  cfs = replicate cpus_max (shm_cfs sched 1);
  entity = replicate entities_max (fair_entity [] 0 (proc 0 true 0));
  rt = replicate cpus_max (shm_rt sched 1);
  rt_entity = replicate tasks_max (shm_rt_entity rt_task 0 none 0);
}

blank-IsSized : IsSized blank
blank-IsSized = record {
  cpu = refl;
  cfs = refl;
  rt = refl;
  task = refl;
  rt_entity = refl;
  cgroup = refl;
  entity = refl;
  domain = refl;
  group = refl;
}

shm_update-IsSized_example :
    IsSized (shm_update sched three blank) × IsCounted (shm_update sched three blank)
shm_update-IsSized_example = shm_update-IsSized sched three blank (omega arith) blank-IsSized

shm_update-classes_example :
    let shm' = shm_update sched three blank in
    (map (λ (t : ShmTask). t.task) (take shm'.hdr.ntasks shm'.task) ≡ 1 ∷ 2 ∷ [])
    × (map (λ (r : ShmRtEntity). r.task) (take shm'.hdr.nrt_entities shm'.rt_entity) ≡ 2 ∷ [])
    × (members (take shm'.hdr.nentities shm'.entity) ≡ 1 ∷ [])
unfolding numbers
shm_update-classes_example = shm_update-classes sched three blank (omega arith) (omega arith)
