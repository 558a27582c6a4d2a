-- ===== src/Task/Create/Tests.antt =====
-- A task made on three test CPUs.
use kstep.Prelude.{
  ℕ, ◌-◌, suc, ◌≡◌, refl, arith, true, false, [], ◌∷◌, length, Option, none, some, ok,
}
use kstep.Prelude.Int.{pos}
use kstep.Text.{Bytes, lit, printed}
use kstep.Cpu.Mask.{Mask}
use kstep.Cpu.Topo.{Host, parse_cpus}
use kstep.Reset.{SchedAvg}
use kstep.Task.Queue.{Task}
use kstep.Task.Queue.Fifo.{pending}
use kstep.Task.Table.{Proc, task_find}
use kstep.Task.Create.{ran, Umh, World, test_cpus, task_create, set_affinity, set_fair}
use kstep.Task.Create.Ready.{range_from, Healthy, task_fds, left_kernel, task_create-left_kernel}

-- "1-3" as a range of one-digit CPUs.
abbrev range : Bytes → Option Mask
unfolding range_from
range (a ∷ dash ∷ b ∷ []) = some (range_from (a - 48) (suc (b - a)))
range other = none

abbrev quad : Host
quad = record {
  online = 4;
  kstrtoint = λ s. none;
  cpulist_parse = range;
  levels = [];
  machine_mask = λ l c. [];
  cap_settable = true;
}

printed-12 : printed 10 12 [] ≡ lit "12"
unfolding printed
printed-12 = refl

abbrev avg : SchedAvg
avg = record {
  last_update_time = 5;
  load_sum = 5;
  runnable_sum = 5;
  util_sum = 5;
  period_contrib = 5;
  load_avg = 5;
  runnable_avg = 5;
  util_avg = 5;
  util_est = 5;
}

abbrev fresh : kstep.Reset.Task
fresh = record {
  cpu = 1;
  weight = 1024;
  nivcsw = 5;
  nvcsw = 5;
  exec_start = 5;
  sum_exec_runtime = 5;
  prev_sum_exec_runtime = 5;
  nr_migrations = 5;
  vruntime = 5;
  vlag = 5;
  slice = 5;
  avg = avg;
  others = [];
}

-- A kernel with one task: where it may run, what is counted of it, and its policy.
record Kernel : Type 0 where
  allowed : Mask
  counted : kstep.Reset.Task
  policy : ℕ

abbrev first : Proc
first = record { addr = 100; pid = 7 }

abbrev umh : Umh Kernel
umh = record {
  unused_fd = λ fds. pos (length fds);
  allowed_0 = true;
  allocated = true;
  stored = true;
  set_up = true;
  exec = ran first;
  entered = record { len = 1; copied = true; need_resched = false; signal_pending = false };
  sched_setaffinity = λ flag pid m k. (pos 0, record k { allowed = m });
  sched_setattr = λ flag pid a k. record k { policy = a.sched_policy };
  send_sig = λ flag pid k. k;
  look = λ pid k. k.counted;
  write = λ pid t k. record k { counted = t };
}

abbrev boot : World Kernel
boot = record {
  controller = false;
  k = record { allowed = 0 ∷ []; counted = fresh; policy = 0 };
  table = [];
}

umh-Healthy : Healthy umh first
umh-Healthy = record {
  at_0 = refl;
  at_1 = λ a. refl;
  at_2 = λ a b. refl;
  at_3 = λ a b c. refl;
  allowed_0 = refl;
  allocated = refl;
  stored = refl;
  set_up = refl;
  runs = refl;
  affine = λ m k. refl;
}

reads-range : range (test_cpus 3) ≡ some (range_from 1 3)
unfolding printed range_from
reads-range = refl

task_create-left_kernel_example :
    (w' : World Kernel) × (t : Task) × (task_create umh quad 3 3000000 [] boot
      ≡ ok (first, task_fds, w'))
    × (task_find w'.table first ≡ some t)
    × (pending t ≡ [])
    × (w'.k ≡ left_kernel umh 3 3000000 first boot.k)
    × (w'.controller ≡ false)
task_create-left_kernel_example =
    task_create-left_kernel umh first umh-Healthy quad 3 3000000 boot (omega arith) reads-range

-- CPU 0 is refused, and the kernel is not asked.
affinity-refused : (set_affinity umh quad 3 first (lit "0-2") boot).1 ≡ boot
unfolding set_affinity parse_cpus range_from
affinity-refused = refl

policy-set : (set_fair umh first 3 (pos 0) boot).k.policy ≡ 3
unfolding set_fair
policy-set = refl
