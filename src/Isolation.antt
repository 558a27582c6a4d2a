-- ===== src/Isolation.antt =====
-- What is kept off the test CPUs: kmod/isolation.c.
pub mod Moved
pub mod Workers
mod Tests
use kstep.Prelude.{
  ℕ, zero, suc, ◌+◌, ◌*◌, ◌/◌, Bool, true, false, not, ◌&&◌, ◌||◌, List, [], ◌∷◌, ◌++◌, leb, ltb,
  ◌==◌, if◌then◌else◌,
}
use kstep.Text.{Bytes, lit, strstarts}
use kstep.Cpu.Mask.{Mask, test_cpu, only}

-- What is read of a process: its name, where it may run, and PF_KTHREAD; `woken` counts the calls
-- of `wake_up_process`.
pub record Process : Type 0 where
  pub pid : ℕ
  pub comm : Bytes
  pub cpus_mask : Mask
  pub is_kthread : Bool
  pub woken : ℕ

-- Whether the kernel refuses to change the affinity of a process, as it does for one that is bound.
pub record Affinity : Type 0 where
  pub refuses : Process → Bool

abbrev pub sys_kthread_names : List Bytes
sys_kthread_names = lit "cpuhp/" ∷ lit "migration/" ∷ lit "ksoftirqd/" ∷ []

unfoldable pub starts_with_any : Bytes → List Bytes → Bool
starts_with_any comm [] = false
starts_with_any comm (name ∷ names) = strstarts comm name || starts_with_any comm names

unfoldable pub is_sys_kthread : Process → Bool
unfolding starts_with_any
is_sys_kthread p = starts_with_any p.comm sys_kthread_names

-- `cpumask_equal(mask, cpumask_of(0))`
unfoldable pub only_0 : Mask → Bool
only_0 [] = false
only_0 (c ∷ []) = c == 0
only_0 (c ∷ d ∷ m) = c == 0 && only_0 (d ∷ m)

module _ (a : Affinity) where
  -- `set_cpus_allowed_ptr` and `wake_up_process`; what the first returns is not read.
  abbrev bound : Process → Process
  bound p =
      if a.refuses p
      then record p { woken = suc p.woken }
      else record p { cpus_mask = only 0; woken = suc p.woken }

  unfoldable pub move_kthread : Process → Process
  unfolding is_sys_kthread only_0
  move_kthread p =
      if only_0 p.cpus_mask then p else if not p.is_kthread || is_sys_kthread p then p else bound p

  unfoldable pub move_kthreads : List Process → List Process
  unfolding move_kthread
  move_kthreads [] = []
  move_kthreads (p ∷ ps) = move_kthread p ∷ move_kthreads ps

-- The CPUs that the works are queued on, in their order, from work i on.
unfoldable pub queue_works : ℕ → ℕ → ℕ → List ℕ
queue_works num_kworkers i zero = []
queue_works num_kworkers i (suc works) = i / num_kworkers ∷ queue_works num_kworkers (suc i) works

-- `prealloc_kworker` of one workqueue: each work is queued and has started before the next one is.
unfoldable pub prealloc_kworker : ℕ → ℕ → List ℕ
unfolding queue_works
prealloc_kworker num_cpus num_kworkers = queue_works num_kworkers 0 (num_kworkers * num_cpus)

-- The three workqueues: `system_wq`, `system_highpri_wq` and `system_unbound_wq`.
unfoldable pub prealloc_kworkers : ℕ → List (List ℕ)
unfolding prealloc_kworker
prealloc_kworkers num_cpus =
    prealloc_kworker num_cpus 2 ∷ prealloc_kworker num_cpus 2 ∷ prealloc_kworker num_cpus 2 ∷ []

-- The CPUs from c on whose workqueue is taken offline.
unfoldable pub offline_from : ℕ → ℕ → List ℕ
offline_from c zero = []
offline_from c (suc n) = c ∷ offline_from (suc c) n

-- `kstep_disable_workqueue`
unfoldable pub disable_workqueue : ℕ → List ℕ
unfolding offline_from
disable_workqueue test_ncpus = offline_from 1 test_ncpus
