-- ===== src/Trace/Hits.antt =====
-- The handlers of kmod/trace.c: what each hook keeps and which event it raises. A task, a domain
-- and a runqueue are addresses; per-CPU variables are functions of the CPU.
pub mod Chains
pub mod Stash
mod Tests
use kstep.Prelude.{ℕ, Bool, true, false, ◌||◌, List, [], ◌∷◌, ◌++◌, ◌==◌, if◌then◌else◌}
use kstep.Cov.{update}

-- An event with its arguments, as `kstep_emit` passes them to every function registered.
pub data Raised : Type 0 where
  balance_selected : ℕ → ℕ → Raised
  select_task_rq : ℕ → ℕ → ℕ → Raised
  task_migrate : ℕ → ℕ → ℕ → Raised

-- A traced function that is called: on which CPU where that matters, and its arguments.
pub data Hit : Type 0 where
  sched_balance : ℕ → ℕ → ℕ → Hit
  find_src_group : ℕ → Hit
  select_rq : ℕ → ℕ → ℕ → Hit
  set_task_cpu : ℕ → ℕ → Hit
  init_tg_cfs_entry : ℕ → Hit

-- `lb_dst_cpu` and `lb_sd`; and of the kernel `kstep_jiffies_get`, `task_cpu` and `zero_vruntime`.
pub record Kept : Type 0 where
  pub lb_dst_cpu : ℕ → ℕ
  pub lb_sd : ℕ → ℕ
  pub jiffies : ℕ
  pub task_cpu : ℕ → ℕ
  pub zero_vruntime : ℕ → ℕ

unfoldable pub on_sched_balance_enter : ℕ → ℕ → ℕ → Kept → Kept
on_sched_balance_enter cpu this_cpu sd k =
    if this_cpu == 0 || k.jiffies == 0
    then k
    else record k { lb_dst_cpu = update k.lb_dst_cpu cpu this_cpu; lb_sd = update k.lb_sd cpu sd }

unfoldable pub on_sched_balance_selected : ℕ → Kept → List Raised
on_sched_balance_selected cpu k =
    if k.lb_dst_cpu cpu == 0 || k.jiffies == 0
    then []
    else balance_selected (k.lb_dst_cpu cpu) (k.lb_sd cpu) ∷ []

unfoldable pub on_select_task_rq : ℕ → ℕ → ℕ → List Raised
on_select_task_rq p prev_cpu wake_flags = select_task_rq p prev_cpu wake_flags ∷ []

unfoldable pub on_set_task_cpu : ℕ → ℕ → Kept → List Raised
on_set_task_cpu p new_cpu k =
    if k.jiffies == 0 || k.task_cpu p == new_cpu
    then []
    else task_migrate p (k.task_cpu p) new_cpu ∷ []

unfoldable pub on_sched_group_alloc : ℕ → Kept → Kept
on_sched_group_alloc cfs_rq k = record k { zero_vruntime = update k.zero_vruntime cfs_rq 0 }

-- A call of a traced function: its handler at the entry, and then its body, of which `set_task_cpu`
-- moves the task.
unfoldable pub hit : Hit → Kept → List Raised × Kept
unfolding on_sched_balance_enter on_sched_balance_selected on_select_task_rq on_set_task_cpu
    on_sched_group_alloc
hit (sched_balance cpu this_cpu sd) k = ([], on_sched_balance_enter cpu this_cpu sd k)
hit (find_src_group cpu) k = (on_sched_balance_selected cpu k, k)
hit (select_rq p prev_cpu wake_flags) k = (on_select_task_rq p prev_cpu wake_flags, k)
hit (set_task_cpu p new_cpu) k =
    (on_set_task_cpu p new_cpu k, record k { task_cpu = update k.task_cpu p new_cpu })
hit (init_tg_cfs_entry cfs_rq) k = ([], on_sched_group_alloc cfs_rq k)

unfoldable pub run_hits : List Hit → Kept → List Raised × Kept
run_hits [] k = ([], k)
run_hits (h ∷ hits) k =
    let (now, k') = hit h k in let (later, k'') = run_hits hits k' in (now ++ later, k'')
