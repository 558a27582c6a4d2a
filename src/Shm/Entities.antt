-- ===== src/Shm/Entities.antt =====
-- The entities of kmod/shm.c on a kernel from 6.12 on: `shm_se`, `shm_rt_pick` and `shm_rt_entity`.
-- A pointer is an address, a number.
pub mod Flags
use Prim.Native.Nat.{bit_or}
use kstep.Prelude.{
  ℕ, zero, suc, ◌+◌, ◌-◌, ◌%◌, ◌^◌, Bool, true, false, not, ◌&&◌, ◌||◌, List, [], ◌∷◌, Option, none,
  some, ◌==◌, if◌then◌else◌,
}
use kstep.Shm.{
  se_eligible, se_delayed, se_on_rq, se_curr, se_pick, ShmSe, rt_on_rq, rt_curr, rt_pick,
  ShmRtEntity, ShmEntity,
}

-- What is read of a `struct cfs_rq`, with what `avg_vruntime` and the kernel's pick answer for it.
pub record CfsQueue : Type 0 where
  pub curr : ℕ
  pub avg_vruntime : ℕ
  pub pick_eevdf : Option ℕ

-- What is read of a `struct sched_entity`: its weight after `scale_load_down`, and the answer of
-- `entity_eligible`.
pub record SchedEntity : Type 0 where
  pub addr : ℕ
  pub weight : ℕ
  pub sum_exec_runtime : ℕ
  pub vruntime : ℕ
  pub deadline : ℕ
  pub slice : ℕ
  pub vlag : ℕ
  pub on_rq : Bool
  pub sched_delayed : Bool
  pub cfs_rq : CfsQueue
  pub entity_eligible : Bool

abbrev pub is_addr : Option ℕ → ℕ → Bool
is_addr none a = false
is_addr (some p) a = p == a

-- `if (test) flags |= bit`
abbrev pub or_if : Bool → ℕ → ℕ → ℕ
or_if true bit flags = bit_or flags bit
or_if false bit flags = flags

unfoldable pub shm_se : SchedEntity → ShmSe
shm_se se = record {
  weight = se.weight;
  sum_exec_runtime = se.sum_exec_runtime;
  vruntime = se.vruntime;
  deadline = se.deadline;
  slice = se.slice;
  lag = if se.on_rq then (se.cfs_rq.avg_vruntime + 2 ^ 64 - se.vruntime) % 2 ^ 64 else se.vlag;
  flags = or_if (se.on_rq && is_addr se.cfs_rq.pick_eevdf se.addr) se_pick (
      or_if (se.on_rq && se.entity_eligible) se_eligible (
        or_if se.sched_delayed se_delayed
          (or_if (se.cfs_rq.curr == se.addr) se_curr (or_if se.on_rq se_on_rq 0))));
}

-- A real-time queue: the list of each priority, the highest first. What is queued is a task or a
-- group's queue (CONFIG_RT_GROUP_SCHED).
mutual
  pub data RtEntity : Type 0 where
    task : ℕ → RtEntity
    my_q : RtQueue → RtEntity

  pub data RtRun : Type 0 where
    end : RtRun
    entry : RtEntity → RtRun → RtRun

  pub data RtQueue : Type 0 where
    empty : RtQueue
    prio : RtRun → RtQueue → RtQueue

-- The loop of `shm_rt_pick`: the head of the first list that is not empty, which is what the bitmap
-- finds, and on into a group's queue.
unfoldable mutual
  pub pick_in : RtQueue → Option ℕ
  pick_in empty = none
  pick_in (prio end rest) = pick_in rest
  pick_in (prio (entry e run) rest) = pick_from e

  pub pick_from : RtEntity → Option ℕ
  pick_from (task p) = some p
  pick_from (my_q q) = pick_in q

-- What is read of a `struct rt_rq`.
pub record RtRq : Type 0 where
  pub rt_queued : Bool
  pub rt_nr_running : ℕ
  pub highest_prio : ℕ
  pub rt_throttled : Bool
  pub rt_time : ℕ
  pub rt_runtime : ℕ
  pub active : RtQueue

unfoldable pub shm_rt_pick : RtRq → Option ℕ
shm_rt_pick rt = if not rt.rt_queued || rt.rt_nr_running == 0 then none else pick_in rt.active

-- What is read of a task's real-time entity: its list, on its group's queue or the CPU's, as the
-- addresses that stand there.
pub record RtTask : Type 0 where
  pub addr : ℕ
  pub cpu : ℕ
  pub time_slice : ℕ
  pub on_rq : Bool
  pub on_list : Bool
  pub queue : List ℕ

-- The entries in front of `p`.
unfoldable pub ahead : ℕ → List ℕ → ℕ
ahead p [] = 0
ahead p (q ∷ queue) = if q == p then 0 else suc (ahead p queue)

-- `curr` is the task that runs on the CPU of `p`.
unfoldable pub shm_rt_entity : RtTask → ℕ → Option ℕ → ℕ → ShmRtEntity
unfolding ahead
shm_rt_entity p number pick curr = record {
  task = number;
  cpu = p.cpu;
  flags =
      or_if (is_addr pick p.addr) rt_pick
        (or_if (curr == p.addr) rt_curr (or_if p.on_rq rt_on_rq 0));
  position = if p.on_list then ahead p.addr p.queue else 0;
  time_slice = p.time_slice;
}

-- What is read of a `struct rq`, the classes' queues included.
pub record Rq : Type 0 where
  pub curr : ℕ
  pub idle : ℕ
  pub ttwu_pending : Bool
  pub nr_running : ℕ
  pub nr_switches : ℕ
  pub next_balance : ℕ
  pub util_avg : ℕ
  pub load_avg : ℕ
  pub runnable_avg : ℕ
  pub h_nr_runnable : ℕ
  pub rt : RtRq
