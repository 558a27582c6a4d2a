-- ===== src/Check.antt =====
-- The rules of kmod/checkers/: each as what it reads, what it keeps, and what it reports. A warning
-- is `some` of the numbers that the message names.
pub mod Tick
pub mod Wakeup
pub mod Rules
pub mod Decay
pub mod Table
mod Tests
use Prim.Native.Nat.{bit_and}
use kstep.Prelude.{
  ℕ, zero, suc, ◌+◌, ◌-◌, ◌*◌, ◌/◌, ◌%◌, ◌^◌, Bool, true, false, not, ◌&&◌, ◌||◌, List, [], ◌∷◌,
  Option, none, some, ltb, leb, ◌==◌, if◌then◌else◌,
}
use kstep.Cpu.Mask.{Mask, test_cpu}

-- The first CPU of a mask that `p` holds of.
pub first_cpu : (ℕ → Bool) → Mask → Option ℕ
first_cpu p [] = none
first_cpu p (c ∷ m) = if p c then some c else first_cpu p m

-- `on_balance` of balance.c, on `nr_running` of each CPU and the span of the local group: the idle
-- CPU that it names.
unfoldable pub on_balance : (ℕ → ℕ) → ℕ → Mask → Option ℕ
unfolding first_cpu
on_balance nr_running cpu group =
    if nr_running cpu == 0 || not (test_cpu cpu group)
    then none
    else first_cpu (λ i. nr_running i == 0) group

-- `on_freeze` of frozen.c from 6.1 on; whether it warns. The two flags are parameters.
unfoldable pub on_freeze : ℕ → ℕ → ℕ → ℕ → Bool
on_freeze freezable frozen state_before state_after =
    not (bit_and state_before freezable == 0)
    && bit_and state_before frozen == 0
    && bit_and state_after frozen == 0

-- A level of a task's hierarchy, as `check` of vruntime.c reads it.
pub record Entity : Type 0 where
  pub slice : ℕ
  pub vruntime : ℕ
  pub min_vruntime : ℕ

abbrev pub nsec_per_sec : ℕ
nsec_per_sec = 1000000000

-- `(s64)(se->vruntime - cfs_rq->min_vruntime)` is outside the 1000 seconds.
unfoldable pub far : ℕ → ℕ → Bool
far vruntime min_vruntime =
    let lag = (vruntime + 2 ^ 64 - min_vruntime) % 2 ^ 64 in
    if ltb lag (2 ^ 63)
    then ltb (1000 * nsec_per_sec) lag
    else ltb (1000 * nsec_per_sec) (2 ^ 64 - lag)

-- The first level that the rule reports, on a kernel from 6.6 on and before 6.19; it is not compiled
-- for others.
unfoldable pub check_vruntime : List Entity → Option Entity
check_vruntime [] = none
check_vruntime (se ∷ parents) =
    if ltb (100 * nsec_per_sec) se.slice || far se.vruntime se.min_vruntime
    then some se
    else check_vruntime parents

-- `struct pelt_obs` of pelt.c
pub record PeltObs : Type 0 where
  pub util : ℕ
  pub clock_task : ℕ
  pub saturated : Bool

abbrev pub half_life : ℕ
half_life = 32000000

-- The floor of `check` of pelt.c, after `dt` ns from `util` on, in `unsigned long`.
unfoldable pub pelt_floor : ℕ → ℕ → ℕ
pelt_floor util dt =
    let halves = dt / half_life in
    let rem = dt % half_life in
    let floor = if leb 64 halves then 0 else util / 2 ^ halves in
    (floor * (1024 - rem * 1024 / half_life)) % 2 ^ 64 / 2 ^ 10

-- What is kept for the next tick, and the floor that the rule reports.
unfoldable pub check_pelt : PeltObs → PeltObs → PeltObs × Option ℕ
check_pelt last cur =
    let floor = pelt_floor last.util (cur.clock_task - last.clock_task) in
    (
      cur,
      if last.saturated
            && ltb last.clock_task cur.clock_task
            && ltb (cur.util + 16 + floor / 16) floor
          then some floor
          else none,
    )
