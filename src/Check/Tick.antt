-- ===== src/Check/Tick.antt =====
-- `on_tick_end` of kmod/checkers/work_conserve.c.
pub mod Streak
use kstep.Prelude.{
  ℕ, zero, suc, ◌+◌, ◌-◌, Bool, true, false, not, ◌&&◌, ◌||◌, List, [], ◌∷◌, Option, none, some,
  ltb, leb, ◌==◌, if◌then◌else◌,
}
use kstep.Cpu.Mask.{Mask, intersects}

-- KSTEP_IDLE_TICKS
abbrev pub idle_ticks : ℕ
idle_ticks = 4

-- A task of the session: whether it is alive and in TASK_RUNNING, the length of its runqueue, and
-- the CPUs that it may run on.
pub record Runner : Type 0 where
  pub pid : ℕ
  pub running : Bool
  pub nr_running : ℕ
  pub cpus : Mask

-- `num_online_cpus()`, `kstep_test_ncpus`, `nr_running` of each CPU, and the tasks.
pub record View : Type 0 where
  pub online : ℕ
  pub test_ncpus : ℕ
  pub nr_running : ℕ → ℕ
  pub tasks : List Runner

-- The test CPUs 1..n that are idle.
unfoldable pub idle_of : (ℕ → ℕ) → ℕ → Mask
idle_of nr_running zero = []
idle_of nr_running (suc n) =
    let rest = idle_of nr_running n in if nr_running (suc n) == 0 then suc n ∷ rest else rest

unfoldable pub runnable : List Runner → ℕ
runnable [] = 0
runnable (p ∷ tasks) = let rest = runnable tasks in if p.running then rest + 1 else rest

-- The first task that is queued behind another and may run on an idle CPU.
unfoldable pub waiting : Mask → List Runner → Option Runner
waiting idle [] = none
waiting idle (p ∷ tasks) =
    if p.running && ltb 1 p.nr_running && intersects p.cpus idle then some p else waiting idle tasks

is_empty : Mask → Bool
is_empty [] = true
is_empty (c ∷ m) = false

-- The new streak, and the task that the rule reports.
streak_of : ℕ → Bool → Option Runner → ℕ × Option Runner
streak_of streak silent none = (0, none)
streak_of streak true (some p) = (0, none)
streak_of streak false (some p) = (streak + 1, if leb idle_ticks (streak + 1) then some p else none)

unfoldable pub work_tick : View → ℕ → ℕ × Option Runner
unfolding streak_of is_empty
work_tick v streak =
    let idle = idle_of v.nr_running v.test_ncpus in
    streak_of streak (is_empty idle || ltb (runnable v.tasks) (v.online - 1)) (waiting idle v.tasks)
