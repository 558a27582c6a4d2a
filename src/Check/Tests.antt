-- ===== src/Check/Tests.antt =====
-- The rules on small machines.
use kstep.Prelude.{replicate, ℕ, ◌≤◌, true, List, [], ◌∷◌, some, ◌≡◌, refl, ◌==◌, if◌then◌else◌}
use kstep.Check.{first_cpu, on_balance, PeltObs, pelt_floor, check_pelt}
use kstep.Check.Tick.{Runner, View, idle_of, runnable, waiting, work_tick, idle_ticks}
use kstep.Check.Tick.Streak.{after, owed_run, work_tick-reported}
use kstep.Check.Wakeup.{Placement, Pending, owed_wakeup, on_select, verdicts, on_settle, select_all}

-- CPU 1 runs two tasks, CPU 2 none.
abbrev load : ℕ → ℕ
load c = if c == 1 then 2 else 0

on_balance-load : on_balance load 1 (1 ∷ 2 ∷ []) ≡ some 2
unfolding on_balance first_cpu
on_balance-load = refl

abbrev saturated : PeltObs
saturated = record { util = 1000; clock_task = 5; saturated = true }

abbrev later : PeltObs
later = record saturated { clock_task = 4000005 }

abbrev fallen : PeltObs
fallen = record saturated { util = 100; clock_task = 4000005 }

check-fallen : (check_pelt saturated fallen).1 ≡ some 875
unfolding check_pelt pelt_floor
check-fallen = refl

-- Two tasks on CPU 1 of a machine with the test CPUs 1 and 2.
abbrev pair : List Runner
pair =
    record { pid = 30; running = true; nr_running = 2; cpus = 1 ∷ 2 ∷ [] }
    ∷ record { pid = 31; running = true; nr_running = 2; cpus = 1 ∷ 2 ∷ [] }
    ∷ []

abbrev spare : View
spare = record { online = 8; test_ncpus = 2; nr_running = load; tasks = pair }

abbrev whole : View
whole = record spare { online = 3 }

abbrev three : List View
three = whole ∷ whole ∷ whole ∷ []

abbrev waits : Runner
waits = record { pid = 30; running = true; nr_running = 2; cpus = 1 ∷ 2 ∷ [] }

three-late : (work_tick whole (after three)).1 ≡ some waits
unfolding work_tick after idle_of runnable waiting
three-late = refl

work_tick-reported_example :
    (waiting (idle_of load 2) pair ≡ some waits) × (idle_ticks ≤ owed_run (whole ∷ three))
work_tick-reported_example = work_tick-reported whole three waits three-late

-- A wakeup that is owed CPU 3, and one whose waker is not alone.
abbrev placements : List Placement
placements =
    record {
      p = 7;
      jiffies = 4;
      sync = true;
      this_cpu = 3;
      allowed = true;
      nr_running = 1;
      delayed = 0;
    }
    ∷ record {
      p = 8;
      jiffies = 4;
      sync = true;
      this_cpu = 3;
      allowed = true;
      nr_running = 2;
      delayed = 0;
    }
    ∷ []

-- A step that begins with what an earlier one left in the array.
abbrev stale : Pending
stale = record { pending = λ i. (99, 9); npending = 0 }

settle-placements : (on_settle (λ p. 5) (select_all placements stale)).0 ≡ ((7, 3, 5) ∷ [])
unfolding on_settle select_all on_select owed_wakeup verdicts
settle-placements = refl

-- Seventeen owed wakeups: the last one is not judged.
abbrev crowd : List Placement
crowd = replicate 17 (record {
  p = 7;
  jiffies = 4;
  sync = true;
  this_cpu = 3;
  allowed = true;
  nr_running = 1;
  delayed = 0;
})

settle-crowd : (on_settle (λ p. 5) (select_all crowd stale)).0 ≡ replicate 16 (7, 3, 5)
unfolding on_settle select_all on_select owed_wakeup verdicts
settle-crowd = refl
