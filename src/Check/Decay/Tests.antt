-- ===== src/Check/Decay/Tests.antt =====
-- Two CPUs of which both lose their utilization, and a task that has exited on the second.
use kstep.Prelude.{ℕ, ◌≡◌, refl, true, false, [], ◌∷◌, replicate, arith}
use kstep.Prelude.Int.{pos}
use kstep.Cpu.Mask.{test_cpu}
use kstep.Check.Decay.{Watch, Task, UtilView, seen_max, no_task, cfs_util, see_task, decay_tick}
use kstep.Check.Decay.Silence.{exited-silences}

abbrev high : Watch
high = record {
  last = λ c. record { cfs = pos 2000; rt = pos 0; valid = true };
  seen = replicate seen_max no_task;
}

abbrev idle : ℕ → UtilView
idle c = record { util_avg = 10; removed = 0; leaves = 3 ∷ []; rt_util_avg = 0 }

abbrev dead : Task
dead = record { pid = 9; cpu = 2; policy = 0; exited = true }

reported : (decay_tick idle 2 (dead ∷ []) high).0 ≡ 1 ∷ []
unfolding decay_tick see_task cfs_util
reported = refl

exited-silences_example : test_cpu 2 (decay_tick idle 2 (dead ∷ []) high).0 ≡ false
exited-silences_example = exited-silences idle 2 0 (dead ∷ []) high dead refl (omega arith) refl
