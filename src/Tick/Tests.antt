-- ===== src/Tick/Tests.antt =====
-- A machine whose state is its jiffies, on which a CPU settles when the jiffies are even.
use kstep.Prelude.{
  ℕ, zero, suc, ◌+◌, ◌*◌, ◌%◌, ◌^◌, ◌≤◌, ◌<◌, true, false, [], ◌∷◌, Option, none, some, ◌==◌,
  if◌then◌else◌, ok, ◌≡◌, refl, arith,
}
use kstep.Tick.{
  Machine, World, CpuView, view_settled, settle, settle_cpu, settle_cpus, tick, tick_repeat,
  tick_until, comes_due,
}
use kstep.Tick.Clocks.{KeepsJiffies, Settles, IsSynced, Moved, interval, relaxed, tick_repeat-Moved}
use kstep.Tick.Settle.{IsSettled, settle-seen}
use kstep.Tick.Until.{tick_until-answers}

-- The jiffies, and how many rounds of waiting the CPU still needs: two after each tick.
record Toy : Type 0 where
  time : ℕ
  busy : ℕ

abbrev halting : CpuView
halting = record {
  ttwu_pending = false;
  need_resched = false;
  need_resched_lazy = false;
  idle = false;
  nr_running = 1;
  curr_settled = true;
}

abbrev view_of : ℕ → CpuView
view_of zero = halting
view_of (suc n) = record halting { need_resched = true }

abbrev less : ℕ → ℕ
less zero = 0
less (suc zero) = 0
less (suc (suc n)) = 1

abbrev toy : Machine Toy
toy = record {
  tick_nsec = 1000000;
  jiffies = λ k. k.time;
  set_jiffies = λ v k. record k { time = v };
  sched_tick = λ cpu k. record k { busy = 2 };
  softirq_pending = λ cpu k. true;
  clear_softirq = λ cpu k. k;
  sched_softirq = λ cpu k. k;
  cpu_view = λ cpu k. view_of k.busy;
  cpu_relax = λ k. record k { busy = less k.busy };
  active_timers = λ k. record { timer = 5; period = 2000000 } ∷ [];
  cancel = λ t k. k;
  fire = λ t k. record k { busy = 1 };
}

toy-KeepsJiffies : KeepsJiffies toy
toy-KeepsJiffies = record {
  at_set = λ v k. refl;
  at_tick = λ cpu k. refl;
  at_clear = λ cpu k. refl;
  at_softirq = λ cpu k. refl;
  at_relax = λ k. refl;
  at_cancel = λ t k. refl;
  at_fire = λ t k. refl;
}

toy-within :
    (cpu time busy : ℕ)
    → (n : ℕ) × (n < 3)
      × (view_settled (view_of (relaxed toy n (record { time = time; busy = busy })).busy) ≡ true)
unfolding view_settled
toy-within cpu time zero = (0, omega arith, refl)
toy-within cpu time (suc zero) = (1, omega arith, refl)
toy-within cpu time (suc (suc b)) = (2, omega arith, refl)

toy-Settles : Settles toy 3
toy-Settles = record { within = λ cpu k. toy-within cpu k.time k.busy }

-- The clocks are about to wrap.
abbrev late : World Toy
late = record {
  sched_clock = 18446744073709000000;
  kstep_jiffies = 18446744073709551614;
  jiffies_offset = 9;
  test_ncpus = 2;
  tick_interval_ns = 0;
  kernel = record { time = 7; busy = 2 };
  notes = [];
}

late-IsSynced : IsSynced toy late
late-IsSynced = omega arith

tick_repeat-Moved_example :
    (w : World Toy) × (tick_repeat toy 3 5 late ≡ ok w)
    × Moved toy late w
        ((18446744073709551614 + 5) % 2 ^ 64)
        ((18446744073709000000 + 5 * interval toy late) % 2 ^ 64)
    × IsSynced toy w
tick_repeat-Moved_example =
    tick_repeat-Moved toy 3 5 late toy-KeepsJiffies toy-Settles late-IsSynced (omega arith)
      (omega arith)

abbrev after : World Toy
after = record late { kernel = record { time = 7; busy = 0 }; notes = kstep.Tick.settle_event ∷ [] }

settle-late : settle toy 3 late ≡ ok after
unfolding settle settle_cpus settle_cpu view_settled
settle-late = refl

settle-seen_example :
    (r later : ℕ) × IsSettled toy 2 (relaxed toy r late.kernel)
    × (after.kernel ≡ relaxed toy later (relaxed toy r late.kernel))
settle-seen_example = settle-seen toy 3 late 2 settle-late (omega arith) (omega arith)

-- A callback that answers at time 9.
abbrev at_nine : World Toy → Option ℕ
at_nine w = if w.kstep_jiffies == 9 then some 90 else none

abbrev early : World Toy
early = record late { sched_clock = 5; kstep_jiffies = 7; jiffies_offset = 0 }

nine-answers : (v : World Toy) → v.kstep_jiffies ≡ 9 → (r : ℕ) × (at_nine v ≡ some r)
nine-answers v h = let e : (v.kstep_jiffies == 9) ≡ true = ground (arith, h) in (90, rw e)

tick_until-answers_example :
    (r : ℕ) × (w : World Toy) × (tick_until toy 3 3 at_nine early ≡ ok (r, w))
    × (at_nine w ≡ some r)
    × (w.kstep_jiffies ≤ 9)
tick_until-answers_example =
    tick_until-answers toy at_nine 3 2 9 early toy-KeepsJiffies toy-Settles (omega arith)
      (omega arith) (omega arith) nine-answers
