-- ===== src/Tick.antt =====
-- The step of a session: kmod/tick.c, kmod/tick_jiffies.c and kmod/tick_clock.c. The kernel is a
-- parameter: what the code calls of it, and what it reads of it.
pub mod Clocks
pub mod Settle
pub mod Periods
pub mod Until
mod Tests
use kstep.Prelude.{
  ℕ, zero, suc, ◌+◌, ◌/◌, ◌%◌, ◌^◌, Bool, true, false, not, ◌&&◌, ◌||◌, List, [], ◌∷◌, ◌++◌,
  Outcome, ok, panic, not_ended, Option, none, some, jiffies_moved, not_settled, ◌>>=◌, ◌==◌,
  if◌then◌else◌,
}

-- TICK_NSEC at the HZ that the kernel is built with is a parameter, `tick_nsec`.

-- What `kstep_cpu_settled` reads of a CPU.
pub record CpuView : Type 0 where
  pub ttwu_pending : Bool
  pub need_resched : Bool
  pub need_resched_lazy : Bool
  pub idle : Bool
  pub nr_running : ℕ
  pub curr_settled : Bool

unfoldable pub view_settled : CpuView → Bool
view_settled v =
    if v.ttwu_pending || v.need_resched
    then false
    else if v.need_resched_lazy
    then false
    else if v.idle
    then v.nr_running == 0
    else v.curr_settled

-- A bandwidth timer that is active: which one, and its period in ns.
pub record Timer : Type 0 where
  pub timer : ℕ
  pub period : ℕ

pub record Machine (K : Type 0) : Type 0 where
  pub tick_nsec : ℕ
  pub jiffies : K → ℕ
  pub set_jiffies : ℕ → K → K
  pub sched_tick : ℕ → K → K
  pub softirq_pending : ℕ → K → Bool
  pub clear_softirq : ℕ → K → K
  pub sched_softirq : ℕ → K → K
  pub cpu_view : ℕ → K → CpuView
  pub cpu_relax : K → K
  pub active_timers : K → List Timer
  pub cancel : ℕ → K → K
  pub fire : ℕ → K → K

-- The events that a step raises, and the timers that it fires, oldest first.
pub data Note : Type 0 where
  settle_event tick_begin tick_end softirq_begin softirq_end : Note
  fired : ℕ → Note

pub record World (K : Type 0) : Type 0 where
  pub sched_clock : ℕ
  pub kstep_jiffies : ℕ
  pub jiffies_offset : ℕ
  pub test_ncpus : ℕ
  pub tick_interval_ns : ℕ
  pub kernel : K
  pub notes : List Note

module _ {K : Type 0} where
  abbrev pub note : Note → World K → World K
  note e w = record w { notes = w.notes ++ (e ∷ []) }

module _ {K : Type 0} (m : Machine K) where
  pub sched_clock_tick : World K → World K
  sched_clock_tick w =
      let interval = if w.tick_interval_ns == 0 then m.tick_nsec else w.tick_interval_ns in
      record w { sched_clock = (w.sched_clock + interval) % 2 ^ 64 }

  unfoldable pub jiffies_set : ℕ → World K → World K
  jiffies_set value w = record w {
    kstep_jiffies = value;
    kernel = m.set_jiffies ((value + w.jiffies_offset) % 2 ^ 64) w.kernel;
  }

  unfoldable pub jiffies_tick : World K → Outcome (World K)
  unfolding jiffies_set
  jiffies_tick w =
      if m.jiffies w.kernel == (w.kstep_jiffies + w.jiffies_offset) % 2 ^ 64
      then ok (jiffies_set ((w.kstep_jiffies + 1) % 2 ^ 64) w)
      else panic jiffies_moved

  -- `while (!kstep_cpu_settled(cpu)) cpu_relax();` with fuel.
  unfoldable pub settle_cpu : ℕ → ℕ → K → Outcome K
  settle_cpu zero cpu k = panic not_settled
  settle_cpu (suc fuel) cpu k =
      let rest = settle_cpu fuel cpu (m.cpu_relax k) in
      if view_settled (m.cpu_view cpu k) then ok k else rest

  -- The CPUs `cpu`, `cpu + 1`, .. , `n` of them.
  unfoldable pub settle_cpus : ℕ → ℕ → ℕ → K → Outcome K
  settle_cpus fuel cpu zero k = ok k
  settle_cpus fuel cpu (suc n) k = do k' ← settle_cpu fuel cpu k; settle_cpus fuel (cpu + 1) n k'

  unfoldable pub settle : ℕ → World K → Outcome (World K)
  settle fuel w = do
    k ← settle_cpus fuel 1 w.test_ncpus w.kernel
    ok (note settle_event (record w { kernel = k }))

  abbrev pub after_tick : World K → ℕ → K → World K
  after_tick w cpu k =
      if m.softirq_pending cpu k
      then record w {
        kernel = m.sched_softirq cpu (m.clear_softirq cpu k);
        notes = w.notes ++ (softirq_begin ∷ softirq_end ∷ []);
      }
      else record w { kernel = k }

  unfoldable pub do_sched_tick : ℕ → World K → World K
  do_sched_tick cpu w = after_tick w cpu (m.sched_tick cpu w.kernel)

  -- As `settle_cpus`, for the ticks.
  unfoldable pub tick_cpus : ℕ → ℕ → World K → World K
  unfolding do_sched_tick
  tick_cpus cpu zero w = w
  tick_cpus cpu (suc n) w = tick_cpus (cpu + 1) n (do_sched_tick cpu w)

  -- `kstep_jiffies % period_ticks == 0`, or a period under one tick.
  unfoldable pub comes_due : ℕ → ℕ → Bool
  comes_due period now =
      let period_ticks = period / m.tick_nsec in period_ticks == 0 || now % period_ticks == 0

  unfoldable pub period_timer_tick : Timer → World K → World K
  period_timer_tick t w =
      let k = m.cancel t.timer w.kernel in
      if comes_due t.period w.kstep_jiffies
      then note (fired t.timer) (record w { kernel = m.fire t.timer k })
      else record w { kernel = k }

  unfoldable pub timers_tick : List Timer → World K → World K
  unfolding period_timer_tick
  timers_tick [] w = w
  timers_tick (t ∷ ts) w = timers_tick ts (period_timer_tick t w)

  pub bandwidth_tick : World K → World K
  bandwidth_tick w = timers_tick (m.active_timers w.kernel) w

  unfoldable pub tick : ℕ → World K → Outcome (World K)
  unfolding sched_clock_tick bandwidth_tick
  tick fuel w = do
    a ← settle fuel w
    b ← jiffies_tick (sched_clock_tick (note tick_begin a))
    c ← settle fuel (tick_cpus 1 b.test_ncpus b)
    ok (note tick_end (bandwidth_tick c))

  unfoldable pub tick_repeat : ℕ → ℕ → World K → Outcome (World K)
  tick_repeat fuel zero w = ok w
  tick_repeat fuel (suc n) w = do w' ← tick fuel w; tick_repeat fuel n w'

  abbrev pub or_go_on {ℓ} :
      {A : Type ℓ} → Option A → World K → Outcome (A × World K) → Outcome (A × World K)
  or_go_on none w rest = rest
  or_go_on (some r) w rest = ok (r, w)

  -- `kstep_tick_until` for a callback that only reads; the first number is how often it is asked.
  unfoldable pub tick_until {ℓ} :
      {A : Type ℓ} → ℕ → ℕ → (World K → Option A) → World K → Outcome (A × World K)
  tick_until zero fuel fn w = panic not_ended
  tick_until (suc n) fuel fn w =
      let rest = tick fuel w >>= λ w'. tick_until n fuel fn w' in or_go_on (fn w) w rest
