-- ===== src/Tick/Clocks.antt =====
-- A step that settles returns, and moves both mocked clocks by one tick.
use kstep.Prelude.{
  ℕ, zero, suc, ◌+◌, ◌*◌, ◌%◌, ◌^◌, ◌<◌, true, List, [], ◌∷◌, ◌≡◌, refl, ap, ◌∙◌, arith, ok, ◌==◌,
  if◌then◌else◌, Bool-cases, inl, inr,
}
use kstep.Tick.{
  Machine, World, Note, Timer, view_settled, settle_cpu, settle_cpus, settle, jiffies_set,
  jiffies_tick, sched_clock_tick, do_sched_tick, tick_cpus, period_timer_tick, timers_tick,
  bandwidth_tick, tick, tick_repeat, note, settle_event, tick_begin, tick_end,
}

later_clock :
    (n i w : ℕ) {a b p : ℕ}
    → p ≡ n * i
    → a ≡ (w + i) % 2 ^ 64
    → b ≡ (a + p) % 2 ^ 64
    → b ≡ (w + suc n * i) % 2 ^ 64
later_clock n i w e f g = omega arith

module _ {K : Type 0} (m : Machine K) where
  -- The kernel's own jiffies are written by nothing but the mocked clock, which is what
  -- `kstep_jiffies_init` sees to.
  pub record KeepsJiffies : Type 0 where
    pub at_set : (v : ℕ) (k : K) → m.jiffies (m.set_jiffies v k) ≡ v
    pub at_tick : (cpu : ℕ) (k : K) → m.jiffies (m.sched_tick cpu k) ≡ m.jiffies k
    pub at_clear : (cpu : ℕ) (k : K) → m.jiffies (m.clear_softirq cpu k) ≡ m.jiffies k
    pub at_softirq : (cpu : ℕ) (k : K) → m.jiffies (m.sched_softirq cpu k) ≡ m.jiffies k
    pub at_relax : (k : K) → m.jiffies (m.cpu_relax k) ≡ m.jiffies k
    pub at_cancel : (t : ℕ) (k : K) → m.jiffies (m.cancel t k) ≡ m.jiffies k
    pub at_fire : (t : ℕ) (k : K) → m.jiffies (m.fire t k) ≡ m.jiffies k

  abbrev pub relaxed : ℕ → K → K
  relaxed zero k = k
  relaxed (suc n) k = relaxed n (m.cpu_relax k)

  -- Each CPU settles after fewer than `fuel` rounds of waiting.
  pub record Settles (fuel : ℕ) : Type 0 where
    pub within :
        (cpu : ℕ) (k : K)
        → (n : ℕ) × (n < fuel) × (view_settled (m.cpu_view cpu (relaxed n k)) ≡ true)

  abbrev pub IsSynced : World K → Type 0
  IsSynced w = m.jiffies w.kernel ≡ (w.kstep_jiffies + w.jiffies_offset) % 2 ^ 64

  settle_cpu-ok :
      (fuel n cpu : ℕ) (k : K)
      → KeepsJiffies
      → n < fuel
      → view_settled (m.cpu_view cpu (relaxed n k)) ≡ true
      → (k' : K) × (settle_cpu m fuel cpu k ≡ ok k') × (m.jiffies k' ≡ m.jiffies k)
  unfolding settle_cpu
  settle_cpu-ok zero n cpu k q h s = absurd (omega arith)
  settle_cpu-ok (suc fuel) zero cpu k q h s = (k, rw s, refl)
  settle_cpu-ok (suc fuel) (suc n) cpu k q h s =
      elim (Bool-cases (view_settled (m.cpu_view cpu k))) [
        | inl done ↦ (k, rw done, refl)
        | inr more ↦
            let (k', e, j) = settle_cpu-ok fuel n cpu (m.cpu_relax k) q (omega arith) s in
            (k', rw more e, j ∙ q.at_relax k)
      ]

  settle_cpus-ok :
      (fuel cpu n : ℕ) (k : K)
      → KeepsJiffies
      → Settles fuel
      → (k' : K) × (settle_cpus m fuel cpu n k ≡ ok k') × (m.jiffies k' ≡ m.jiffies k)
  unfolding settle_cpus
  settle_cpus-ok fuel cpu zero k q s = (k, refl, refl)
  settle_cpus-ok fuel cpu (suc n) k q s =
      let (r, lt, done) = s.within cpu k in
      let (k', e, j) = settle_cpu-ok fuel r cpu k q lt done in
      let (k'', e', j') = settle_cpus-ok fuel (cpu + 1) n k' q s in (k'', rw e e', j' ∙ j)

  -- What a step leaves of a world, but for the clocks that `kj` and `clock` give.
  pub record Moved (w w' : World K) (kj clock : ℕ) : Type 0 where
    pub jiffies_are : w'.kstep_jiffies ≡ kj
    pub clock_is : w'.sched_clock ≡ clock
    pub offset_kept : w'.jiffies_offset ≡ w.jiffies_offset
    pub ncpus_kept : w'.test_ncpus ≡ w.test_ncpus
    pub interval_kept : w'.tick_interval_ns ≡ w.tick_interval_ns

  settle-ok :
      (fuel : ℕ) (w : World K)
      → KeepsJiffies
      → Settles fuel
      → IsSynced w
      → (w' : World K) × (settle m fuel w ≡ ok w')
        × Moved w w' w.kstep_jiffies w.sched_clock
        × IsSynced w'
  unfolding settle
  settle-ok fuel w q s y =
      let (k, e, j) = settle_cpus-ok fuel 1 w.test_ncpus w.kernel q s in
      let w' = note settle_event (record w { kernel = k }) in (w', rw e, ground arith, ground arith)

  abbrev Stays : World K → World K → Type 0
  Stays w w' = Moved w w' w.kstep_jiffies w.sched_clock × (m.jiffies w'.kernel ≡ m.jiffies w.kernel)

  do_tick-Stays : (cpu : ℕ) (w : World K) → KeepsJiffies → Stays w (do_sched_tick m cpu w)
  unfolding do_sched_tick
  do_tick-Stays cpu w q =
      let k = m.sched_tick cpu w.kernel in
      ground
        (arith, q.at_tick cpu w.kernel, q.at_clear cpu k, q.at_softirq cpu (m.clear_softirq cpu k))

  tick_cpus-Stays : (cpu n : ℕ) (w : World K) → KeepsJiffies → Stays w (tick_cpus m cpu n w)
  unfolding tick_cpus
  tick_cpus-Stays cpu zero w q = ground arith
  tick_cpus-Stays cpu (suc n) w q =
      ground (arith, do_tick-Stays cpu w q, tick_cpus-Stays (cpu + 1) n (do_sched_tick m cpu w) q)

  timer-Stays : (t : Timer) (w : World K) → KeepsJiffies → Stays w (period_timer_tick m t w)
  unfolding period_timer_tick
  timer-Stays t w q =
      ground (arith, q.at_cancel t.timer w.kernel, q.at_fire t.timer (m.cancel t.timer w.kernel))

  timers-Stays : (ts : List Timer) (w : World K) → KeepsJiffies → Stays w (timers_tick m ts w)
  unfolding timers_tick
  timers-Stays [] w q = ground arith
  timers-Stays (t ∷ ts) w q =
      ground (arith, timer-Stays t w q, timers-Stays ts (period_timer_tick m t w) q)

  abbrev pub interval : World K → ℕ
  interval w = if w.tick_interval_ns == 0 then m.tick_nsec else w.tick_interval_ns

  clocks-ok :
      (w : World K)
      → KeepsJiffies
      → IsSynced w
      → (w' : World K) × (jiffies_tick m (sched_clock_tick m w) ≡ ok w')
        × Moved w w' ((w.kstep_jiffies + 1) % 2 ^ 64) ((w.sched_clock + interval w) % 2 ^ 64)
        × IsSynced w'
  unfolding jiffies_tick sched_clock_tick
  clocks-ok w q y =
      let now = (w.kstep_jiffies + 1) % 2 ^ 64 in
      let w' = jiffies_set m now (sched_clock_tick m w) in
      (w', ground arith, ground arith, q.at_set ((now + w.jiffies_offset) % 2 ^ 64) w.kernel)

  IsSynced-of-Stays : (w w' : World K) → Stays w w' → IsSynced w → IsSynced w'
  IsSynced-of-Stays w w' h y = ground arith

  tick-eq :
      (fuel : ℕ) (w a b c : World K)
      → settle m fuel w ≡ ok a
      → jiffies_tick m (sched_clock_tick m (note tick_begin a)) ≡ ok b
      → settle m fuel (tick_cpus m 1 b.test_ncpus b) ≡ ok c
      → tick m fuel w ≡ ok (note tick_end (timers_tick m (m.active_timers c.kernel) c))
  unfolding tick bandwidth_tick
  tick-eq fuel w a b c ea eb ec = rw (ea, eb, ec)

  Moved-tick :
      {w a b t c d : World K}
      → Moved w a w.kstep_jiffies w.sched_clock
      → Moved a b ((a.kstep_jiffies + 1) % 2 ^ 64) ((a.sched_clock + interval a) % 2 ^ 64)
      → Moved b t b.kstep_jiffies b.sched_clock
      → Moved t c t.kstep_jiffies t.sched_clock
      → Moved c d c.kstep_jiffies c.sched_clock
      → Moved w d ((w.kstep_jiffies + 1) % 2 ^ 64) ((w.sched_clock + interval w) % 2 ^ 64)
  Moved-tick h i j k l = ground arith

  from_note :
      (e : Note) (a : World K) {b : World K} {j c : ℕ} → Moved (note e a) b j c → Moved a b j c
  from_note e a h = ground arith

  to_note :
      (e : Note) {a : World K} (b : World K) {j c : ℕ} → Moved a b j c → Moved a (note e b) j c
  to_note e b h = ground arith

  -- One step from synced clocks: it returns, and both clocks have moved by one tick.
  pub tick-ok :
      (fuel : ℕ) (w : World K)
      → KeepsJiffies
      → Settles fuel
      → IsSynced w
      → (w' : World K) × (tick m fuel w ≡ ok w')
        × Moved w w' ((w.kstep_jiffies + 1) % 2 ^ 64) ((w.sched_clock + interval w) % 2 ^ 64)
        × IsSynced w'
  tick-ok fuel w q s y =
      let (a, ea, ma, ya) = settle-ok fuel w q s y in
      let (b, eb, mb, yb) = clocks-ok (note tick_begin a) q ya in
      let t = tick_cpus m 1 b.test_ncpus b in
      let st = tick_cpus-Stays 1 b.test_ncpus b q in
      let (c, ec, mc, yc) = settle-ok fuel t q s (IsSynced-of-Stays b t st yb) in
      let d = timers_tick m (m.active_timers c.kernel) c in
      let sd = timers-Stays (m.active_timers c.kernel) c q in
      (
        note tick_end d,
        tick-eq fuel w a b c ea eb ec,
        Moved-tick {a = a} {b = b} {t = t} {c = c} ma (from_note tick_begin a mb) st.0 mc
            (to_note tick_end d sd.0),
        IsSynced-of-Stays c d sd yc,
      )

  interval-kept : {w a : World K} {j c : ℕ} → Moved w a j c → interval a ≡ interval w
  interval-kept h = ap (λ t. if t == 0 then m.tick_nsec else t) h.interval_kept

  Moved-trans :
      {w a b : World K} (n : ℕ)
      → Moved w a ((w.kstep_jiffies + 1) % 2 ^ 64) ((w.sched_clock + interval w) % 2 ^ 64)
      → Moved a b ((a.kstep_jiffies + n) % 2 ^ 64) ((a.sched_clock + n * interval a) % 2 ^ 64)
      → Moved w b
          ((w.kstep_jiffies + suc n) % 2 ^ 64)
          ((w.sched_clock + suc n * interval w) % 2 ^ 64)
  Moved-trans {w} {a} n h k =
      let same : n * interval a ≡ n * interval w = ap (λ t. n * t) (interval-kept h) in
      record {
        jiffies_are = omega arith;
        clock_is = later_clock n (interval w) w.sched_clock same h.clock_is k.clock_is;
        offset_kept = k.offset_kept ∙ h.offset_kept;
        ncpus_kept = k.ncpus_kept ∙ h.ncpus_kept;
        interval_kept = k.interval_kept ∙ h.interval_kept;
      }

  -- `n` steps from synced clocks, on a machine whose CPUs settle: they return, the mocked jiffies
  -- have moved by `n`, the mocked clock by `n` intervals (the driver's, or TICK_NSEC where it has
  -- none), both modulo 2 ^ 64, and the kernel's jiffies still go with the mocked ones.
  pub tick_repeat-Moved :
      (fuel n : ℕ) (w : World K)
      → KeepsJiffies
      → Settles fuel
      → IsSynced w
      → w.kstep_jiffies < 2 ^ 64
      → w.sched_clock < 2 ^ 64
      → (w' : World K) × (tick_repeat m fuel n w ≡ ok w')
        × Moved w w' ((w.kstep_jiffies + n) % 2 ^ 64) ((w.sched_clock + n * interval w) % 2 ^ 64)
        × IsSynced w'
  unfolding tick_repeat
  tick_repeat-Moved fuel zero w q s y hj hc = (w, refl, omega arith, y)
  tick_repeat-Moved fuel (suc n) w q s y hj hc =
      let (a, ea, ma, ya) = tick-ok fuel w q s y in
      let (b, eb, mb, yb) = tick_repeat-Moved fuel n a q s ya (omega arith) (omega arith) in
      (b, rw ea eb, Moved-trans n ma mb, yb)
