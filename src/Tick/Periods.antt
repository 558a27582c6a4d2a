-- ===== src/Tick/Periods.antt =====
-- When a bandwidth timer comes due.
use kstep.Prelude.{ℕ, zero, suc, ◌+◌, ◌*◌, ◌/◌, ◌%◌, ◌<◌, ◌≡◌, ◌≢◌, arith, if◌then◌else◌}
use native.Mathlib.Nat.{div-add-mod, add-zero, add-suc, add-mul-div_right}
use kstep.Tick.{Machine, comes_due}

div_suc : (a p : ℕ) → 0 < p → suc a % p ≡ 0 → suc a / p ≡ suc (a / p)
div_suc a p h e = grind (arith, div-add-mod a p, div-add-mod (suc a) p)

div_suc_ne : (a p : ℕ) → 0 < p → suc a % p ≢ 0 → suc a / p ≡ a / p
div_suc_ne a p h e = grind (arith, div-add-mod a p, div-add-mod (suc a) p)

module _ {K : Type 0} (m : Machine K) where
  -- How often a timer of the period comes due at the ticks `now + 1`, .. , `now + n`.
  unfoldable pub times_due : ℕ → ℕ → ℕ → ℕ
  times_due period now zero = 0
  times_due period now (suc n) =
      let before = times_due period now n in
      if comes_due m period (now + suc n) then before + 1 else before

  times_due-div :
      (period now n : ℕ)
      → 0 < period / m.tick_nsec
      → times_due period now n + now / (period / m.tick_nsec) ≡ (now + n) / (period / m.tick_nsec)
  unfolding times_due comes_due
  times_due-div period now zero h = rw add-zero (omega arith)
  times_due-div period now (suc n) h =
      let p = period / m.tick_nsec in
      rw add-suc (
        ground (
          arith,
          times_due-div period now n h,
          div_suc (now + n) p h,
          div_suc_ne (now + n) p h,
          add-suc now n,
        ))

  -- A timer whose period is at least a tick comes due exactly `k` times in `k` periods, wherever
  -- they begin: a period is cut to whole ticks, and no boundary is missed or taken twice.
  pub times_due-mul :
      (period now k : ℕ)
      → 0 < period / m.tick_nsec
      → times_due period now (k * (period / m.tick_nsec)) ≡ k
  times_due-mul period now k h =
      omega
        (arith, times_due-div period now (k * (period / m.tick_nsec)) h, add-mul-div_right now k h)
